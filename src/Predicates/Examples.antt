-- ===== src/Predicates/Examples.antt =====
-- A change of department: tests and instances.
use nutanix_hack.Prelude.{◌≡◌, refl, true, some, [], ◌∷◌}
use nutanix_hack.Json.{str, obj, end, field, arr, nil, cons, get_field}
use nutanix_hack.Predicates.{Clauses, Change, matches, clauses_of, validate_predicate}
use nutanix_hack.Predicates.Describe.{describe, join}

abbrev hired : Change
hired = record {
  changed_keys = "department" ∷ [];
  before = end;
  after = field "department" (str "Engineering") end;
}

-- Changed department, into one of two, from none.
abbrev joiner : Clauses
joiner = record {
  changed = some ("department" ∷ "title" ∷ []);
  match_block = some (
      field "department"
        (obj (field "in" (arr (cons (str "Ops") (cons (str "Engineering") nil))) end)) end);
  was_block = some (field "department" (obj (field "ne" (str "Engineering") end)) end);
}

fires : matches joiner hired ≡ some true
unfolding matches nutanix_hack.Predicates.all_match nutanix_hack.Predicates.compare_value
    nutanix_hack.Predicates.compare_by nutanix_hack.Predicates.Values.is_in
    nutanix_hack.Predicates.Values.member nutanix_hack.Predicates.Values.same_value
    nutanix_hack.Json.get_field
fires = refl

reads_as :
    describe
      (λ v. "Engineering")
      (field "changed"
        (arr (cons (str "department") (cons (str "title") nil)))
        (field "match" (obj (field "department" (str "Engineering") end)) end))
    ≡ "when department or title changes; to department=Engineering"
unfolding describe join get_field
reads_as = refl
