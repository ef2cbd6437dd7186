-- ===== src/Predicates.antt =====
-- graph/predicates.py: which changes of an entity start a workflow.
pub mod Values
pub mod Raising
pub mod Describe
mod Examples
use nutanix_hack.Prelude.{
  ℕ, Bool, true, false, not, ◌&&◌, ◌||◌, String, Option, none, some, List, [], ◌∷◌, str_eq,
  contains, some_of, ◌==◌, if◌then◌else◌,
}
use nutanix_hack.Json.{
  Value, Items, Fields, null, bool, num, str, arr, obj, nil, cons, end, field, get_field,
}
use nutanix_hack.Prelude.Int.{ℤ, pos}
use nutanix_hack.Predicates.Values.{same_value, is_in, is_ordered, Comparison, gt, gte, lt, lte}

abbrev operators : List String
operators = "eq" ∷ "ne" ∷ "in" ∷ "not_in" ∷ "gt" ∷ "gte" ∷ "lt" ∷ "lte" ∷ "exists" ∷ "contains" ∷ []

-- `PredicateError`, by the place that raises it.
pub data PredicateError : Type 0 where
  not_an_object unknown_clause empty_predicate changed_not_names : PredicateError
  clause_not_object : String → PredicateError
  not_one_operator unknown_operator : String → String → PredicateError

-- A check that passes (`none`) or raises.
abbrev pub Check : Type 0
Check = Option PredicateError

abbrev before_check : Check → Check → Check
before_check none later = later
before_check (some e) later = some e

-- `set(predicate) - {"changed", "match", "was"}` is empty.
unfoldable pub known_clauses : Fields → Bool
known_clauses end = true
known_clauses (field k v fs) = contains ("changed" ∷ "match" ∷ "was" ∷ []) k && known_clauses fs

unfoldable pub all_names : Items → Bool
all_names nil = true
all_names (cons (str name) xs) = all_names xs
all_names (cons _ xs) = false

unfoldable pub check_changed : Option Value → Check
check_changed none = none
check_changed (some null) = none
check_changed (some (arr xs)) = if all_names xs then none else some changed_not_names
check_changed (some _) = some changed_not_names

-- One attribute of a clause.
unfoldable pub check_expected : String → String → Value → Check
check_expected clause attr (obj (field op v end)) =
    if contains operators op then none else some (unknown_operator clause attr)
check_expected clause attr (obj _) = some (not_one_operator clause attr)
check_expected clause attr _ = none

unfoldable pub check_block : String → Fields → Check
check_block clause end = none
check_block clause (field attr expected fs) =
    before_check (check_expected clause attr expected) (check_block clause fs)

unfoldable pub check_clause : String → Option Value → Check
check_clause clause none = none
check_clause clause (some null) = none
check_clause clause (some (obj fs)) = check_block clause fs
check_clause clause (some _) = some (clause_not_object clause)

abbrev no_fields : Fields → Bool
no_fields end = true
no_fields (field k v fs) = false

unfoldable pub validate_predicate : Value → Check
validate_predicate (obj fs) =
    if not (known_clauses fs)
    then some unknown_clause
    else if no_fields fs
    then some empty_predicate
    else before_check (check_changed (get_field fs "changed")) (
        before_check (check_clause "match" (get_field fs "match"))
          (check_clause "was" (get_field fs "was")))
validate_predicate _ = some not_an_object

-- `bool(value)`
abbrev pub truth : Value → Bool
truth null = false
truth (bool b) = b
truth (num n) = not (same_value (num n) (num (pos 0)))
truth (str s) = not (str_eq s "")
truth (arr nil) = false
truth (arr _) = true
truth (obj fs) = not (no_fields fs)

abbrev is_null : Value → Bool
is_null null = true
is_null _ = false

-- `except TypeError: return False`
abbrev or_false : Option Bool → Bool
or_false none = false
or_false (some b) = b

abbrev pub negate : Option Bool → Option Bool
negate none = none
negate (some b) = some (not b)

-- The ordered comparisons of `_compare`, and the operator that is none of its.
unfoldable pub compare_ordered : String → Value → Value → Bool
compare_ordered op actual value =
    if str_eq op "gt"
    then or_false (is_ordered gt actual value)
    else if str_eq op "gte"
    then or_false (is_ordered gte actual value)
    else if str_eq op "lt"
    then or_false (is_ordered lt actual value)
    else if str_eq op "lte"
    then or_false (is_ordered lte actual value)
    else false

abbrev same_truth : Bool → Bool → Bool
same_truth a b = if a then b else not b

-- `_compare` from `exists` on, where no exception gets out.
unfoldable pub compare_safely : String → Value → Value → Bool
compare_safely op actual value =
    if str_eq op "exists"
    then same_truth (not (is_null actual)) (truth value)
    else if str_eq op "contains"
    then (if is_null actual then false else or_false (is_in value actual))
    else compare_ordered op actual value

-- `_compare` with an operator; `none` is an exception that it lets through.
unfoldable pub compare_by : String → Value → Value → Option Bool
compare_by op actual value =
    if str_eq op "eq"
    then some (same_value actual value)
    else if str_eq op "ne"
    then some (not (same_value actual value))
    else if str_eq op "in"
    then is_in actual value
    else if str_eq op "not_in"
    then negate (is_in actual value)
    else some (compare_safely op actual value)

-- `_compare`; of an object with several operators the first counts, and an empty one raises.
unfoldable pub compare_value : Value → Value → Option Bool
compare_value actual (obj end) = none
compare_value actual (obj (field op value _)) = compare_by op actual value
compare_value actual expected = some (same_value actual expected)

abbrev or_null : Option Value → Value
or_null none = null
or_null (some v) = v

-- `all` over a generator: the first False ends it, and so does an exception.
abbrev pub and_then : Option Bool → Option Bool → Option Bool
and_then none rest = none
and_then (some false) rest = some false
and_then (some true) rest = rest

unfoldable pub all_match : Fields → Fields → Option Bool
all_match end attrs = some true
all_match (field attr expected block) attrs =
    and_then (compare_value (or_null (get_field attrs attr)) expected) (all_match block attrs)

-- What `matches` reads of a change.
pub record Change : Type 0 where
  pub changed_keys : List String
  pub before : Fields
  pub after : Fields

-- The clauses of a predicate that `validate_predicate` has passed; an absent or null one is `none`.
pub record Clauses : Type 0 where
  pub changed : Option (List String)
  pub match_block : Option Fields
  pub was_block : Option Fields

abbrev pub touches : Option (List String) → List String → Bool
touches none keys = true
touches (some names) keys = some_of (contains keys) names

abbrev pub block_matches : Option Fields → Fields → Option Bool
block_matches none attrs = some true
block_matches (some block) attrs = all_match block attrs

names_of : Items → List String
names_of nil = []
names_of (cons (str name) xs) = name ∷ names_of xs
names_of (cons _ xs) = names_of xs

changed_of : Option Value → Option (List String)
changed_of (some (arr xs)) = some (names_of xs)
changed_of _ = none

block_of : Option Value → Option Fields
block_of (some (obj fs)) = some fs
block_of _ = none

-- `predicate.get` of the three clauses, of a predicate that has passed.
unfoldable pub clauses_of : Fields → Clauses
unfolding names_of changed_of block_of
clauses_of fs = record {
  changed = changed_of (get_field fs "changed");
  match_block = block_of (get_field fs "match");
  was_block = block_of (get_field fs "was");
}

unfoldable pub matches : Clauses → Change → Option Bool
matches p change =
    if touches p.changed change.changed_keys
    then and_then (block_matches p.match_block change.after)
        (block_matches p.was_block change.before)
    else some false
