-- ===== src/Predicates/Raising.antt =====
-- About the exceptions of `matches` in graph/predicates.py.
use nutanix_hack.Prelude.{
  ◌≡◌, ◌≢◌, refl, Bool, true, false, not, ◌&&◌, ◌||◌, String, Option, none, some, str_eq,
  if◌then◌else◌, &&-eq-true,
}
use nutanix_hack.Prelude.Int.{ℤ}
use nutanix_hack.Json.{Value, Fields, null, bool, num, str, arr, obj, end, field, get_field}
use nutanix_hack.Predicates.Values.{is_in, same_value}
use nutanix_hack.Predicates.{
  Clauses, Change, validate_predicate, known_clauses, check_clause, check_block, check_expected,
  check_changed, compare_by, compare_value, all_match, matches, clauses_of, and_then, touches,
  block_matches, negate, compare_safely,
}

abbrev is_list : Value → Bool
is_list (arr xs) = true
is_list _ = false

-- An operand of `in` or `not_in` is a list, and there is one operator.
abbrev pub safe_expected : Value → Bool
safe_expected (obj (field op v end)) =
    if str_eq op "in" || str_eq op "not_in" then is_list v else true
safe_expected (obj _) = false
safe_expected _ = true

abbrev pub safe_block : Fields → Bool
safe_block end = true
safe_block (field attr expected fs) = safe_expected expected && safe_block fs

abbrev pub safe_clause : Option Fields → Bool
safe_clause none = true
safe_clause (some block) = safe_block block

is_in-list : (x v : Value) → is_list v ≡ true → is_in x v ≢ none
unfolding is_in
is_in-list x (arr xs) h e = cc
is_in-list x null h e = cc
is_in-list x (bool b) h e = cc
is_in-list x (num n) h e = cc
is_in-list x (str s) h e = cc
is_in-list x (obj fs) h e = cc

negate_answers : (o : Option Bool) → o ≢ none → negate o ≢ none
negate_answers none h = h
negate_answers (some b) h = λ e. cc e

-- The chain of tests in `compare_by`, of any tests.
chain_answers :
    (eq ne in_ not_in_ listed : Bool) (a b c : Bool) (x y : Option Bool)
    → (if in_ || not_in_ then listed else true) ≡ true
    → (listed ≡ true → x ≢ none)
    → (listed ≡ true → y ≢ none)
    → (if eq
        then some a
        else if ne
        then some b
        else if in_
        then x
        else if not_in_
        then y
        else some c)
      ≢ none
chain_answers true ne in_ not_in_ listed a b c x y h f g = λ e. cc e
chain_answers false true in_ not_in_ listed a b c x y h f g = λ e. cc e
chain_answers false false true not_in_ listed a b c x y h f g = f h
chain_answers false false false true listed a b c x y h f g = g h
chain_answers false false false false listed a b c x y h f g = λ e. cc e

compare_by_answers :
    (op : String) (actual value : Value)
    → (if str_eq op "in" || str_eq op "not_in" then is_list value else true) ≡ true
    → compare_by op actual value ≢ none
unfolding compare_by
compare_by_answers op actual value h =
    chain_answers (str_eq op "eq") (str_eq op "ne") (str_eq op "in") (str_eq op "not_in")
      (is_list value) (same_value actual value) (not (same_value actual value))
      (compare_safely op actual value) (is_in actual value) (negate (is_in actual value)) h
      (is_in-list actual value)
      (λ listed. negate_answers (is_in actual value) (is_in-list actual value listed))

compare_value_answers :
    (actual expected : Value) → safe_expected expected ≡ true → compare_value actual expected ≢ none
unfolding compare_value
compare_value_answers actual (obj end) h = cc h
compare_value_answers actual (obj (field op value end)) h = compare_by_answers op actual value h
compare_value_answers actual (obj (field op value (field k v fs))) h = cc h
compare_value_answers actual null h = λ e. cc e
compare_value_answers actual (bool b) h = λ e. cc e
compare_value_answers actual (num n) h = λ e. cc e
compare_value_answers actual (str s) h = λ e. cc e
compare_value_answers actual (arr xs) h = λ e. cc e

and_then_answers : (a b : Option Bool) → a ≢ none → b ≢ none → and_then a b ≢ none
and_then_answers none b h k = h
and_then_answers (some true) b h k = k
and_then_answers (some false) b h k = λ e. cc e

all_match_answers : (block attrs : Fields) → safe_block block ≡ true → all_match block attrs ≢ none
unfolding all_match
all_match_answers end attrs h = λ e. cc e
all_match_answers (field attr expected block) attrs h =
    let (one, rest) = &&-eq-true (safe_expected expected) (safe_block block) h in
    and_then_answers _ _ (compare_value_answers _ expected one) (all_match_answers block attrs rest)

block_answers :
    (block : Option Fields) (attrs : Fields)
    → safe_clause block ≡ true
    → block_matches block attrs ≢ none
block_answers none attrs h = λ e. cc e
block_answers (some block) attrs h = all_match_answers block attrs h

-- If each operator object of the match and was clauses has one operator, and each operand of in and
-- not_in is a list, matching any change raises nothing.
pub matches_answers :
    (p : Clauses) (change : Change)
    → safe_clause p.match_block ≡ true
    → safe_clause p.was_block ≡ true
    → matches p change ≢ none
unfolding matches
matches_answers p change m w = choice (touches p.changed change.changed_keys) _ (
    and_then_answers _ _ (block_answers p.match_block change.after m)
      (block_answers p.was_block change.before w))
  where
    choice : (b : Bool) (o : Option Bool) → o ≢ none → (if b then o else some false) ≢ none
    choice true o h = h
    choice false o h = λ e. cc e

-- `{"match": {attr: {"in": n}}}`, for a number n.
abbrev pub in_number : String → ℤ → Fields
in_number attr n = field "match" (obj (field attr (obj (field "in" (num n) end)) end)) end

-- A predicate whose match clause asks an attribute to be in a number passes validate_predicate, and
-- matching it against any change raises.
pub in_number_raises :
    (attr : String) (n : ℤ) (change : Change)
    → (validate_predicate (obj (in_number attr n)) ≡ none)
      × (matches (clauses_of (in_number attr n)) change ≡ none)
unfolding validate_predicate known_clauses check_clause check_block check_expected check_changed
    clauses_of matches all_match compare_value compare_by is_in get_field
in_number_raises attr n change = (refl, refl)
