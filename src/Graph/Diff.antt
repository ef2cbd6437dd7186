-- ===== src/Graph/Diff.antt =====
-- `_diff` of graph/service.py, and the merge of attributes.
use nutanix_hack.Prelude.{
  ◌≡◌, refl, ap, Bool, false, not, ◌||◌, String, Option, none, some, List, [], ◌∷◌, ◌++◌, arith,
  contains, contains-append, str_eq, eq_iff, if◌then◌else◌, Bool-cases, inl, inr,
}
use nutanix_hack.Prelude.Texts.{text_lt}
use nutanix_hack.Json.{Value, Fields, null, end, field, get_field, set_field}
use nutanix_hack.Predicates.Values.{same_value}

-- `{**before, **attrs}`
unfoldable pub merge : Fields → Fields → Fields
merge before end = before
merge before (field k v attrs) = merge (set_field before k v) attrs

unfoldable pub keys_of : Fields → List String
keys_of end = []
keys_of (field k v fs) = k ∷ keys_of fs

insert_key : String → List String → List String
insert_key k [] = k ∷ []
insert_key k (j ∷ ks) =
    let later = j ∷ insert_key k ks in
    if str_eq j k then j ∷ ks else if text_lt k j then k ∷ j ∷ ks else later

-- `sorted` of a set of texts.
unfoldable pub sorted_set : List String → List String
unfolding insert_key
sorted_set [] = []
sorted_set (k ∷ ks) = insert_key k (sorted_set ks)

abbrev or_null : Option Value → Value
or_null none = null
or_null (some v) = v

unfoldable pub differs : Fields → Fields → String → Bool
differs before after k =
    not (same_value (or_null (get_field before k)) (or_null (get_field after k)))

unfoldable pub keep_keys : (String → Bool) → List String → List String
keep_keys p [] = []
keep_keys p (k ∷ ks) = let rest = keep_keys p ks in if p k then k ∷ rest else rest

unfoldable pub diff : Fields → Fields → List String
diff before after = sorted_set (keep_keys (differs before after) (keys_of before ++ keys_of after))

contains-insert_key :
    (k : String) (ks : List String) (j : String)
    → contains (insert_key k ks) j ≡ (str_eq k j || contains ks j)
unfolding insert_key
contains-insert_key k [] j = ground arith
contains-insert_key k (i ∷ ks) j =
    ground (arith, contains-insert_key k ks j, eq_iff i k, eq_iff k j, eq_iff i j)

contains-sorted_set : (ks : List String) (j : String) → contains (sorted_set ks) j ≡ contains ks j
unfolding sorted_set
contains-sorted_set [] j = refl
contains-sorted_set (k ∷ ks) j =
    ground (arith, contains-insert_key k (sorted_set ks) j, contains-sorted_set ks j)

contains-keep_keys :
    (p : String → Bool) (ks : List String) (j : String)
    → contains (keep_keys p ks) j ≡ (if p j then contains ks j else false)
unfolding keep_keys
contains-keep_keys p [] j = ground arith
contains-keep_keys p (k ∷ ks) j = elim (Bool-cases (str_eq k j)) [
  | inl e ↦ ground (arith, ap p ((eq_iff k j).0 e), contains-keep_keys p ks j)
  | inr e ↦ ground (arith, contains-keep_keys p ks j)
]

absent_key : (fs : Fields) (k : String) → contains (keys_of fs) k ≡ false → get_field fs k ≡ none
unfolding keys_of get_field
absent_key end k h = refl
absent_key (field j v fs) k h = ground (arith, absent_key fs k)

only_present :
    (before after : Fields) (k : String)
    → (if differs before after k
        then contains (keys_of before) k || contains (keys_of after) k
        else false)
      ≡ differs before after k
unfolding differs same_value
only_present before after k = ground (arith, absent_key before k, absent_key after k)

-- A name is among the changed keys exactly if the values under it, None where it is absent, are not
-- equal before and after.
pub contains-diff :
    (before after : Fields) (k : String) → contains (diff before after) k ≡ differs before after k
unfolding diff
contains-diff before after k =
    rw
      (
        contains-sorted_set (keep_keys (differs before after) (keys_of before ++ keys_of after)) k,
        contains-keep_keys (differs before after) (keys_of before ++ keys_of after) k,
        contains-append (keys_of before) (keys_of after) k,
      )
      (only_present before after k)
