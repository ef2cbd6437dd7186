-- ===== src/Graph/Proper.antt =====
-- Values as Python holds them, with no key twice in an object: each is equal to itself, and a merge
-- that has been made changes nothing when it is made again.
use nutanix_hack.Prelude.{
  ◌≡◌, refl, ◌∙◌, subst, ℕ, Bool, true, false, ◌&&◌, String, none, some, List, [], ◌∷◌, ◌++◌, arith,
  str_eq, eq_iff, eq_refl, ◌==◌, if◌then◌else◌, Bool-cases, Option-cases, inl, inr,
}
use nutanix_hack.Prelude.Int.{ℤ, pos_part, neg_part}
use nutanix_hack.Json.{
  Value, Items, Fields, null, bool, num, str, arr, obj, nil, cons, end, field, get_field, set_field,
}
use nutanix_hack.Predicates.Values.{same_value, same_items, each_in, number}
use nutanix_hack.Graph.Diff.{merge, keys_of, differs, diff, keep_keys, sorted_set}

-- No object in a value has a key twice, as in a Python dict.
unfoldable mutual
  pub IsProper : Value → Type 0
  IsProper (obj fs) = AreProper fs
  IsProper (arr xs) = ItemsAreProper xs
  IsProper _ = Unit {0}

  pub ItemsAreProper : Items → Type 0
  ItemsAreProper nil = Unit {0}
  ItemsAreProper (cons x xs) = IsProper x × ItemsAreProper xs

  pub AreProper : Fields → Type 0
  AreProper end = Unit {0}
  AreProper (field k v fs) = (get_field fs k ≡ none) × IsProper v × AreProper fs

-- Each field of the first is in the second.
abbrev pub Part : Fields → Fields → Type 0
Part end gs = Unit {0}
Part (field k v fs) gs = (get_field gs k ≡ some v) × Part fs gs

Part-field :
    (fs gs : Fields) (k : String) (v : Value)
    → get_field fs k ≡ none
    → Part fs gs
    → Part fs (field k v gs)
unfolding get_field
Part-field end gs k v h p = tt
Part-field (field j w fs) gs k v h p = elim (Bool-cases (str_eq j k)) [
  | inl e ↦ absurd (cc (rw e at h))
  | inr e ↦ (ground (arith, eq_iff k j, eq_iff j k, p.0), Part-field fs gs k v (rw e at h) p.1)
]

pub Part-self : (fs : Fields) → AreProper fs → Part fs fs
unfolding get_field AreProper
Part-self end h = tt
Part-self (field k v fs) h = (rw (eq_refl k) refl, Part-field fs fs k v h.0 (Part-self fs h.2))

==_refl : (n : ℕ) → (n == n) ≡ true
==_refl n = ground arith

same_number_refl : (a : ℤ) → ((pos_part a == pos_part a) && (neg_part a == neg_part a)) ≡ true
same_number_refl a = rw (==_refl (pos_part a), ==_refl (neg_part a)) refl

mutual
  unfolding same_value IsProper

  pub same_value_refl : (v : Value) → IsProper v → same_value v v ≡ true
  same_value_refl null h = refl
  same_value_refl (bool b) h = same_number_refl (number b)
  same_value_refl (num n) h = same_number_refl n
  same_value_refl (str s) h = eq_refl s
  same_value_refl (arr xs) h = same_items_refl xs h
  same_value_refl (obj fs) h = rw (==_refl _, each_in-Part fs fs h (Part-self fs h)) refl

  same_items_refl : (xs : Items) → ItemsAreProper xs → same_items xs xs ≡ true
  same_items_refl nil h = refl
  same_items_refl (cons x xs) h = rw (same_value_refl x h.0, same_items_refl xs h.1) refl

  each_in-Part : (fs gs : Fields) → AreProper fs → Part fs gs → each_in fs gs ≡ true
  each_in-Part end gs h p = refl
  each_in-Part (field k v fs) gs h p =
      rw (p.0, same_value_refl v h.1, each_in-Part fs gs h.2 p.1) refl

pub get_field-IsProper :
    (fs : Fields) (k : String) (v : Value) → AreProper fs → get_field fs k ≡ some v → IsProper v
unfolding get_field AreProper
get_field-IsProper end k v h e = cc e
get_field-IsProper (field j w fs) k v h e = elim (Bool-cases (str_eq j k)) [
  | inl s ↦ let same : w ≡ v = cc (rw s at e) in subst IsProper same h.1
  | inr s ↦ get_field-IsProper fs k v h.2 (rw s at e)
]

not_different : (fs : Fields) (k : String) → AreProper fs → differs fs fs k ≡ false
unfolding differs same_value
not_different fs k h = elim (Option-cases (get_field fs k)) [
  | inl e ↦ rw e refl
  | inr (v, e) ↦ rw (e, same_value_refl v (get_field-IsProper fs k v h e)) refl
]

none_kept :
    (p : String → Bool) (ks : List String) → ((k : String) → p k ≡ false) → keep_keys p ks ≡ []
unfolding keep_keys
none_kept p [] h = refl
none_kept p (k ∷ ks) h = rw (h k, none_kept p ks h) refl

-- Attributes do not differ from themselves.
pub diff_self : (fs : Fields) → AreProper fs → diff fs fs ≡ []
unfolding diff sorted_set
diff_self fs h =
    rw (none_kept (differs fs fs) (keys_of fs ++ keys_of fs) (λ k. not_different fs k h)) refl

set_field-same :
    (fs : Fields) (k : String) (v : Value) → get_field fs k ≡ some v → set_field fs k v ≡ fs
unfolding get_field set_field
set_field-same end k v h = cc h
set_field-same (field j w fs) k v h = ground (arith, set_field-same fs k v)

pub merge-Part : (before attrs : Fields) → Part attrs before → merge before attrs ≡ before
unfolding merge
merge-Part before end p = refl
merge-Part before (field k v attrs) p =
    rw (set_field-same before k v p.0) (merge-Part before attrs p.1)

pub get_field-set_field :
    (fs : Fields) (k j : String) (v : Value)
    → get_field (set_field fs k v) j ≡ (if str_eq k j then some v else get_field fs j)
unfolding get_field set_field
get_field-set_field end k j v = refl
get_field-set_field (field i w fs) k j v =
    ground (arith, eq_iff k j, eq_iff i k, eq_iff i j, get_field-set_field fs k j v)

get_field-merge :
    (before attrs : Fields) (k : String)
    → get_field attrs k ≡ none
    → get_field (merge before attrs) k ≡ get_field before k
unfolding merge get_field
get_field-merge before end k h = refl
get_field-merge before (field j v attrs) k h = elim (Bool-cases (str_eq j k)) [
  | inl s ↦ absurd (cc (rw s at h))
  | inr s ↦
      get_field-merge (set_field before j v) attrs k (rw s at h)
      ∙ rw (get_field-set_field before j k v, s) refl
]

-- A merge holds the attributes that were merged into it.
pub Part-merge : (before attrs : Fields) → AreProper attrs → Part attrs (merge before attrs)
unfolding merge AreProper
Part-merge before end h = tt
Part-merge before (field k v attrs) h = (
  get_field-merge (set_field before k v) attrs k h.0
      ∙ rw (get_field-set_field before k k v, eq_refl k) refl,
  Part-merge (set_field before k v) attrs h.2,
)

set_field-AreProper :
    (fs : Fields) (k : String) (v : Value)
    → AreProper fs
    → IsProper v
    → AreProper (set_field fs k v)
unfolding set_field AreProper get_field
set_field-AreProper end k v h p = (refl, p, tt)
set_field-AreProper (field j w fs) k v h p = elim (Bool-cases (str_eq j k)) [
  | inl s ↦ rw s (h.0, p, h.2)
  | inr s ↦ rw s (
    rw (get_field-set_field fs k j v) (ground (arith, eq_iff k j, eq_iff j k, h.0)),
    h.1,
    set_field-AreProper fs k v h.2 p,
  )
]

pub merge-AreProper :
    (before attrs : Fields) → AreProper before → AreProper attrs → AreProper (merge before attrs)
unfolding merge AreProper
merge-AreProper before end h k = h
merge-AreProper before (field j v attrs) h k =
    merge-AreProper (set_field before j v) attrs (set_field-AreProper before j v h k.1) k.2
