-- ===== src/Predicates/Values.antt =====
-- Python's `==`, `in` and `<` on the values that JSON gives. `none` is a TypeError.
use Prim.Native.String.{compare, [], ◌∷◌}
use text.Mathlib.Text.{starts_with, is_lt}
use nutanix_hack.Prelude.{
  ℕ, suc, Bool, true, false, not, ◌&&◌, ◌||◌, String, Option, none, some, ◌==◌, str_eq,
  if◌then◌else◌,
}
use nutanix_hack.Prelude.Int.{ℤ, pos, pos_part, neg_part, ltb_ℤ}
use nutanix_hack.Json.{
  Value, Items, Fields, null, bool, num, str, arr, obj, nil, cons, end, field, get_field,
}

-- `bool` is a kind of `int`: True is 1 and False is 0.
abbrev pub number : Bool → ℤ
number b = if b then pos 1 else pos 0

abbrev same_number : ℤ → ℤ → Bool
same_number a b = (pos_part a == pos_part b) && (neg_part a == neg_part b)

abbrev size : Fields → ℕ
size end = 0
size (field k v fs) = suc (size fs)

-- `==`: an object is equal to one with as many keys that has an equal value at each of its own.
unfoldable mutual
  pub same_value : Value → Value → Bool
  same_value null null = true
  same_value (bool a) (bool b) = same_number (number a) (number b)
  same_value (bool a) (num b) = same_number (number a) b
  same_value (num a) (bool b) = same_number a (number b)
  same_value (num a) (num b) = same_number a b
  same_value (str a) (str b) = str_eq a b
  same_value (arr xs) (arr ys) = same_items xs ys
  same_value (obj fs) (obj gs) = (size fs == size gs) && each_in fs gs
  same_value _ _ = false

  pub same_items : Items → Items → Bool
  same_items nil nil = true
  same_items (cons x xs) (cons y ys) = same_value x y && same_items xs ys
  same_items _ _ = false

  pub each_in : Fields → Fields → Bool
  each_in end gs = true
  each_in (field k v fs) gs =
      elim (get_field gs k) [ none ↦ false | some w ↦ same_value v w ] && each_in fs gs

-- `x in xs`
unfoldable pub member : Value → Items → Bool
member x nil = false
member x (cons y ys) = same_value x y || member x ys

abbrev has_field : String → Fields → Bool
has_field k end = false
has_field k (field j v fs) = str_eq j k || has_field k fs

-- `part in text`
unfoldable pub is_part : String → String → Bool
is_part part [] = starts_with [] part
is_part part (c ∷ text) = starts_with (c ∷ text) part || is_part part text

-- `x in container`: a list or an object cannot be looked up in an object, nor anything but a text in
-- a text.
unfoldable pub is_in : Value → Value → Option Bool
is_in x (arr xs) = some (member x xs)
is_in (str part) (str text) = some (is_part part text)
is_in (str k) (obj fs) = some (has_field k fs)
is_in (arr xs) (obj fs) = none
is_in (obj gs) (obj fs) = none
is_in x (obj fs) = some false
is_in x _ = none

pub data Comparison : Type 0 where
  gt gte lt lte : Comparison

abbrev by_numbers : Comparison → ℤ → ℤ → Bool
by_numbers gt a b = ltb_ℤ b a
by_numbers gte a b = not (ltb_ℤ a b)
by_numbers lt a b = ltb_ℤ a b
by_numbers lte a b = not (ltb_ℤ b a)

abbrev by_texts : Comparison → String → String → Bool
by_texts gt a b = is_lt (compare b a)
by_texts gte a b = not (is_lt (compare a b))
by_texts lt a b = is_lt (compare a b)
by_texts lte a b = not (is_lt (compare b a))

-- Of two lists, one of which begins the other: whether the left is longer, or the right.
abbrev by_lengths : Comparison → Bool → Bool → Bool
by_lengths gt left right = left
by_lengths gte left right = not right
by_lengths lt left right = right
by_lengths lte left right = not left

-- Lists are compared at the first place where they differ.
unfoldable mutual
  pub is_ordered : Comparison → Value → Value → Option Bool
  is_ordered op (bool a) (bool b) = some (by_numbers op (number a) (number b))
  is_ordered op (bool a) (num b) = some (by_numbers op (number a) b)
  is_ordered op (num a) (bool b) = some (by_numbers op a (number b))
  is_ordered op (num a) (num b) = some (by_numbers op a b)
  is_ordered op (str a) (str b) = some (by_texts op a b)
  is_ordered op (arr xs) (arr ys) = items_ordered op xs ys
  is_ordered op _ _ = none

  items_ordered : Comparison → Items → Items → Option Bool
  items_ordered op nil nil = some (by_lengths op false false)
  items_ordered op (cons x xs) nil = some (by_lengths op true false)
  items_ordered op nil (cons y ys) = some (by_lengths op false true)
  items_ordered op (cons x xs) (cons y ys) =
      let rest = items_ordered op xs ys in
      let here = is_ordered op x y in if same_value x y then rest else here
