-- ===== src/Prelude/Lists.antt =====
-- Lists and options: native lengths, predicates by recursion, and membership of texts as a test.
use Prim.Native.Nat.{ℕ, suc, ◌+◌}
use Prim.Native.String.{String}
use mathlib.Core.Path.{◌≡◌, refl, ◌∙◌}
use mathlib.Core.Bool.{Bool, true, false, ◌&&◌, ◌||◌}
use mathlib.Core.Option.{Option, none, some}
use mathlib.Core.List.{List, [], ◌∷◌, ◌++◌, reverse, reverse-cons}
use native.Mathlib.Omega.{arith}
use text.Mathlib.Text.{◌==◌ as str_eq}
use text.Mathlib.TextEquality.{eq_iff}
use nutanix_hack.Prelude.Tests.{if◌then◌else◌}

-- `d or x` for a value that may be absent
abbrev pub or_else {ℓ} : {A : Type ℓ} → Option A → A → A
or_else none d = d
or_else (some a) d = a

module _ {ℓ} {A : Type ℓ} where
  abbrev pub length : List A → ℕ
  length [] = 0
  length (x ∷ xs) = suc (length xs)

  pub length-append : (xs ys : List A) → length (xs ++ ys) ≡ length xs + length ys
  length-append [] ys = omega arith
  length-append (x ∷ xs) ys = omega (arith, length-append xs ys)

  abbrev pub is_empty : List A → Bool
  is_empty [] = true
  is_empty (x ∷ xs) = false

-- Python's `all(p(x) for x in xs)` and `any`.
abbrev pub every {ℓ} : {A : Type ℓ} → (A → Bool) → List A → Bool
every p [] = true
every p (x ∷ xs) = p x && every p xs

abbrev pub some_of {ℓ} : {A : Type ℓ} → (A → Bool) → List A → Bool
some_of p [] = false
some_of p (x ∷ xs) = p x || some_of p xs

-- A predicate that holds of each element.
abbrev pub All {ℓ κ} : {A : Type ℓ} → (A → Type κ) → List A → Type κ
All P [] = Unit
All P (x ∷ xs) = P x × All P xs

-- `k in xs` for a list of texts
abbrev pub contains : List String → String → Bool
contains [] k = false
contains (x ∷ xs) k = if str_eq x k then true else contains xs k

-- No text twice.
abbrev pub Distinct : List String → Type 0
Distinct [] = Unit {0}
Distinct (x ∷ xs) = (contains xs x ≡ false) × Distinct xs

pub contains-append :
    (xs ys : List String) (k : String) → contains (xs ++ ys) k ≡ (contains xs k || contains ys k)
contains-append [] ys k = refl
contains-append (x ∷ xs) ys k = ground (arith, contains-append xs ys k)

pub append-Distinct :
    (xs : List String) (k : String) → Distinct xs → contains xs k ≡ false → Distinct (xs ++ k ∷ [])
append-Distinct [] k d h = (refl, tt)
append-Distinct (x ∷ xs) k d h =
    ground (arith, contains-append xs (k ∷ []) x, append-Distinct xs k d.1, eq_iff x k, eq_iff k x)

pub contains-reverse : (xs : List String) (k : String) → contains (reverse xs) k ≡ contains xs k
contains-reverse [] k = refl
contains-reverse (x ∷ xs) k =
    rw (reverse-cons x xs)
      (ground (arith, contains-append (reverse xs) (x ∷ []) k, contains-reverse xs k))

pub reverse-Distinct : (xs : List String) → Distinct xs → Distinct (reverse xs)
reverse-Distinct [] d = tt
reverse-Distinct (x ∷ xs) d =
    rw (reverse-cons x xs)
      (append-Distinct (reverse xs) x (reverse-Distinct xs d.1) (contains-reverse xs x ∙ d.0))
