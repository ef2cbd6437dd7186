-- ===== src/Service/Returns.antt =====
-- Code that returns: what it answers and leaves, where no part of it raises.
use nutanix_hack.Prelude.{◌≡◌, refl, Bool, true, false, if◌then◌else◌}
use nutanix_hack.Service.Exec.{Exec, Result, ok, pure, atomic, ◌>>=◌}

-- A result that is no exception, of which `Q` holds.
pub record Returns {ℓ κ} {S A : Type ℓ} (Q : A → S → Type κ) (r : Result A × S) : Type (ℓ ⊔ κ) where
  pub answer : A
  pub left : S
  pub returned : r ≡ (ok answer, left)
  pub holds : Q answer left

-- From any state of which `P` holds, `m` returns and `P` still holds.
pub record Completes {ℓ κ} {S A : Type ℓ} (P : S → Type κ) (m : Exec S A) : Type (ℓ ⊔ κ) where
  pub at : (s : S) → P s → Returns (λ a s'. P s') (m s)

module _ {ℓ κ} {S A B : Type ℓ} {Q : A → S → Type κ} {R : B → S → Type κ} where
  pub Returns-bind :
      (m : Exec S A) (f : A → Exec S B) (s : S)
      → Returns Q (m s)
      → ((a : A) (s' : S) → Q a s' → Returns R (f a s'))
      → Returns R ((m >>= f) s)
  unfolding ◌>>=◌
  Returns-bind m f s h k = rw h.returned (k h.answer h.left h.holds)

module _ {ℓ κ} {S A : Type ℓ} {Q R : A → S → Type κ} where
  pub Returns-weaken :
      (r : Result A × S) → Returns Q r → ((a : A) (s : S) → Q a s → R a s) → Returns R r
  Returns-weaken r h k = record {
    answer = h.answer;
    left = h.left;
    returned = h.returned;
    holds = k h.answer h.left h.holds;
  }

module _ {ℓ κ} {S A : Type ℓ} {Q : A → S → Type κ} where
  pub Returns-pure : (a : A) (s : S) → Q a s → Returns Q (pure a s)
  unfolding ◌>>=◌
  Returns-pure a s h = record { answer = a; left = s; returned = refl; holds = h }

module _ {ℓ κ} {S A : Type ℓ} {Q : A → S → Type κ} where
  pub Returns-atomic : (m : Exec S A) (s : S) → Returns Q (m s) → Returns Q (atomic m s)
  unfolding atomic
  Returns-atomic m s h = record {
    answer = h.answer;
    left = h.left;
    returned = rw h.returned refl;
    holds = h.holds;
  }

module _ {ℓ κ} {S A : Type ℓ} {P : S → Type κ} where
  pub Completes-pure : (a : A) → Completes P (pure a)
  Completes-pure a = record { at = λ s h. Returns-pure a s h }

  pub Completes-if :
      (test : Bool) (this that : Exec S A)
      → Completes P this
      → Completes P that
      → Completes P (if test then this else that)
  Completes-if true this that k l = k
  Completes-if false this that k l = l

module _ {ℓ κ} {S A B : Type ℓ} {P : S → Type κ} where
  pub Completes-bind :
      (m : Exec S A) (f : A → Exec S B)
      → Completes P m
      → ((a : A) → Completes P (f a))
      → Completes P (m >>= f)
  Completes-bind m f k l = record {
    at = λ s h. Returns-bind m f s (k.at s h) (λ a s' p. (l a).at s' p);
  }

pub ruleset completes_rules = (Completes-bind, Completes-if, Completes-pure)
