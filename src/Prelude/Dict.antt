-- ===== src/Prelude/Dict.antt =====
-- Python's `dict` with text keys, in insertion order.
use Prim.Native.String.{String}
use mathlib.Core.Path.{◌≡◌, refl}
use mathlib.Core.Option.{Option, none, some}
use mathlib.Core.List.{List, [], ◌∷◌}
use native.Mathlib.Omega.{arith}
use text.Mathlib.Text.{◌==◌ as str_eq}
use text.Mathlib.TextEquality.{eq_iff}
use text.Mathlib.TextPositions.{eq_refl}
use nutanix_hack.Prelude.Tests.{if◌then◌else◌}

abbrev pub Dict {ℓ} : Type ℓ → Type ℓ
Dict V = List (String × V)

module _ {ℓ} {V : Type ℓ} where
  unfoldable pub get : Dict V → String → Option V
  get [] k = none
  get ((j, v) ∷ d) k = if str_eq j k then some v else get d k

  -- `d[k] = v`: a key that is there keeps its place, a new one goes to the end.
  unfoldable pub set : Dict V → String → V → Dict V
  set [] k v = (k, v) ∷ []
  set ((j, w) ∷ d) k v = if str_eq j k then (j, v) ∷ d else (j, w) ∷ set d k v

  -- `d.pop(k, None)`, without its answer
  unfoldable pub pop : Dict V → String → Dict V
  pop [] k = []
  pop ((j, v) ∷ d) k = let rest = pop d k in if str_eq j k then rest else (j, v) ∷ rest

  pub get-set :
      (d : Dict V) (k j : String) (v : V)
      → get (set d k v) j ≡ (if str_eq k j then some v else get d j)
  unfolding get set
  get-set [] k j v = refl
  get-set ((i, w) ∷ d) k j v = ground (arith, eq_iff k j, eq_iff i k, eq_iff i j, get-set d k j v)

  pub set-set : (d : Dict V) (k : String) (v w : V) → set (set d k v) k w ≡ set d k w
  unfolding set
  set-set [] k v w = rw (eq_refl k) refl
  set-set ((j, u) ∷ d) k v w = ground (arith, eq_iff j k, eq_refl k, set-set d k v w)

  pub set-get : (d : Dict V) (k : String) (v : V) → get d k ≡ some v → set d k v ≡ d
  unfolding get set
  set-get [] k v h = cc
  set-get ((j, u) ∷ d) k v h = ground (arith, eq_iff j k, set-get d k v)

  pub get-pop :
      (d : Dict V) (k j : String) → get (pop d k) j ≡ (if str_eq k j then none else get d j)
  unfolding get pop
  get-pop [] k j = ground arith
  get-pop ((i, w) ∷ d) k j = ground (arith, eq_iff k j, eq_iff i k, eq_iff i j, get-pop d k j)

  pub pop-pop : (d : Dict V) (k : String) → pop (pop d k) k ≡ pop d k
  unfolding pop
  pop-pop [] k = refl
  pop-pop ((j, u) ∷ d) k = ground (arith, pop-pop d k)
