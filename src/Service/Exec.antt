-- ===== src/Service/Exec.antt =====
-- Code that writes to the database and may raise. What was written before a raise stays written,
-- except inside `transaction.atomic()`, which takes it back.
use nutanix_hack.Prelude.{◌≡◌, refl, ap, Bool, true, false, String, if◌then◌else◌}

-- `ApprovalError`, by the place that raises it.
pub data ApprovalError : Type 0 where
  bad_decision : ApprovalError
  unknown_step not_requested already_approved not_waiting not_queued : String → ApprovalError

-- ApprovalError, the RuntimeError of `append_event`, DoesNotExist, IntegrityError, what a plugin
-- raises outside `_execute_step`, a TypeError, the
-- DataError of a text that is longer than its column, and NoTenantContext. `not_json` is no exception: it
-- stops where the code goes on with a dict that has no counterpart in JSON.
pub data Error : Type 0 where
  approval_error : ApprovalError → Error
  contention does_not_exist integrity_error plugin_error type_error data_error not_json
        no_tenant_context :
      Error

pub data Result {ℓ} (A : Type ℓ) : Type ℓ where
  ok : A → Result A
  err : Error → Result A

abbrev pub Exec {ℓ} : Type ℓ → Type ℓ → Type ℓ
Exec S A = S → Result A × S

module _ {ℓ} {S A : Type ℓ} where
  pub gets : (S → A) → Exec S A
  gets f s = (ok (f s), s)

  pub pure : A → Exec S A
  pure a s = (ok a, s)

  pub raise : Error → Exec S A
  raise e s = (err e, s)

  -- A query that answers and writes.
  pub query : (S → A × S) → Exec S A
  query f s = let (a, s') = f s in (ok a, s')

  abbrev commit_or_roll_back : S → Result A × S → Result A × S
  commit_or_roll_back s (ok a, s') = (ok a, s')
  commit_or_roll_back s (err e, s') = (err e, s)

  unfoldable pub atomic : Exec S A → Exec S A
  atomic m s = commit_or_roll_back s (m s)

module _ {ℓ} {S A B : Type ℓ} where
  abbrev pub «continue» : Result A × S → (A → Exec S B) → Result B × S
  «continue» (ok a, s) f = f a s
  «continue» (err e, s) f = (err e, s)

  infixl 10 ◌>>=◌ ◌>>◌
  -- opening this opens `pure`, `raise`, `gets` and `query` too
  unfoldable pub ◌>>=◌ : Exec S A → (A → Exec S B) → Exec S B
  unfolding pure raise gets query
  ◌>>=◌ m f s = «continue» (m s) f

  abbrev pub ◌>>◌ : Exec S A → Exec S B → Exec S B
  m >> n = m >>= λ _. n

-- `m` keeps `P`, whether it returns or raises.
pub record Keeps {ℓ κ} {S A : Type ℓ} (P : S → Type κ) (m : Exec S A) : Type (ℓ ⊔ κ) where
  pub at : (s : S) → P s → P (m s).1

module _ {ℓ κ} {S A : Type ℓ} where
  atomic_at :
      (Q : S → Type κ) (s : S) (r : Result A × S) → Q s → Q r.1 → Q (commit_or_roll_back s r).1
  atomic_at Q s (ok a, s') h h' = h'
  atomic_at Q s (err e, s') h h' = h

module _ {ℓ κ} {S A : Type ℓ} {P : S → Type κ} where
  pub Keeps-gets : (read : S → A) → Keeps P (gets read)
  unfolding gets
  Keeps-gets read = record { at = λ s before. before }

  pub Keeps-raise : (e : Error) → Keeps P (raise {A = A} e)
  unfolding raise
  Keeps-raise e = record { at = λ s before. before }

  pub Keeps-atomic : (m : Exec S A) → Keeps P m → Keeps P (atomic m)
  unfolding atomic
  Keeps-atomic m k = record { at = λ s h. atomic_at P s (m s) h (k.at s h) }

  pub Keeps-pure : (a : A) → Keeps P (pure a)
  unfolding pure
  Keeps-pure a = record { at = λ s before. before }

  pub Keeps-if :
      (test : Bool) (this that : Exec S A)
      → Keeps P this
      → Keeps P that
      → Keeps P (if test then this else that)
  Keeps-if true this that k l = k
  Keeps-if false this that k l = l

module _ {ℓ κ} {S A B : Type ℓ} {P : S → Type κ} where
  pub continue_at :
      (r : Result A × S) (f : A → Exec S B)
      → P r.1
      → ((a : A) → Keeps P (f a))
      → P («continue» r f).1
  continue_at (ok a, s) f h k = (k a).at s h
  continue_at (err e, s) f h k = h

  pub Keeps-bind :
      (first : Exec S A) (rest : A → Exec S B)
      → Keeps P first
      → ((a : A) → Keeps P (rest a))
      → Keeps P (first >>= rest)
  unfolding ◌>>=◌
  Keeps-bind first rest k l = record { at = λ s h. continue_at (first s) rest (k.at s h) l }

pub ruleset keeps_rules = (Keeps-bind, Keeps-if, Keeps-atomic, Keeps-gets, Keeps-raise, Keeps-pure)

-- Where `m` returns, `Q` relates its answer and what it leaves.
pub record Ensures {ℓ κ} {S A : Type ℓ} (Q : A → S → Type κ) (m : Exec S A) : Type (ℓ ⊔ κ) where
  pub at : (s s' : S) (a : A) → m s ≡ (ok a, s') → Q a s'

module _ {ℓ κ} {S A B : Type ℓ} {Q : B → S → Type κ} where
  continue_ensures :
      (r : Result A × S) (f : A → Exec S B) (s' : S) (b : B)
      → ((a : A) → Ensures Q (f a))
      → «continue» r f ≡ (ok b, s')
      → Q b s'
  continue_ensures (ok a, s) f s' b k h = (k a).at s s' b h
  continue_ensures (err e, s) f s' b k h = cc (ap (λ (r : Result B × S). r.0) h)

  -- What the rest ensures, the whole ensures.
  pub Ensures-bind :
      (m : Exec S A) (f : A → Exec S B) → ((a : A) → Ensures Q (f a)) → Ensures Q (m >>= f)
  unfolding ◌>>=◌
  Ensures-bind m f k = record { at = λ s s' b h. continue_ensures (m s) f s' b k h }

rolled_back {ℓ} :
    {S A : Type ℓ} (s : S) (r : Result A × S) (e : Error)
    → (commit_or_roll_back s r).0 ≡ err e
    → (commit_or_roll_back s r).1 ≡ s
rolled_back s (ok a, s') e h = cc
rolled_back s (err e', s') e h = refl

-- A block that raises inside `transaction.atomic()` has written nothing.
pub atomic_rolls_back {ℓ} :
    {S A : Type ℓ} (m : Exec S A) (s : S) (e : Error) → (atomic m s).0 ≡ err e → (atomic m s).1 ≡ s
unfolding atomic
atomic_rolls_back m s e h = rolled_back s (m s) e h

committed {ℓ} :
    {S A : Type ℓ} (s s' : S) (r : Result A × S) (a : A)
    → commit_or_roll_back s r ≡ (ok a, s')
    → r ≡ (ok a, s')
committed s s' (ok b, t) a h = h
committed s s' (err e, t) a h = cc (ap (λ (r : Result _ × _). r.0) h)

-- A transaction that returns has written what its block wrote.
pub atomic_ok {ℓ} :
    {S A : Type ℓ} (m : Exec S A) (s s' : S) (a : A) → atomic m s ≡ (ok a, s') → m s ≡ (ok a, s')
unfolding atomic
atomic_ok m s s' a h = committed s s' (m s) a h

-- Where a bind returns, so did its first part.
pub record Halves {ℓ} {S A B : Type ℓ} (m : Exec S A) (f : A → Exec S B) (s s' : S) (b : B)
    : Type ℓ where
  pub middle : S
  pub answer : A
  pub first : m s ≡ (ok answer, middle)
  pub rest : f answer middle ≡ (ok b, s')

halves {ℓ} :
    {S A B : Type ℓ} (m : Exec S A) (f : A → Exec S B) (s s' : S) (b : B) (r : Result A × S)
    → m s ≡ r
    → «continue» r f ≡ (ok b, s')
    → Halves m f s s' b
halves m f s s' b (ok a, t) e h = record { middle = t; answer = a; first = e; rest = h }
halves m f s s' b (err x, t) e h = cc (ap (λ (r : Result _ × _). r.0) h)

pub bind_ok {ℓ} :
    {S A B : Type ℓ} (m : Exec S A) (f : A → Exec S B) (s s' : S) (b : B)
    → (m >>= f) s ≡ (ok b, s')
    → Halves m f s s' b
unfolding ◌>>=◌
bind_ok m f s s' b h = halves m f s s' b (m s) refl h
