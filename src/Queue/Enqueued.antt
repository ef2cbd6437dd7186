-- ===== src/Queue/Enqueued.antt =====
-- The table's invariant and a new row: `enqueue_step` of engine/service.py.
use nutanix_hack.Prelude.{
  ℕ, suc, ◌≡◌, refl, true, false, String, none, List, [], ◌∷◌, ◌++◌, arith, eq_iff, str_eq, All,
  if◌then◌else◌, Bool-cases, inl, inr,
}
use nutanix_hack.Queue.{Task, TaskKind, Env, Queue, has_key, idempotency_key, enqueue_step}
use nutanix_hack.Queue.Rows.{find_task, UniqueIds, find_task-append}
use nutanix_hack.Queue.Invariant.{UniqueKeys, RowOk, IsSound}

append-UniqueIds :
    (rows : List Task) (t : Task)
    → UniqueIds rows
    → find_task t.id rows ≡ none
    → UniqueIds (rows ++ t ∷ [])
unfolding find_task
append-UniqueIds [] t u h = (refl, tt)
append-UniqueIds (s ∷ ts) t u h =
    ground (arith, find_task-append s.id ts t, append-UniqueIds ts t u.1)

pub has_key-append :
    (rows : List Task) (t : Task) (key : String)
    → has_key (rows ++ t ∷ []) key
      ≡ (if has_key rows key then true else str_eq t.idempotency_key key)
unfolding has_key
has_key-append [] t key = ground arith
has_key-append (s ∷ ts) t key = ground (arith, has_key-append ts t key)

append-UniqueKeys :
    (rows : List Task) (t : Task)
    → UniqueKeys rows
    → has_key rows t.idempotency_key ≡ false
    → UniqueKeys (rows ++ t ∷ [])
unfolding has_key
append-UniqueKeys [] t u h = (refl, tt)
append-UniqueKeys (s ∷ ts) t u h = ground (
  arith,
  has_key-append ts t s.idempotency_key,
  append-UniqueKeys ts t u.1,
  eq_iff s.idempotency_key t.idempotency_key,
  eq_iff t.idempotency_key s.idempotency_key,
)

find_task_above :
    (env : Env) (n : ℕ) (rows : List Task) → All (RowOk env n) rows → find_task n rows ≡ none
unfolding find_task
find_task_above env n [] h = refl
find_task_above env n (t ∷ ts) h = ground (arith, h.0.below, find_task_above env n ts h.1)

RowOk-suc : (env : Env) (n : ℕ) (t : Task) → RowOk env n t → RowOk env (suc n) t
RowOk-suc env n t r = record {
  below = omega (arith, r.below);
  keyed = r.keyed;
  leased = r.leased;
  unleased = r.unleased;
}

append-RowOk :
    (env : Env) (n : ℕ) (rows : List Task) (t : Task)
    → All (RowOk env n) rows
    → RowOk env (suc n) t
    → All (RowOk env (suc n)) (rows ++ t ∷ [])
append-RowOk env n [] t h r = (r, tt)
append-RowOk env n (s ∷ ts) t h r = (RowOk-suc env n s h.0, append-RowOk env n ts t h.1 r)

pub enqueue_step-IsSound :
    (env : Env) (run sid : String) (kind : TaskKind) (attempt run_after : ℕ) (q : Queue)
    → IsSound env q
    → IsSound env (enqueue_step env run sid kind attempt run_after q).1
unfolding enqueue_step
enqueue_step-IsSound env run sid kind attempt run_after q s =
    elim (Bool-cases (has_key q.rows (idempotency_key env run sid kind attempt))) [
      | inl taken ↦ simp taken s
      | inr free ↦ simp free (record {
        ids = append-UniqueIds q.rows _ s.ids (find_task_above env q.next_id q.rows s.rows_ok);
        keys = append-UniqueKeys q.rows _ s.keys free;
        rows_ok = append-RowOk env q.next_id q.rows _ s.rows_ok (record {
          below = omega arith;
          keyed = refl;
          leased = λ h. cc;
          unleased = λ _. (refl, refl);
        });
      })
    ]
