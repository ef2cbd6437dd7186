-- ===== src/Queue/Steps.antt =====
-- Workers, the API and the reaper as the interleaving of their transactions on the task table.
use mathlib.Core.Option.{some-injective}
use nutanix_hack.Prelude.{
  ℕ, suc, ◌+◌, ◌≡◌, refl, subst, sym, ap, ◌∙◌, Bool, true, false, String, Option, none, some, [],
  ◌∷◌, ◌++◌, arith, ◌==◌, Bool-cases, inl, inr, str_eq,
}
use nutanix_hack.Queue.{
  Task, TaskKind, Env, Queue, is_status_leased, claim_task, take_lease, lease_to, update_where,
  is_held, renew_lease, finish_task_if_owned, finish_task, requeue, requeued, close, enqueue_step,
  key_taken, idempotency_key, has_key,
}
use nutanix_hack.Queue.Rows.{find_task, find_task-append}
use nutanix_hack.Queue.Invariant.{
  IsSound, claim_task-IsSound, finish_task-IsSound, finish_task_if_owned-IsSound,
  renew_lease-IsSound,
}
use nutanix_hack.Queue.Enqueued.{enqueue_step-IsSound}
use nutanix_hack.Queue.Requeued.{requeue-IsSound}
use nutanix_hack.Queue.Fencing.{holds, holds-update, closed_not_held, finish_task_if_owned_fenced}

-- One transaction on the table, with what its caller chose.
pub data Transaction (env : Env) (q q' : Queue) : Type 0 where
  enqueues :
      (run sid : String) (kind : TaskKind) (attempt run_after : ℕ)
      → q' ≡ (enqueue_step env run sid kind attempt run_after q).1
      → Transaction env q q'
  claims :
      (locked : ℕ → Bool) (worker : String) (now : ℕ)
      → q' ≡ (claim_task env locked worker now q).1
      → Transaction env q q'
  renews :
      (id : ℕ) (worker : String) (now : ℕ)
      → q' ≡ (renew_lease env id worker now q).1
      → Transaction env q q'
  finishes_owned :
      (id : ℕ) (worker : String) → q' ≡ (finish_task_if_owned id worker q).1 → Transaction env q q'
  finishes : (id : ℕ) → q' ≡ finish_task id q → Transaction env q q'
  requeues :
      (now : ℕ) (task : Task)
      → find_task task.id q.rows ≡ some task
      → requeue env now task q ≡ some q'
      → Transaction env q q'

pub Transaction-IsSound :
    (env : Env) {q q' : Queue} → Transaction env q q' → IsSound env q → IsSound env q'
Transaction-IsSound env {q} (enqueues run sid kind attempt run_after e) s =
    subst (IsSound env) (sym e) (enqueue_step-IsSound env run sid kind attempt run_after q s)
Transaction-IsSound env {q} (claims locked worker now e) s =
    subst (IsSound env) (sym e) (claim_task-IsSound env locked worker now q s)
Transaction-IsSound env {q} (renews id worker now e) s =
    subst (IsSound env) (sym e) (renew_lease-IsSound env id worker now q s)
Transaction-IsSound env {q} (finishes_owned id worker e) s =
    subst (IsSound env) (sym e) (finish_task_if_owned-IsSound env id worker q s)
Transaction-IsSound env {q} (finishes id e) s =
    subst (IsSound env) (sym e) (finish_task-IsSound env id q s)
Transaction-IsSound env {q} (requeues now task held e) s = requeue-IsSound env now task q s held e

-- Any interleaving of such transactions.
pub data History (env : Env) (q : Queue) : Queue → Type 0 where
  here : History env q q
  next : {q' q'' : Queue} → History env q q' → Transaction env q' q'' → History env q q''

-- Any interleaving of enqueues, claims, renewals, finishes and requeues keeps the invariant of the
-- task table: ids and keys are unique, each key is the digest of its row, ids are below the next
-- id, and a row has an expiry exactly if it is LEASED, and no owner if it is not.
pub History-IsSound :
    (env : Env) (q : Queue) {q' : Queue} → IsSound env q → History env q q' → IsSound env q'
History-IsSound env q s here = s
History-IsSound env q s (next h t) = Transaction-IsSound env t (History-IsSound env q s h)

-- The transaction is no claim by the worker.
abbrev pub NotClaimBy : (env : Env) (worker : String) {q q' : Queue} → Transaction env q q' → Type 0
NotClaimBy env worker (claims locked other now e) = str_eq other worker ≡ false
NotClaimBy env worker _ = Unit

lease_other :
    (id : ℕ) (worker other : String) (expiry : ℕ) (t : Task)
    → str_eq other worker ≡ false
    → is_held id worker (lease_to other expiry t) ≡ true
    → is_held id worker t ≡ true
unfolding is_held lease_to
lease_other id worker other expiry t n h = ground arith

requeued_not_held :
    (env : Env) (id : ℕ) (worker : String) (now : ℕ) (t : Task)
    → is_held id worker (requeued env now t) ≡ false
unfolding is_held requeued
requeued_not_held env id worker now t = ground arith

take_lease-holds :
    (env : Env) (worker other : String) (now id : ℕ) (q : Queue) (o : Option Task)
    → str_eq other worker ≡ false
    → holds id worker (take_lease env other now q o).1 ≡ true
    → holds id worker q ≡ true
unfolding take_lease
take_lease-holds env worker other now id q none n h = h
take_lease-holds env worker other now id q (some task) n h =
    holds-update (λ t. t.id == task.id) (lease_to other (now + env.lease)) id worker q (λ t. refl)
      (λ t _. lease_other id worker other (now + env.lease) t n) h

append-holds :
    (id n : ℕ) (worker : String) (q : Queue) (t : Task)
    → is_status_leased t.status ≡ false
    → holds id worker (record { rows = q.rows ++ t ∷ []; next_id = n }) ≡ true
    → holds id worker q ≡ true
unfolding holds is_held
append-holds id n worker q t idle h = ground (arith, find_task-append id q.rows t)

enqueue_step-holds :
    (env : Env) (run sid : String) (kind : TaskKind) (attempt run_after : ℕ) (q : Queue) (id : ℕ)
    (worker : String)
    → holds id worker (enqueue_step env run sid kind attempt run_after q).1 ≡ true
    → holds id worker q ≡ true
unfolding enqueue_step
enqueue_step-holds env run sid kind attempt run_after q id worker h =
    elim (Bool-cases (has_key q.rows (idempotency_key env run sid kind attempt))) [
      | inl taken ↦ simp taken at h
      | inr free ↦ append-holds id _ worker q _ refl (simp free at h)
    ]

requeue-holds :
    (env : Env) (now : ℕ) (task : Task) (q q' : Queue) (id : ℕ) (worker : String)
    → requeue env now task q ≡ some q'
    → holds id worker q' ≡ true
    → holds id worker q ≡ true
unfolding requeue
requeue-holds env now task q q' id worker e h =
    elim (Bool-cases (
      key_taken task.id q.rows
        (idempotency_key env task.run task.step_id task.kind (suc task.attempt)))) [
          | inl taken ↦ cc (simp taken at e)
          | inr free ↦
              let same : record q {
                rows = update_where (λ t. t.id == task.id) (requeued env now) q.rows;
              }
                  ≡ q' =
                some-injective _ _ (simp free at e) in
              holds-update (λ t. t.id == task.id) (requeued env now) id worker q (λ t. refl)
                (λ t _ h'. cc (h', requeued_not_held env id worker now t))
                (ap (holds id worker) same ∙ h)
        ]

Transaction-holds :
    (env : Env) (id : ℕ) (worker : String) {q q' : Queue} (t : Transaction env q q')
    → NotClaimBy env worker t
    → holds id worker q' ≡ true
    → holds id worker q ≡ true
unfolding renew_lease finish_task_if_owned finish_task claim_task
Transaction-holds env id worker {q} (enqueues run sid kind attempt run_after e) n h =
    enqueue_step-holds env run sid kind attempt run_after q id worker
      (ap (holds id worker) (sym e) ∙ h)
Transaction-holds env id worker {q} (claims locked other now e) n h =
    take_lease-holds env worker other now id q _ n (ap (holds id worker) (sym e) ∙ h)
Transaction-holds env id worker {q} (renews id' other now e) n h =
    holds-update (is_held id' other) (λ t. record t { lease_expires_at = some (now + env.lease) })
      id worker q (λ t. refl) (λ t _ h'. unfold is_held in h') (ap (holds id worker) (sym e) ∙ h)
Transaction-holds env id worker {q} (finishes_owned id' other e) n h =
    holds-update (is_held id' other) close id worker q (λ t. refl)
      (λ t _ h'. cc (h', closed_not_held id worker t)) (ap (holds id worker) (sym e) ∙ h)
Transaction-holds env id worker {q} (finishes id' e) n h =
    holds-update (λ t. t.id == id') close id worker q (λ t. refl)
      (λ t _ h'. cc (h', closed_not_held id worker t)) (ap (holds id worker) (sym e) ∙ h)
Transaction-holds env id worker {q} {q'} (requeues now task held e) n h =
    requeue-holds env now task q q' id worker e h

-- The history has no claim by the worker.
abbrev pub NoClaimBy :
    (env : Env) (worker : String) (q : Queue) {q' : Queue} → History env q q' → Type 0
NoClaimBy env worker q here = Unit
NoClaimBy env worker q (next h t) = NoClaimBy env worker q h × NotClaimBy env worker t

History-holds :
    (env : Env) (id : ℕ) (worker : String) (q : Queue) {q' : Queue} (h : History env q q')
    → NoClaimBy env worker q h
    → holds id worker q' ≡ true
    → holds id worker q ≡ true
History-holds env id worker q here n e = e
History-holds env id worker q (next h t) n e =
    History-holds env id worker q h n.0 (Transaction-holds env id worker t n.1 e)

-- On a table with the invariant, if a worker does not hold the lease of a task, then after any
-- interleaving of transactions without a claim by that worker, finish_task_if_owned still answers
-- false to it.
pub lost_lease_stays_lost :
    (env : Env) (id : ℕ) (worker : String) (q : Queue) {q' : Queue} (h : History env q q')
    → IsSound env q
    → NoClaimBy env worker q h
    → holds id worker q ≡ false
    → (finish_task_if_owned id worker q').0 ≡ false
lost_lease_stays_lost env id worker q {q'} h s n lost =
    (finish_task_if_owned_fenced id worker worker q' (History-IsSound env q s h).ids).0
    ∙ elim (Bool-cases (holds id worker q')) [
      | inl held ↦ cc (History-holds env id worker q h n held, lost)
      | inr free ↦ free
    ]
