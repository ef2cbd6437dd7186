-- ===== src/Service/Stuck.antt =====
-- About the save in `reap_expired_leases` of engine/service.py.
use nutanix_hack.Prelude.{ℕ, suc, ◌≡◌, refl, Bool, true, false, some, ltb}
use nutanix_hack.Queue.{Task, Env, next_expired, key_taken, idempotency_key}
use nutanix_hack.Queue
use nutanix_hack.Service.Exec.{err, integrity_error, atomic, ◌>>=◌}
use nutanix_hack.Service.Store.{Store}
use nutanix_hack.Service.Reaper.{saved, requeue, reap_task, reap_one, reap_expired_leases}

-- The oldest expired task has an attempt left, but another row has the key of that attempt.
pub record IsBlocked (env : Env) (locked : ℕ → Bool) (now : ℕ) (s : Store) (t : Task) : Type 0 where
  pub oldest : next_expired locked now s.queue ≡ some t
  pub allowed : ltb env.max_task_attempts (suc t.attempt) ≡ false
  pub taken :
      key_taken t.id s.queue.rows (idempotency_key env t.run t.step_id t.kind (suc t.attempt))
      ≡ true

reap_one_blocked :
    (env : Env) (locked : ℕ → Bool) (now : ℕ) (s : Store) (t : Task)
    → IsBlocked env locked now s t
    → reap_one env locked now s ≡ (err integrity_error, s)
unfolding reap_one atomic ◌>>=◌ reap_task requeue Queue.requeue saved
reap_one_blocked env locked now s t b = simp (b.oldest, b.allowed, b.taken)

-- If the expired task with the oldest expiry has an attempt left, but another row has the key of
-- its next attempt, then reap_expired_leases with any positive number of rounds raises
-- IntegrityError and leaves the store as before.
pub reap_blocked :
    (n : ℕ) (env : Env) (locked : ℕ → Bool) (now : ℕ) (s : Store) (t : Task)
    → IsBlocked env locked now s t
    → reap_expired_leases (suc n) env locked now s ≡ (err integrity_error, s)
unfolding reap_expired_leases ◌>>=◌
reap_blocked n env locked now s t b = rw (reap_one_blocked env locked now s t b) refl
