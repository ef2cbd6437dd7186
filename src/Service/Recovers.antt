-- ===== src/Service/Recovers.antt =====
-- The transactions of the reaper in engine/service.py, on a sound table.
use nutanix_hack.Prelude.{
  ℕ, zero, suc, ◌≡◌, refl, Bool, Option, none, some, List, ltb, Bool-cases, Option-cases, inl, inr,
}
use nutanix_hack.Queue.{Task, Env, Queue, next_expired, requeued}
use nutanix_hack.Queue
use nutanix_hack.Queue.Rows.{find_task, find_task-Memᴰ, first_by-some}
use nutanix_hack.Queue.Invariant.{IsSound}
use nutanix_hack.Queue.Steps.{Transaction, History, History-IsSound}
use nutanix_hack.Service.Exec.{
  Keeps, Keeps-bind, Keeps-pure, Keeps-atomic, gets, continue_at, pure, ◌>>=◌, ◌>>◌,
}
use nutanix_hack.Service.Store.{Store, Db, on_queue}
use nutanix_hack.Service.Kept.Requests.{fail_poisoned_step-Keeps, note_recovery-Keeps}
use nutanix_hack.Service.Reaper.{
  saved, fail_poisoned_step, requeue, reap_task, or_stop, Outcome, reap_one, reap_expired_leases,
}
use nutanix_hack.Service.Transacts.{Reaches, transacts}

-- A read, and what follows it on the same store.
gets_at :
    {A B : Type 0} (P : Store → Type 0) (f : Store → A) (k : A → Db B)
    → ((s : Store) → P s → P (k (f s) s).1)
    → Keeps P (gets f >>= k)
unfolding ◌>>=◌
gets_at P f k h = record { at = h }

expired_there :
    (env : Env) (locked : ℕ → Bool) (now : ℕ) (q : Queue) (task : Task)
    → IsSound env q
    → next_expired locked now q ≡ some task
    → find_task task.id q.rows ≡ some task
unfolding next_expired
expired_there env locked now q task s h =
    let (m, is, least) = first_by-some _ _ q.rows task h in find_task-Memᴰ q.rows task s.ids m

module _ (env : Env) (start : Queue) (sound : IsSound env start) where
  saved-Reaches :
      (now : ℕ) (task : Task) (s : Store) (o : Option Queue)
      → Queue.requeue env now task s.queue ≡ o
      → find_task task.id s.queue.rows ≡ some task
      → Reaches env start s
      → Reaches env start (saved o s).1
  unfolding saved on_queue ◌>>=◌
  saved-Reaches now task s none e f h = h
  saved-Reaches now task s (some q) e f h = History.next h (Transaction.requeues now task f e)

  requeue-Reaches :
      (now : ℕ) (task : Task) (s : Store)
      → find_task task.id s.queue.rows ≡ some task
      → Reaches env start s
      → Reaches env start (requeue env now task s).1
  unfolding requeue ◌>>=◌
  requeue-Reaches now task s f h =
      saved-Reaches now task s (Queue.requeue env now task s.queue) refl f h

  poisoned-Reaches :
      (task : Task) (a : Option (Task × Outcome))
      → Keeps (Reaches env start) (
          on_queue (λ q. (tt, Queue.finish_task task.id q))
          >> (fail_poisoned_step env task >> pure a))
  poisoned-Reaches task a = Keeps-bind _ _ ((transacts env start).finished task.id) (λ _.
      Keeps-bind _ _ (fail_poisoned_step-Keeps env (Reaches env start) (transacts env start) task)
        (λ _. Keeps-pure _))

  recovered-Reaches :
      (now : ℕ) (task : Task) (s : Store) (a : Option (Task × Outcome))
      → find_task task.id s.queue.rows ≡ some task
      → Reaches env start s
      → Reaches env start ((requeue env now task >> pure a) s).1
  unfolding ◌>>=◌
  recovered-Reaches now task s a f h =
      continue_at {P = Reaches env start} (requeue env now task s) (λ _. pure a)
        (requeue-Reaches now task s f h) (λ _. Keeps-pure a)

  reap_task-Reaches :
      (locked : ℕ → Bool) (now : ℕ) (s : Store)
      → Reaches env start s
      → Reaches env start (reap_task env now (next_expired locked now s.queue) s).1
  unfolding reap_task
  reap_task-Reaches locked now s h = elim (Option-cases (next_expired locked now s.queue)) [
    | inl e ↦ rw (e, reap_task) ((Keeps-pure {P = Reaches env start} none).at s h)
    | inr (task, e) ↦
        let there =
          expired_there env locked now s.queue task (History-IsSound env start sound h) e in
        elim (Bool-cases (ltb env.max_task_attempts (suc task.attempt))) [
          | inl poison ↦
              rw (e, reap_task, poison)
                ((poisoned-Reaches task (some (task, Outcome.poisoned))).at s h)
          | inr again ↦
              rw (e, reap_task, again)
                (recovered-Reaches now task s (some (requeued env now task, Outcome.recovered))
                  there h)
        ]
  ]

  reap_one-Reaches :
      (locked : ℕ → Bool) (now : ℕ) → Keeps (Reaches env start) (reap_one env locked now)
  unfolding reap_one
  reap_one-Reaches locked now =
      Keeps-bind _ _
        (Keeps-atomic _ (
          gets_at (Reaches env start) _ (reap_task env now)
            (λ s h. reap_task-Reaches locked now s h)))
        (note_recovery-Keeps env (Reaches env start) (transacts env start))

  or_stop-Reaches :
      (one : Option (Task × Outcome)) (others : Db (List (Task × Outcome)))
      → Keeps (Reaches env start) others
      → Keeps (Reaches env start) (or_stop one others)
  unfolding or_stop
  or_stop-Reaches none others k = Keeps-pure _
  or_stop-Reaches (some result) others k = Keeps-bind _ _ k (λ _. Keeps-pure _)

  pub reap_expired_leases-Reaches :
      (n : ℕ) (locked : ℕ → Bool) (now : ℕ)
      → Keeps (Reaches env start) (reap_expired_leases n env locked now)
  unfolding reap_expired_leases
  reap_expired_leases-Reaches zero locked now = Keeps-pure _
  reap_expired_leases-Reaches (suc n) locked now =
      Keeps-bind _ _ (reap_one-Reaches locked now)
        (λ one. or_stop-Reaches one _ (reap_expired_leases-Reaches n locked now))
