-- ===== src/Service/Sweep.antt =====
-- The rounds of `reap_expired_leases` in engine/service.py, and how many it takes.
use mathlib.Core.List.{Memᴰ}
use mathlib.Core.List.Memᴰ
use nutanix_hack.Prelude.{
  ℕ, zero, suc, ◌≤◌, ◌<◌, ◌≡◌, refl, ap, sym, ◌∙◌, Bool, true, false, Option, none, some, List, [],
  ◌∷◌, arith, ◌==◌, if◌then◌else◌, ltb, Bool-cases, inl, inr,
}
use nutanix_hack.Queue.{
  Task, TaskKind, Env, Queue, is_expired, next_expired, count_where, update_where, close,
  finish_task, requeued, key_taken, idempotency_key,
}
use nutanix_hack.Queue
use nutanix_hack.Queue.Rows.{first_by-some}
use nutanix_hack.Service.Exec.{
  Result, ok, err, Keeps, Keeps-bind, Keeps-pure, pure, atomic_ok, bind_ok, gets, atomic, ◌>>=◌,
  ◌>>◌,
}
use nutanix_hack.Service.Store.{Store, Db, on_queue}
use nutanix_hack.Service.SameQueue.{fail_poisoned_step-Same, note_recovery-Same}
use nutanix_hack.Service.Reaper.{
  Outcome, poisoned, recovered, fail_poisoned_step, saved, requeue, reap_task, note_recovery,
  reap_one, or_stop, reap_expired_leases,
}

-- How many tasks the sweep still has to recover.
unfoldable pub expired : (ℕ → Bool) → ℕ → Store → ℕ
expired locked now s = count_where (is_expired locked now) s.queue.rows

closed_not_expired :
    (locked : ℕ → Bool) (now : ℕ) (t : Task) → is_expired locked now (close t) ≡ false
unfolding is_expired close
closed_not_expired locked now t = refl

requeued_not_expired :
    (env : Env) (locked : ℕ → Bool) (now moment : ℕ) (t : Task)
    → is_expired locked now (requeued env moment t) ≡ false
unfolding is_expired requeued
requeued_not_expired env locked now moment t = refl

module _ (p r : Task → Bool) (f : Task → Task) (clears : (t : Task) → p (f t) ≡ false) where
  count-update_where :
      (rows : List Task) → count_where p (update_where r f rows) ≤ count_where p rows
  unfolding count_where update_where
  count-update_where [] = omega arith
  count-update_where (t ∷ ts) = ground (arith, clears t, count-update_where ts)

  count-update_where_less :
      (rows : List Task) (t : Task)
      → Memᴰ t rows
      → p t ≡ true
      → r t ≡ true
      → count_where p (update_where r f rows) < count_where p rows
  unfolding count_where update_where
  count-update_where_less [] t m h k = absurd (Memᴰ.not-nil m)
  count-update_where_less (s ∷ ts) t (Memᴰ.head e) h k =
      ground (arith, clears s, e, count-update_where ts)
  count-update_where_less (s ∷ ts) t (Memᴰ.tail m) h k =
      ground (arith, clears s, count-update_where_less ts t m h k)

-- What a part keeps, it keeps where it returns.
same_queue_after :
    {A : Type 0} (q : Queue) (m : Db A) (s s' : Store) (a : A)
    → Keeps (λ t. t.queue ≡ q) m
    → s.queue ≡ q
    → m s ≡ (ok a, s')
    → s'.queue ≡ q
same_queue_after q m s s' a k h e = sym (ap (λ r. r.1.queue) e) ∙ k.at s h

poisoned_less :
    (env : Env) (locked : ℕ → Bool) (now : ℕ) (task : Task) (s s' : Store)
    (ending : Option (Task × Outcome))
    → next_expired locked now s.queue ≡ some task
    → (on_queue (λ q. (tt, finish_task task.id q))
          >> (fail_poisoned_step env task >> pure (some (task, poisoned))))
        s
      ≡ (ok ending, s')
    → expired locked now s' < expired locked now s
unfolding expired next_expired on_queue finish_task ◌>>=◌
poisoned_less env locked now task s s' ending found h =
    let (m, is, least) = first_by-some _ _ s.queue.rows task found in
    let same : s'.queue ≡ finish_task task.id s.queue =
      same_queue_after (finish_task task.id s.queue) _ _ s' ending
        (Keeps-bind _ _ (fail_poisoned_step-Same _ env task) (λ _. Keeps-pure _)) refl h in
    omega (
      arith,
      ap (λ (q : Queue). count_where (is_expired locked now) q.rows) same,
      count-update_where_less (is_expired locked now) (λ t. t.id == task.id) close
          (closed_not_expired locked now) s.queue.rows task m is (ground arith),
    )

saved_less :
    (env : Env) (locked : ℕ → Bool) (now : ℕ) (task : Task) (s s' : Store)
    (ending : Option (Task × Outcome)) (b : Bool)
    → next_expired locked now s.queue ≡ some task
    → (saved (
            if b
            then none
            else some (record (s.queue) {
              rows = update_where (λ t. t.id == task.id) (requeued env now) s.queue.rows;
            }))
          >> pure (some (requeued env now task, recovered)))
        s
      ≡ (ok ending, s')
    → expired locked now s' < expired locked now s
unfolding expired next_expired saved on_queue ◌>>=◌
saved_less env locked now task s s' ending true found h =
    cc (ap (λ (r : Result (Option (Task × Outcome)) × Store). r.0) h)
saved_less env locked now task s s' ending false found h =
    let (m, is, least) = first_by-some _ _ s.queue.rows task found in
    omega (
      arith,
      ap
          (λ (r : Result (Option (Task × Outcome)) × Store).
            count_where (is_expired locked now) r.1.queue.rows)
          h,
      count-update_where_less (is_expired locked now) (λ t. t.id == task.id) (requeued env now)
          (requeued_not_expired env locked now now) s.queue.rows task m is (ground arith),
    )

requeue_less :
    (env : Env) (locked : ℕ → Bool) (now : ℕ) (task : Task) (s s' : Store)
    (ending : Option (Task × Outcome))
    → next_expired locked now s.queue ≡ some task
    → (requeue env now task >> pure (some (requeued env now task, recovered))) s ≡ (ok ending, s')
    → expired locked now s' < expired locked now s
unfolding requeue Queue.requeue ◌>>=◌
requeue_less env locked now task s s' ending found h =
    saved_less env locked now task s s' ending
      (key_taken task.id s.queue.rows
        (idempotency_key env task.run task.step_id task.kind (suc task.attempt)))
      found h

task_less :
    (env : Env) (locked : ℕ → Bool) (now : ℕ) (task : Task) (s s' : Store)
    (ending : Option (Task × Outcome))
    → next_expired locked now s.queue ≡ some task
    → reap_task env now (some task) s ≡ (ok ending, s')
    → expired locked now s' < expired locked now s
unfolding reap_task
task_less env locked now task s s' ending found h =
    elim (Bool-cases (ltb env.max_task_attempts (suc task.attempt))) [
      | inl gone ↦ poisoned_less env locked now task s s' ending found (simp gone at h)
      | inr left ↦ requeue_less env locked now task s s' ending found (simp left at h)
    ]

found_less :
    (env : Env) (locked : ℕ → Bool) (now : ℕ) (s s' : Store) (found : Option Task)
    (x : Task × Outcome)
    → next_expired locked now s.queue ≡ found
    → reap_task env now found s ≡ (ok (some x), s')
    → expired locked now s' < expired locked now s
unfolding reap_task ◌>>=◌
found_less env locked now s s' none x e h =
    cc (ap (λ (r : Result (Option (Task × Outcome)) × Store). r.0) h)
found_less env locked now s s' (some task) x e h = task_less env locked now task s s' (some x) e h

noted_less :
    (locked : ℕ → Bool) (now : ℕ) (s t s' : Store) (ending : Option (Task × Outcome))
    (x : Task × Outcome)
    → ((y : Task × Outcome) → ending ≡ some y → expired locked now t < expired locked now s)
    → note_recovery ending t ≡ (ok (some x), s')
    → expired locked now s' < expired locked now s
unfolding expired note_recovery ◌>>=◌
noted_less locked now s t s' none x less h =
    cc (ap (λ (r : Result (Option (Task × Outcome)) × Store). r.0) h)
noted_less locked now s t s' (some y) x less h = omega (
  arith,
  less y refl,
  ap (λ (q : Queue). count_where (is_expired locked now) q.rows)
      (same_queue_after t.queue (note_recovery (some y)) t s' (some x)
        (note_recovery-Same t.queue (some y)) refl h),
)

-- The transaction of a round.
abbrev block : Env → (ℕ → Bool) → ℕ → Db (Option (Task × Outcome))
block env locked now =
    gets (λ s. next_expired locked now s.queue) >>= λ found. reap_task env now found

round_less :
    (env : Env) (locked : ℕ → Bool) (now : ℕ) (s s' : Store) (x : Task × Outcome)
    → reap_one env locked now s ≡ (ok (some x), s')
    → expired locked now s' < expired locked now s
unfolding reap_one ◌>>=◌
round_less env locked now s s' x h =
    let two = bind_ok (atomic (block env locked now)) note_recovery s s' (some x) h in
    noted_less locked now s two.middle s' two.answer x
      (λ y is.
        let committed : reap_task env now (next_expired locked now s.queue) s
            ≡ (ok two.answer, two.middle) =
          atomic_ok (block env locked now) s two.middle two.answer two.first in
        found_less env locked now s two.middle (next_expired locked now s.queue) y refl
          (committed ∙ ap (λ o. (ok o, two.middle)) is))
      two.rest

-- The loop from the result of a round on, with two amounts of fuel left.
or_stop_same :
    (env : Env) (locked : ℕ → Bool) (now n m : ℕ) (s : Store)
    (r : Result (Option (Task × Outcome)) × Store)
    → reap_one env locked now s ≡ r
    → ((s' : Store)
        → expired locked now s' < expired locked now s
        → reap_expired_leases m env locked now s' ≡ reap_expired_leases n env locked now s')
    → (reap_one env locked now >>= λ one. or_stop one (reap_expired_leases m env locked now)) s
      ≡ (reap_one env locked now >>= λ one. or_stop one (reap_expired_leases n env locked now)) s
unfolding or_stop ◌>>=◌
or_stop_same env locked now n m s (err x, s') e same = rw e refl
or_stop_same env locked now n m s (ok none, s') e same = rw e refl
or_stop_same env locked now n m s (ok (some x), s') e same =
    rw (e, same s' (round_less env locked now s s' x e)) refl

-- With more rounds than the store has expired tasks that are not locked, reap_expired_leases does
-- and answers the same as with any larger number of rounds: its loop ends.
pub reap_expired_leases_enough :
    (n m : ℕ) (env : Env) (locked : ℕ → Bool) (now : ℕ) (s : Store)
    → expired locked now s < n
    → n ≤ m
    → reap_expired_leases m env locked now s ≡ reap_expired_leases n env locked now s
unfolding reap_expired_leases
reap_expired_leases_enough zero m env locked now s h le = let no : ⊥ = omega arith in absurd no
reap_expired_leases_enough (suc n) zero env locked now s h le =
    let no : ⊥ = omega arith in absurd no
reap_expired_leases_enough (suc n) (suc m) env locked now s h le =
    or_stop_same env locked now n m s (reap_one env locked now s) refl (λ s' less.
      reap_expired_leases_enough n m env locked now s' (omega (arith, less, h)) (omega (arith, le)))
