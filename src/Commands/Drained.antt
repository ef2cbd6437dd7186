-- ===== src/Commands/Drained.antt =====
-- When `run_worker --once` ends by itself.
use nutanix_hack.Prelude.{
  ℕ, ◌≡◌, refl, Bool, true, false, String, none, List, [], ◌∷◌, All, Option-cases, Bool-cases, inl,
  inr, ◌⊎◌,
}
use nutanix_hack.Queue.{Env, is_due, claim_task}
use nutanix_hack.Queue.Claims.{claim_task-none}
use nutanix_hack.Plugins.{Outside}
use nutanix_hack.Service.Exec.{atomic, Result, ok, err, «continue», ◌>>=◌, pure}
use nutanix_hack.Service.Store.{Store, Db, on_queue, too_long}
use nutanix_hack.Worker.Visit.{claim, check_owner, run_once, execute_claimed, execute_task}
use nutanix_hack.Commands.{Turn, Ended, drained, after_round, run_worker}

-- No task is READY, due and not locked.
abbrev pub IsIdle : (ℕ → Bool) → ℕ → Store → Type 0
IsIdle locked now s = All (λ t. is_due locked now t ≡ false) s.queue.rows

answers_true : (r : Result Unit × Store) → («continue» r (λ _. pure true)).0 ≡ ok false → ⊥
unfolding ◌>>=◌
answers_true (ok a, s) h = cc h
answers_true (err e, s) h = cc h

idle_claim :
    (env : Env) (locked : ℕ → Bool) (now : ℕ) (worker : String) (s : Store)
    → (claim_task env locked worker now s.queue).0 ≡ none
    → All (λ t. is_due locked now t ≡ false) (claim_task env locked worker now s.queue).1.rows
idle_claim env locked now worker s e =
    let (idle, same) = claim_task-none env locked worker now s.queue e in rw same idle

run_once-IsIdle :
    (env : Env) (outside : Outside) (beat : Db Bool) (locked : ℕ → Bool) (now : ℕ) (worker : String)
    (s : Store)
    → (run_once env outside beat locked now worker s).0 ≡ ok false
    → IsIdle locked now (run_once env outside beat locked now worker s).1
unfolding run_once claim check_owner atomic on_queue execute_claimed ◌>>=◌
run_once-IsIdle env outside beat locked now worker s h =
    elim (Option-cases ((claim_task env locked worker now s.queue).0)) [
      | inl e ↦ rw e (idle_claim env locked now worker s e)
      | inr (task, e) ↦ elim (Bool-cases (too_long worker)) [
        | inl long ↦ absurd (cc (rw (e, long) at h))
        | inr fits ↦ absurd (
            answers_true
              (execute_task env outside beat now task worker
                (record s { queue = (claim_task env locked worker now s.queue).1 }))
              (rw (e, fits) at h))
      ]
    ]

-- At one of the turns the queue had nothing for a worker.
abbrev pub WasIdle : List Turn → Store → Type 0
WasIdle [] s = ⊥
WasIdle (t ∷ turns) s = IsIdle t.locked t.now s ⊎ WasIdle turns s

round-WasIdle :
    (once : Bool) (t : Turn) (turns : List Turn) (r : Result Bool × Store)
    (next : Store → Ended × Store)
    → (r.0 ≡ ok false → IsIdle t.locked t.now r.1)
    → ((s : Store) → (next s).0 ≡ drained → WasIdle turns (next s).1)
    → (after_round once r next).0 ≡ drained
    → WasIdle (t ∷ turns) (after_round once r next).1
unfolding after_round
round-WasIdle once t turns (err e, s) next idle later h = inr (later s h)
round-WasIdle once t turns (ok true, s) next idle later h = inr (later s h)
round-WasIdle true t turns (ok false, s) next idle later h = inl (idle refl)
round-WasIdle false t turns (ok false, s) next idle later h = inr (later s h)

-- If run_worker ends by itself and not by a signal, then on the tables that it leaves, at one of
-- its turns, no task was READY, due and not locked.
pub run_worker-WasIdle :
    (env : Env) (outside : Outside) (name : String) (once : Bool) (turns : List Turn) (s : Store)
    → (run_worker env outside name once turns s).0 ≡ drained
    → WasIdle turns (run_worker env outside name once turns s).1
unfolding run_worker
run_worker-WasIdle env outside name once [] s h = cc h
run_worker-WasIdle env outside name once (t ∷ turns) s h =
    round-WasIdle once t turns (run_once env outside t.beat t.locked t.now name (t.others s))
      (run_worker env outside name once turns)
      (run_once-IsIdle env outside t.beat t.locked t.now name (t.others s))
      (λ s' k. run_worker-WasIdle env outside name once turns s' k) h
