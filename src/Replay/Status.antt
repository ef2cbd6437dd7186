-- ===== src/Replay/Status.antt =====
-- About `next_run_state` of engine/replay.py.
use mathlib.Core.List.{Memᴰ}
use mathlib.Core.List.Memᴰ
use nutanix_hack.Prelude.{
  ◌≡◌, refl, Bool, true, false, ◌&&◌, ◌⊎◌, ◌↔◌, inl, inr, String, List, [], ◌∷◌, arith, every, All,
}
use nutanix_hack.Spec.{Step, Spec}
use nutanix_hack.Replay.State.{StepStatus, RunState, Context, is_terminal}
use nutanix_hack.Replay.Queries.{
  has_status, status_or_pending, is_ready, ids_where, ready_steps, is_complete, is_fatal,
  failed_steps, next_run_state, steps_with_status,
}

-- A step on which the test fails keeps `every` from passing.
every-false :
    (p : Step → Bool) (steps : List Step) (step : Step)
    → Memᴰ step steps
    → p step ≡ false
    → every p steps ≡ false
every-false p [] step m h = absurd (Memᴰ.not-nil m)
every-false p (s ∷ rest) step (Memᴰ.head e) h = ground (arith, e)
every-false p (s ∷ rest) step (Memᴰ.tail m) h = ground (arith, every-false p rest step m h)

ids_where-nil :
    (p : Step → Bool) (steps : List Step) → All (λ s. p s ≡ false) steps → ids_where p steps ≡ []
unfolding ids_where
ids_where-nil p [] h = refl
ids_where-nil p (s ∷ rest) h = ground (arith, ids_where-nil p rest h.1)

-- Nothing is left to do: each step has SUCCEEDED, or FAILED under `on_error: continue`.
abbrev pub IsSettled : Context → Step → Type 0
IsSettled c s =
    (has_status c StepStatus.succeeded s.id ≡ true)
    ⊎ ((has_status c StepStatus.failed s.id ≡ true) × (is_fatal s ≡ false))

settled_claimed : (c : Context) (s : Step) → IsSettled c s → is_ready c s ≡ false
unfolding is_ready has_status status_or_pending
settled_claimed c s (inl h) = ground arith
settled_claimed c s (inr h) = ground arith

settled_not_fatal :
    (c : Context) (s : Step)
    → IsSettled c s
    → (has_status c StepStatus.failed s.id && is_fatal s) ≡ false
unfolding has_status
settled_not_fatal c s (inl h) = ground arith
settled_not_fatal c s (inr h) = ground arith

settled_not_waiting :
    (c : Context) (s : Step) → IsSettled c s → has_status c StepStatus.waiting s.id ≡ false
unfolding has_status
settled_not_waiting c s (inl h) = ground arith
settled_not_waiting c s (inr h) = ground arith

All-imp :
    (P Q : Step → Type 0) (steps : List Step) → ((s : Step) → P s → Q s) → All P steps → All Q steps
All-imp P Q [] f h = tt
All-imp P Q (s ∷ rest) f h = (f s h.0, All-imp P Q rest f h.1)

failed_not_succeeded :
    (c : Context) (sid : String)
    → has_status c StepStatus.failed sid ≡ true
    → has_status c StepStatus.succeeded sid ≡ false
unfolding has_status
failed_not_succeeded c sid h = ground arith

-- For a context that is neither compensating nor ended: if each step of the definition has
-- SUCCEEDED, or has FAILED under on_error: continue, and one has FAILED, then no step is ready and
-- the derived state is RUNNING.
pub continue_never_closes :
    (spec : Spec) (c : Context) (step : Step)
    → c.compensating ≡ false
    → is_terminal c.status ≡ false
    → All (IsSettled c) spec.steps
    → Memᴰ step spec.steps
    → has_status c StepStatus.failed step.id ≡ true
    → (ready_steps spec c ≡ []) × (next_run_state spec c ≡ RunState.running)
unfolding ready_steps next_run_state failed_steps is_complete steps_with_status
continue_never_closes spec c step forward unended settled m failed =
    let idle : ids_where (is_ready c) spec.steps ≡ [] =
      ids_where-nil _ spec.steps (All-imp _ _ spec.steps (settled_claimed c) settled) in
    let harmless : ids_where (λ s. has_status c StepStatus.failed s.id && is_fatal s) spec.steps
        ≡ [] =
      ids_where-nil _ spec.steps (All-imp _ _ spec.steps (settled_not_fatal c) settled) in
    let awake : ids_where (λ s. has_status c StepStatus.waiting s.id) spec.steps ≡ [] =
      ids_where-nil _ spec.steps (All-imp _ _ spec.steps (settled_not_waiting c) settled) in
    let incomplete : every (λ s. has_status c StepStatus.succeeded s.id) spec.steps ≡ false =
      every-false _ spec.steps step m (failed_not_succeeded c step.id failed) in
    (simp (forward, unended, idle), simp (unended, forward, harmless, incomplete, awake))

no_fatal_failure :
    (c : Context) (s : Step)
    → has_status c StepStatus.succeeded s.id ≡ true
    → (has_status c StepStatus.failed s.id && is_fatal s) ≡ false
no_fatal_failure c s h = settled_not_fatal c s (inl h)

every_iff :
    (p : Step → Bool) (steps : List Step) → (every p steps ≡ true) ↔ All (λ s. p s ≡ true) steps
every_iff p [] = (λ _. tt, λ _. refl)
every_iff p (s ∷ rest) = ground (arith, every_iff p rest)

closes_if_complete :
    (spec : Spec) (c : Context)
    → is_terminal c.status ≡ false
    → c.compensating ≡ false
    → All (λ s. has_status c StepStatus.succeeded s.id ≡ true) spec.steps
    → next_run_state spec c ≡ RunState.succeeded
unfolding next_run_state failed_steps is_complete
closes_if_complete spec c unended forward all =
    let none_failed : ids_where (λ s. has_status c StepStatus.failed s.id && is_fatal s) spec.steps
        ≡ [] =
      ids_where-nil _ spec.steps (All-imp _ _ spec.steps (no_fatal_failure c) all) in
    let complete : every (λ s. has_status c StepStatus.succeeded s.id) spec.steps ≡ true =
      (every_iff _ spec.steps).1 all in
    simp (unended, forward, none_failed, complete)

complete_if_closed :
    (spec : Spec) (c : Context)
    → is_terminal c.status ≡ false
    → next_run_state spec c ≡ RunState.succeeded
    → (c.compensating ≡ false) × (is_complete spec c ≡ true)
unfolding next_run_state
complete_if_closed spec c unended h = ground arith

-- For a run that has not ended, the derived state is SUCCEEDED exactly if the run is not
-- compensating and every step of the definition has SUCCEEDED.
pub next_run_state-succeeded :
    (spec : Spec) (c : Context)
    → is_terminal c.status ≡ false
    → (next_run_state spec c ≡ RunState.succeeded) ↔ (
        (c.compensating ≡ false)
        × All (λ s. has_status c StepStatus.succeeded s.id ≡ true) spec.steps)
unfolding is_complete
next_run_state-succeeded spec c unended = (
  λ h.
      let (forward, complete) = complete_if_closed spec c unended h in
      (forward, (every_iff _ spec.steps).0 complete),
  λ h. closes_if_complete spec c unended h.0 h.1,
)
