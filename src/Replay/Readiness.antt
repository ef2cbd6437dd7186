-- ===== src/Replay/Readiness.antt =====
-- About `ready_steps` of engine/replay.py.
use mathlib.Core.List.{Memᴰ}
use mathlib.Core.List.Memᴰ
use nutanix_hack.Prelude.{
  ◌≡◌, refl, sym, ap, ◌∙◌, Bool, true, false, ◌||◌, String, List, [], ◌∷◌, arith, All, every,
  &&-eq-true, Bool-cases, inl, inr,
}
use nutanix_hack.Spec.{Step, Spec, needs_of}
use nutanix_hack.Replay.State.{StepStatus, Event, Context, is_claimed, is_terminal}
use nutanix_hack.Replay.Fold.{apply_all}
use nutanix_hack.Replay.Queries.{has_status, status_or_pending, is_ready, ids_where, ready_steps}
use nutanix_hack.Replay.Slots.{claimed-apply_all}

-- A step of the list with the id, on which the test passes.
abbrev pub Passes : (Step → Bool) → List Step → String → Type 0
Passes p steps sid = (step : Step) × Memᴰ step steps × (step.id ≡ sid) × (p step ≡ true)

shift-Passes :
    (p : Step → Bool) (s : Step) (rest : List Step) (sid : String)
    → Passes p rest sid
    → Passes p (s ∷ rest) sid
shift-Passes p s rest sid (step, m, e, h) = (step, Memᴰ.tail m, e, h)

ids_where_sound :
    (p : Step → Bool) (steps : List Step) (sid : String)
    → Memᴰ sid (ids_where p steps)
    → Passes p steps sid
unfolding ids_where
ids_where_sound p [] sid m = absurd (Memᴰ.not-nil m)
ids_where_sound p (s ∷ rest) sid m = elim (Bool-cases (p s)) [
  | inl pass ↦ elim (Memᴰ.cases_cons (rw (pass, ids_where) at m)) [
    | inl here ↦ (s, Memᴰ.head refl, sym here, pass)
    | inr later ↦ shift-Passes p s rest sid (ids_where_sound p rest sid later)
  ]
  | inr skip ↦ shift-Passes p s rest sid (ids_where_sound p rest sid (rw (skip, ids_where) at m))
]

ids_where_complete :
    (p : Step → Bool) (steps : List Step) (step : Step)
    → Memᴰ step steps
    → p step ≡ true
    → Memᴰ step.id (ids_where p steps)
unfolding ids_where
ids_where_complete p [] step m h = absurd (Memᴰ.not-nil m)
ids_where_complete p (s ∷ rest) step (Memᴰ.head e) h =
    rw (ap p (sym e) ∙ h, ids_where) (Memᴰ.head (ap (λ (x : Step). x.id) e))
ids_where_complete p (s ∷ rest) step (Memᴰ.tail m) h = elim (Bool-cases (p s)) [
  | inl pass ↦ rw (pass, ids_where) (Memᴰ.tail (ids_where_complete p rest step m h))
  | inr skip ↦ rw (skip, ids_where) (ids_where_complete p rest step m h)
]

-- What it takes for a step to start.
pub record CanStart (c : Context) (step : Step) : Type 0 where
  pub forward : c.compensating ≡ false
  pub open_run : is_terminal c.status ≡ false
  pub unclaimed : status_or_pending c step.id ≡ StepStatus.pending
  pub satisfied : All (λ dep. has_status c StepStatus.succeeded dep ≡ true) (needs_of step)

pub unclaimed-pending : (s : StepStatus) → is_claimed s ≡ false → s ≡ StepStatus.pending
unclaimed-pending StepStatus.pending h = refl
unclaimed-pending _ h = cc

every-All : (p : String → Bool) (xs : List String) → every p xs ≡ true → All (λ x. p x ≡ true) xs
every-All p [] h = tt
every-All p (x ∷ xs) h = ground (arith, every-All p xs)

All-every : (p : String → Bool) (xs : List String) → All (λ x. p x ≡ true) xs → every p xs ≡ true
All-every p [] h = refl
All-every p (x ∷ xs) h = ground (arith, All-every p xs h.1)

starts :
    (c : Context) (step : Step)
    → (c.compensating || is_terminal c.status) ≡ false
    → is_ready c step ≡ true
    → CanStart c step
unfolding is_ready
starts c step go h =
    let (unclaimed, satisfied) = &&-eq-true _ _ h in
    record {
      forward = ground arith;
      open_run = ground arith;
      unclaimed = unclaimed-pending (status_or_pending c step.id) (ground arith);
      satisfied = every-All (has_status c StepStatus.succeeded) (needs_of step) satisfied;
    }

-- Each id that ready_steps answers belongs to a step of the definition, in a run that is open and
-- not compensating, such that the step is PENDING and all that it needs has SUCCEEDED.
pub ready_steps_sound :
    (spec : Spec) (c : Context) (sid : String)
    → Memᴰ sid (ready_steps spec c)
    → (step : Step) × Memᴰ step spec.steps × (step.id ≡ sid) × CanStart c step
unfolding ready_steps is_ready
ready_steps_sound spec c sid m = elim (Bool-cases (c.compensating || is_terminal c.status)) [
  | inl stop ↦ absurd (Memᴰ.not-nil (rw (stop, ready_steps) at m))
  | inr go ↦
      let (step, s, e, h) =
        ids_where_sound (is_ready c) spec.steps sid (rw (go, ready_steps) at m) in
      (step, s, e, starts c step go h)
]

is_ready_of : (c : Context) (step : Step) → CanStart c step → is_ready c step ≡ true
unfolding is_ready
is_ready_of c step h =
    ground (arith, All-every (has_status c StepStatus.succeeded) (needs_of step) h.satisfied)

-- ready_steps answers the id of each step of the definition that can start: the run is open and not
-- compensating, the step is PENDING and all that it needs has SUCCEEDED.
pub ready_steps_complete :
    (spec : Spec) (c : Context) (step : Step)
    → Memᴰ step spec.steps
    → CanStart c step
    → Memᴰ step.id (ready_steps spec c)
unfolding ready_steps
ready_steps_complete spec c step m h =
    let go : (c.compensating || is_terminal c.status) ≡ false = ground arith in
    rw (go, ready_steps) (ids_where_complete (is_ready c) spec.steps step m (is_ready_of c step h))

-- If a step is claimed (its status is not PENDING), ready_steps never answers its id again,
-- whatever events are applied.
pub claimed_never_ready :
    (spec : Spec) (c : Context) (es : List Event) (sid : String)
    → is_claimed (status_or_pending c sid) ≡ true
    → ¬ Memᴰ sid (ready_steps spec (apply_all c es))
claimed_never_ready spec c es sid h m =
    let (step, s, e, start) = ready_steps_sound spec (apply_all c es) sid m in
    cc (claimed-apply_all c es sid h, e, start.unclaimed)
