-- ===== src/Replay/Progress.antt =====
-- A run of a definition that `validate_spec` passed is never stuck: `ready_steps` of engine/replay.py
-- on needs without a cycle.
use mathlib.Core.List.{Memᴰ}
use mathlib.Core.List.Memᴰ
use nutanix_hack.Prelude.{
  ◌≡◌, refl, sym, ◌∙◌, subst, true, false, ◌⊎◌, String, none, some, List, [], ◌∷◌, arith, All,
  every, map, contains, str_eq, eq_iff, eq_refl, Bool-cases, inl, inr,
}
use nutanix_hack.Prelude.Dict
use nutanix_hack.Json.{Value}
use nutanix_hack.Spec.{Step, Spec, needs_of, step_ids}
use nutanix_hack.Spec.Cycle.{needs_in}
use nutanix_hack.Spec.Cycle.Places.{AllPlaced, ArePlaced}
use nutanix_hack.Spec.Cycle.{validate_spec}
use nutanix_hack.Spec.Read.{read_spec}
use nutanix_hack.Spec.Needed.{edges_in}
use nutanix_hack.Spec.Valid.{AreRunnable, IsDefinition, validate_spec-IsDefinition}
use nutanix_hack.Replay.State.{StepStatus, Context, is_claimed, is_terminal}
use nutanix_hack.Replay.Queries.{has_status, status_or_pending, ready_steps, is_complete}
use nutanix_hack.Replay.Readiness.{ready_steps_complete, unclaimed-pending}

-- A step that is claimed and has not SUCCEEDED: it is at work, waits, or has failed.
abbrev pub IsUnderway : Spec → Context → Type 0
IsUnderway spec c =
    (step : Step) × Memᴰ step spec.steps
    × (is_claimed (status_or_pending c step.id) ≡ true)
    × (has_status c StepStatus.succeeded step.id ≡ false)

abbrev pub Moves : Spec → Context → Type 0
Moves spec c = ((sid : String) × Memᴰ sid (ready_steps spec c)) ⊎ IsUnderway spec c

-- The step of an id, and what the engine finds of its needs.
record Found (steps : List Step) (sid : String) : Type 0 where
  step : Step
  member : Memᴰ step steps
  named : step.id ≡ sid
  needs : needs_in (edges_in steps) sid ≡ needs_of step

find :
    (steps : List Step) (sid : String)
    → contains (map (λ s. s.id) steps) sid ≡ true
    → Found steps sid
unfolding Dict.get
find [] sid h = cc h
find (s ∷ steps) sid h = elim (Bool-cases (str_eq s.id sid)) [
  | inl e ↦ record {
    step = s;
    member = Memᴰ.head refl;
    named = (eq_iff s.id sid).0 e;
    needs = rw (e, needs_in, Dict.get) refl;
  }
  | inr e ↦
      let rest = find steps sid (rw e at h) in
      record {
        step = rest.step;
        member = Memᴰ.tail rest.member;
        named = rest.named;
        needs = rw (e, needs_in, Dict.get) rest.needs;
      }
]

-- What a member of the list is known to need.
needs_known :
    (ids : List String) (steps : List Step) (step : Step)
    → AreRunnable ids steps
    → Memᴰ step steps
    → All (λ n. contains ids n ≡ true) (needs_of step)
needs_known ids [] step r m = absurd (Memᴰ.not-nil m)
needs_known ids (s ∷ steps) step r (Memᴰ.head e) =
    subst (λ (x : Step). All (λ n. contains ids n ≡ true) (needs_of x)) (sym e) r.0.1
needs_known ids (s ∷ steps) step r (Memᴰ.tail m) = needs_known ids steps step r.1 m

-- The steps among some ids have SUCCEEDED.
abbrev AreSucceeded : Spec → Context → List String → Type 0
AreSucceeded spec c placed =
    (n : String)
    → contains placed n ≡ true
    → contains (step_ids spec) n ≡ true
    → has_status c StepStatus.succeeded n ≡ true

needs_succeeded :
    (spec : Spec) (c : Context) (placed needs all : List String)
    → AreSucceeded spec c placed
    → ((n : String) → contains all n ≡ true → contains placed n ≡ true)
    → ((n : String) → contains needs n ≡ true → contains all n ≡ true)
    → All (λ n. contains (step_ids spec) n ≡ true) needs
    → All (λ n. has_status c StepStatus.succeeded n ≡ true) needs
needs_succeeded spec c placed [] all s p w k = tt
needs_succeeded spec c placed (n ∷ needs) all s p w k = (
  s n (p n (w n (rw (eq_refl n) refl))) k.0,
  needs_succeeded spec c placed needs all s p (λ x m. w x (ground arith)) k.1,
)

-- A step whose needs have SUCCEEDED has itself, or it can start, or it is underway.
step-cases :
    (spec : Spec) (c : Context) (step : Step)
    → c.compensating ≡ false
    → is_terminal c.status ≡ false
    → Memᴰ step spec.steps
    → All (λ n. has_status c StepStatus.succeeded n ≡ true) (needs_of step)
    → (has_status c StepStatus.succeeded step.id ≡ true) ⊎ Moves spec c
step-cases spec c step forward unended m needs =
    elim (Bool-cases (has_status c StepStatus.succeeded step.id)) [
      | inl done ↦ inl done
      | inr undone ↦ elim (Bool-cases (is_claimed (status_or_pending c step.id))) [
        | inl claimed ↦ inr (inr (step, m, claimed, undone))
        | inr free ↦ inr (
            inl (
              step.id,
              ready_steps_complete spec c step m (record {
                forward = forward;
                open_run = unended;
                unclaimed = unclaimed-pending (status_or_pending c step.id) free;
                satisfied = needs;
              }),
            ))
      ]
    ]

-- One id more.
placed-cases :
    (spec : Spec) (c : Context) (a : String) (placed : List String)
    → c.compensating ≡ false
    → is_terminal c.status ≡ false
    → AreRunnable (step_ids spec) spec.steps
    → AllPlaced (edges_in spec.steps) a placed
    → AreSucceeded spec c placed
    → AreSucceeded spec c (a ∷ placed) ⊎ Moves spec c
unfolding step_ids
placed-cases spec c a placed forward unended runnable needs s =
    elim (Bool-cases (contains (step_ids spec) a)) [
      | inr other ↦ inl (λ n m k. elim (Bool-cases (str_eq a n)) [
        | inl e ↦ let same : a ≡ n = (eq_iff a n).0 e in absurd (cc (same, other, k))
        | inr e ↦ s n (rw e at m) k
      ])
      | inl step ↦
          let f = find spec.steps a step in
          let satisfied =
            needs_succeeded spec c placed (needs_of f.step) (needs_in (edges_in spec.steps) a) s
              needs (λ n m. rw f.needs m)
              (needs_known (step_ids spec) spec.steps f.step runnable f.member) in
          elim (step-cases spec c f.step forward unended f.member satisfied) [
            | inr moves ↦ inr moves
            | inl done ↦ inl (λ n m k. elim (Bool-cases (str_eq a n)) [
              | inl e ↦
                  let same : f.step.id ≡ n = f.named ∙ (eq_iff a n).0 e in
                  subst (λ x. has_status c StepStatus.succeeded x ≡ true) same done
              | inr e ↦ s n (rw e at m) k
            ])
          ]
    ]

all_placed-cases :
    (spec : Spec) (c : Context) (placed : List String)
    → c.compensating ≡ false
    → is_terminal c.status ≡ false
    → AreRunnable (step_ids spec) spec.steps
    → ArePlaced (edges_in spec.steps) placed
    → AreSucceeded spec c placed ⊎ Moves spec c
all_placed-cases spec c [] forward unended runnable p = inl (λ n m k. cc m)
all_placed-cases spec c (a ∷ placed) forward unended runnable p =
    elim (all_placed-cases spec c placed forward unended runnable p.1) [
      | inr moves ↦ inr moves
      | inl s ↦ placed-cases spec c a placed forward unended runnable p.0 s
    ]

complete_if :
    (c : Context) (steps : List Step)
    → ((n : String)
        → contains (map (λ s. s.id) steps) n ≡ true
        → has_status c StepStatus.succeeded n ≡ true)
    → every (λ s. has_status c StepStatus.succeeded s.id) steps ≡ true
complete_if c [] h = refl
complete_if c (s ∷ steps) h =
    let here = h s.id (rw (eq_refl s.id) refl) in
    let rest = complete_if c steps (λ n m. h n (ground arith)) in ground (arith, here, rest)

definition_never_stuck :
    (v : Value) (d : IsDefinition v) (c : Context)
    → c.compensating ≡ false
    → is_terminal c.status ≡ false
    → (is_complete d.spec c ≡ true) ⊎ Moves d.spec c
unfolding is_complete step_ids
definition_never_stuck v d c forward unended =
    elim (all_placed-cases d.spec c d.acyclic.placed forward unended d.runnable d.acyclic.ordered) [
      | inr moves ↦ inr moves
      | inl s ↦ inl (complete_if c d.spec.steps (λ n k. s n (d.acyclic.covers n k) k))
    ]

-- If validate_spec passes a value that the engine can read, and a context is neither compensating
-- nor ended, then all steps have SUCCEEDED, or ready_steps answers a step, or some step is claimed
-- and has not SUCCEEDED: a run never stops for the shape of its definition.
pub never_stuck :
    (v : Value) (spec : Spec) (c : Context)
    → validate_spec v ≡ none
    → read_spec v ≡ some spec
    → c.compensating ≡ false
    → is_terminal c.status ≡ false
    → (is_complete spec c ≡ true) ⊎ Moves spec c
never_stuck v spec c valid reads forward unended =
    let d = validate_spec-IsDefinition v valid in
    let same : d.spec ≡ spec = cc (d.read, reads) in
    subst (λ s. (is_complete s c ≡ true) ⊎ Moves s c) same
      (definition_never_stuck v d c forward unended)
