-- ===== src/Replay/Queries.antt =====
-- engine/replay.py: the questions that the engine asks of a context.
use nutanix_hack.Prelude.{
  Bool, true, false, ◌&&◌, ◌||◌, not, String, Option, none, some, List, [], ◌∷◌, reverse, every,
  is_empty, or_else, if◌then◌else◌,
}
use nutanix_hack.Prelude.Dict
use nutanix_hack.Json.{Value, str, arr, nil}
use nutanix_hack.Prelude.{ℕ}
use nutanix_hack.Spec.{Step, Spec, OnError, needs_of, steps_by_id}
use nutanix_hack.Replay.State.{
  StepStatus, RunState, Slot, Context, same_status, is_terminal, is_claimed,
}

-- `context["steps"].get(sid, {}).get("status") == status`
abbrev slot_has : StepStatus → Option Slot → Bool
slot_has status none = false
slot_has status (some slot) = same_status slot.status status

unfoldable pub has_status : Context → StepStatus → String → Bool
has_status c status sid = slot_has status (Dict.get c.steps sid)

-- `context["steps"].get(sid, {}).get("status", PENDING)`
abbrev slot_status : Option Slot → StepStatus
slot_status none = StepStatus.pending
slot_status (some slot) = slot.status

unfoldable pub status_or_pending : Context → String → StepStatus
status_or_pending c sid = slot_status (Dict.get c.steps sid)

-- The test of the loop in `ready_steps`.
unfoldable pub is_ready : Context → Step → Bool
is_ready c step =
    not (is_claimed (status_or_pending c step.id))
    && every (has_status c StepStatus.succeeded) (needs_of step)

-- The ids of the steps that pass a test, in spec order.
unfoldable pub ids_where : (Step → Bool) → List Step → List String
ids_where p [] = []
ids_where p (s ∷ rest) = let tail = ids_where p rest in if p s then s.id ∷ tail else tail

unfoldable pub ready_steps : Spec → Context → List String
ready_steps spec c =
    if c.compensating || is_terminal c.status then [] else ids_where (is_ready c) spec.steps

-- `slot.get("compensated") or slot.get("compensation_failed")`, of a slot that may be absent
abbrev slot_unwound : Option Slot → Bool
slot_unwound none = false
slot_unwound (some slot) = slot.compensated || slot.compensation_failed

unfoldable pub is_unwound : Context → String → Bool
is_unwound c sid = slot_unwound (Dict.get c.steps sid)

-- `step and step.get("compensate")`
unfoldable pub has_compensation : Spec → String → Bool
has_compensation spec sid = elim (steps_by_id spec sid) [
  | none ↦ false
  | some step ↦ elim step.compensate [ none ↦ false | some _ ↦ true ]
]

unfoldable pub must_unwind : Spec → Context → String → Bool
must_unwind spec c sid = has_compensation spec sid && not (is_unwound c sid)

unfoldable pub keep_where : (String → Bool) → List String → List String
keep_where p [] = []
keep_where p (sid ∷ rest) = let tail = keep_where p rest in if p sid then sid ∷ tail else tail

unfoldable pub compensation_order : Spec → Context → List String
compensation_order spec c = keep_where (must_unwind spec c) (reverse c.completion_order)

unfoldable pub is_complete : Spec → Context → Bool
is_complete spec c = every (λ s. has_status c StepStatus.succeeded s.id) spec.steps

-- `s.get("on_error", "fail") != "continue"`
unfoldable pub is_fatal : Step → Bool
is_fatal s = elim s.on_error [
  | none ↦ true
  | some e ↦ elim e [ OnError.continue ↦ false | _ ↦ true ]
]

unfoldable pub failed_steps : Spec → Context → List String
failed_steps spec c = ids_where (λ s. has_status c StepStatus.failed s.id && is_fatal s) spec.steps

unfoldable pub steps_with_status : Spec → Context → StepStatus → List String
steps_with_status spec c status = ids_where (λ s. has_status c status s.id) spec.steps

abbrev pub waiting_steps : Spec → Context → List String
waiting_steps spec c = steps_with_status spec c StepStatus.waiting

abbrev pub running_steps : Spec → Context → List String
running_steps spec c = steps_with_status spec c StepStatus.running

unfoldable pub next_run_state : Spec → Context → RunState
next_run_state spec c =
    if is_terminal c.status
    then c.status
    else if c.compensating
    then (if is_empty (compensation_order spec c) then RunState.failed else RunState.compensating)
    else if not (is_empty (failed_steps spec c))
    then RunState.failed
    else if is_complete spec c
    then RunState.succeeded
    else if not (is_empty (waiting_steps spec c)) && is_empty (running_steps spec c)
    then RunState.waiting
    else RunState.running

-- An entry of `pending_approvals`.
pub record PendingApproval : Type 0 where
  pub step_id : String
  pub prompt : Value
  pub approvers : Value
  pub deadline : Option ℕ

unfoldable pub is_awaiting : Slot → Bool
is_awaiting slot =
    slot.approval_requested && not slot.approved && same_status slot.status StepStatus.waiting

ask : String → Slot → PendingApproval
ask sid slot = record {
  step_id = sid;
  prompt = or_else slot.approval_prompt (str "");
  approvers = or_else slot.approvers (arr nil);
  deadline = slot.approval_deadline;
}

approvals_of : Context → List Step → List PendingApproval
approvals_of c [] = []
approvals_of c (s ∷ rest) =
    let tail = approvals_of c rest in
    elim (Dict.get c.steps s.id) [
      | none ↦ tail
      | some slot ↦ if is_awaiting slot then ask s.id slot ∷ tail else tail
    ]

unfoldable pub pending_approvals : Spec → Context → List PendingApproval
unfolding approvals_of ask
pending_approvals spec c = approvals_of c spec.steps
