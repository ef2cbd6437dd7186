-- ===== src/Service/Approval.antt =====
-- engine/service.py: `resolve_approval`, a person's decision on a parked step.
use nutanix_hack.Prelude.{
  ℕ, Bool, false, true, String, concat, Option, none, some, str_eq, if◌then◌else◌,
}
use nutanix_hack.Prelude.Dict
use nutanix_hack.Spec.{Spec, Step, OnError, steps_by_id}
use nutanix_hack.Queue.{Task, TaskKind, Env}
use nutanix_hack.Queue
use nutanix_hack.Replay.State.{
  StepStatus, EventType, Payload, no_payload, Slot, Context, same_status,
}
use nutanix_hack.Service.Exec.{
  approval_error, bad_decision, unknown_step, not_requested, already_approved, not_waiting,
  not_queued, pure, raise, gets, atomic, ◌>>=◌, ◌>>◌,
}
use nutanix_hack.Service.Store.{Db, get_run}
use nutanix_hack.Service.Log.{append_event, load_context}
use nutanix_hack.Service.Runs.{enqueue_step, start_compensation, advance_run}

unfoldable pub next_attempt : String → String → TaskKind → Db ℕ
next_attempt rid sid kind = gets (λ s. Queue.next_attempt rid sid kind s.queue)

-- The three guards on the slot, in their order; a slot that is not there asked for nothing.
unfoldable pub check_slot : String → Option Slot → Db Unit
check_slot sid none = raise (approval_error (not_requested sid))
check_slot sid (some slot) =
    if slot.approval_requested
    then (if slot.approved
        then raise (approval_error (already_approved sid))
        else if same_status slot.status StepStatus.waiting
        then pure tt
        else raise (approval_error (not_waiting sid)))
    else raise (approval_error (not_requested sid))

abbrev grant_payload : String → String → Payload
grant_payload actor comment = record no_payload { actor = some actor; comment = some comment }

-- `f"approval denied by {actor or 'unknown'}" + (f": {comment}" if comment else "")`
abbrev denial_error : String → String → String
denial_error actor comment =
    concat (concat "approval denied by " (if str_eq actor "" then "unknown" else actor))
      (if str_eq comment "" then "" else concat ": " comment)

abbrev deny_payload : String → String → Payload
deny_payload actor comment = record no_payload {
  actor = some actor;
  comment = some comment;
  error = some (denial_error actor comment);
}

unfoldable pub or_not_queued : String → Option Task → Db Unit
or_not_queued sid none = raise (approval_error (not_queued sid))
or_not_queued sid (some task) = pure tt

unfoldable pub grant : Env → ℕ → String → String → String → String → Db Unit
grant env now rid sid actor comment = do
  append_event rid EventType.approval_granted sid (grant_payload actor comment)
  attempt ← next_attempt rid sid TaskKind.execute
  queued ← enqueue_step env rid sid TaskKind.execute attempt now
  or_not_queued sid queued

-- `step.get("on_error") == "compensate"`
unfoldable pub compensates : Step → Bool
compensates step = elim step.on_error [
  | none ↦ false
  | some e ↦ elim e [ OnError.compensate ↦ true | _ ↦ false ]
]

unfoldable pub deny : String → Spec → Step → String → String → String → Db Unit
deny rid spec step sid actor comment = do
  append_event rid EventType.approval_denied sid (deny_payload actor comment)
  if compensates step
      then (do
        context ← load_context rid
        start_compensation rid spec context sid "approval denied"
        pure tt)
      else pure tt

-- The block under `transaction.atomic()`.
unfoldable pub decide_step :
    Env → ℕ → String → Spec → Step → String → Bool → String → String → Db Unit
decide_step env now rid spec step sid approve actor comment = atomic (do
  context ← load_context rid
  check_slot sid (Dict.get context.steps sid)
  if approve then grant env now rid sid actor comment else deny rid spec step sid actor comment
  advance_run env now rid spec
  pure tt)

unfoldable pub resolve_step :
    Env → ℕ → String → Spec → Option Step → String → Bool → String → String → Db Context
resolve_step env now rid spec none sid approve actor comment =
    raise (approval_error (unknown_step sid))
resolve_step env now rid spec (some step) sid approve actor comment = do
  decide_step env now rid spec step sid approve actor comment
  load_context rid

unfoldable pub resolve_approval : Env → ℕ → String → String → String → String → String → Db Context
resolve_approval env now rid sid decision actor comment =
    if str_eq decision "approve"
    then (do
      run ← get_run rid
      resolve_step env now rid run.spec (steps_by_id run.spec sid) sid true actor comment)
    else if str_eq decision "deny"
    then (do
      run ← get_run rid
      resolve_step env now rid run.spec (steps_by_id run.spec sid) sid false actor comment)
    else raise (approval_error bad_decision)
