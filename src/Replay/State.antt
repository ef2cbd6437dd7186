-- ===== src/Replay/State.antt =====
-- engine/replay.py, engine/models.py: events, and the context that they are folded into.
use nutanix_hack.Prelude.{ℕ, Bool, true, false, String, Option, none, List, [], ◌==◌}
use nutanix_hack.Prelude.Dict.{Dict}
use nutanix_hack.Json.{Value, empty_object}

pub data StepStatus : Type 0 where
  pending scheduled running succeeded failed retry_scheduled waiting compensated : StepStatus

pub data RunState : Type 0 where
  pending running waiting compensating succeeded failed cancelled : RunState

-- `==` on statuses, which are texts that differ.
abbrev status_code : StepStatus → ℕ
status_code StepStatus.pending = 0
status_code StepStatus.scheduled = 1
status_code StepStatus.running = 2
status_code StepStatus.succeeded = 3
status_code StepStatus.failed = 4
status_code StepStatus.retry_scheduled = 5
status_code StepStatus.waiting = 6
status_code StepStatus.compensated = 7

abbrev pub same_status : StepStatus → StepStatus → Bool
same_status s t = status_code s == status_code t

abbrev pub is_terminal : RunState → Bool
is_terminal RunState.succeeded = true
is_terminal RunState.failed = true
is_terminal RunState.cancelled = true
is_terminal _ = false

-- CLAIMED_STEP_STATES: every status but PENDING.
abbrev pub is_claimed : StepStatus → Bool
is_claimed StepStatus.pending = false
is_claimed _ = true

-- `other` is a type that this version does not know.
pub data EventType : Type 0 where
  run_started step_scheduled step_started step_succeeded step_failed : EventType
  step_retry_scheduled timer_set timer_fired : EventType
  approval_requested approval_granted approval_denied : EventType
  compensation_started step_compensated compensation_failed : EventType
  run_succeeded run_failed run_cancelled : EventType
  other : String → EventType

-- The keys of a payload that the fold reads; a missing key is `none`.
pub record Payload : Type 0 where
  pub input : Option Value
  pub attempt : Option ℕ
  pub output : Option Value
  pub error : Option String
  pub prompt : Option Value
  pub approvers : Option Value
  pub deadline : Option ℕ
  pub actor : Option String
  pub comment : Option String

abbrev pub no_payload : Payload
no_payload = record {
  input = none;
  attempt = none;
  output = none;
  error = none;
  prompt = none;
  approvers = none;
  deadline = none;
  actor = none;
  comment = none;
}

pub record Event : Type 0 where
  pub seq : ℕ
  pub type : EventType
  pub step_id : String
  pub payload : Payload

-- A step's slot; the keys that only an approval writes are `none` until it does.
pub record Slot : Type 0 where
  pub status : StepStatus
  pub output : Option Value
  pub error : String
  pub attempts : ℕ
  pub compensated : Bool
  pub compensation_failed : Bool
  pub approval_requested : Bool
  pub approved : Bool
  pub approval_prompt : Option Value
  pub approvers : Option Value
  pub approval_deadline : Option ℕ
  pub approved_by : Option String
  pub approval_comment : Option String

pub record Context : Type 0 where
  pub input : Value
  pub steps : Dict Slot
  pub status : RunState
  pub compensating : Bool
  pub completion_order : List String
  pub error : String
  pub needs_manual_intervention : Bool
  pub last_seq : ℕ

unfoldable pub new_context : Context
new_context = record {
  input = empty_object;
  steps = [];
  status = RunState.pending;
  compensating = false;
  completion_order = [];
  error = "";
  needs_manual_intervention = false;
  last_seq = 0;
}

unfoldable pub new_slot : Slot
new_slot = record {
  status = StepStatus.pending;
  output = none;
  error = "";
  attempts = 0;
  compensated = false;
  compensation_failed = false;
  approval_requested = false;
  approved = false;
  approval_prompt = none;
  approvers = none;
  approval_deadline = none;
  approved_by = none;
  approval_comment = none;
}
