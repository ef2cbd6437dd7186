-- ===== src/Service/Kept/Requests.antt =====
-- What `resolve_approval`, `schedule_retry`, `start_run` and the ends of the reaper's rounds in
-- engine/service.py keep.
use nutanix_hack.Prelude.{ℕ, Bool, true, false, String, Option, none, some, str_eq}
use nutanix_hack.Json.{Value}
use nutanix_hack.Spec.{Spec, Step, RetryConfig, steps_by_id}
use nutanix_hack.Queue.{Task, TaskKind, Env}
use nutanix_hack.Replay.State.{Slot}
use nutanix_hack.Service.Exec.{
  Keeps, keeps_rules, Keeps-bind, Keeps-pure, Keeps-raise, Keeps-gets, Keeps-if, ◌>>=◌,
}
use nutanix_hack.Service.Store.{Store, get_run}
use nutanix_hack.Service.Approval.{
  next_attempt, check_slot, or_not_queued, grant, deny, decide_step, resolve_step, resolve_approval,
}
use nutanix_hack.Service.Reaper.{
  check_delays, Outcome, schedule_retry, start_run, fail_poisoned_step, note_recovery,
}
use nutanix_hack.Service.Kept.{
  Basics, get_run-Keeps, load_context-Keeps, close_run_if_finished-Keeps, enqueue_ready_steps-Keeps,
  start_compensation-Keeps, advance_run-Keeps,
}

module _ (env : Env) (P : Store → Type 0) (b : Basics env P) where
  check_slot-Keeps : (sid : String) (slot : Option Slot) → Keeps P (check_slot sid slot)
  unfolding check_slot
  check_slot-Keeps sid none = Keeps-raise _
  check_slot-Keeps sid (some slot) =
      Keeps-if _ _ _
        (Keeps-if _ _ _ (Keeps-raise _) (Keeps-if _ _ _ (Keeps-pure _) (Keeps-raise _)))
        (Keeps-raise _)

  or_not_queued-Keeps : (sid : String) (task : Option Task) → Keeps P (or_not_queued sid task)
  unfolding or_not_queued
  or_not_queued-Keeps sid none = Keeps-raise _
  or_not_queued-Keeps sid (some task) = Keeps-pure _

  next_attempt-Keeps : (rid sid : String) (kind : TaskKind) → Keeps P (next_attempt rid sid kind)
  unfolding next_attempt
  next_attempt-Keeps rid sid kind = Keeps-gets _

  grant-Keeps :
      (now : ℕ) (rid sid actor comment : String) → Keeps P (grant env now rid sid actor comment)
  unfolding grant
  grant-Keeps now rid sid actor comment =
      search (keeps_rules, b.appended, b.enqueued, next_attempt-Keeps, or_not_queued-Keeps) depth 12

  deny-Keeps :
      (rid : String) (spec : Spec) (step : Step) (sid actor comment : String)
      → Keeps P (deny rid spec step sid actor comment)
  unfolding deny
  deny-Keeps rid spec step sid actor comment =
      search (keeps_rules, b.appended, load_context-Keeps, start_compensation-Keeps env P b) depth
        12

  decide_step-Keeps :
      (now : ℕ) (rid : String) (spec : Spec) (step : Step) (sid : String) (approve : Bool)
      (actor comment : String)
      → Keeps P (decide_step env now rid spec step sid approve actor comment)
  unfolding decide_step
  decide_step-Keeps now rid spec step sid approve actor comment =
      search
        (
          keeps_rules,
          load_context-Keeps,
          check_slot-Keeps,
          grant-Keeps,
          deny-Keeps,
          advance_run-Keeps env P b,
        )
        depth 12

  resolve_step-Keeps :
      (now : ℕ) (rid : String) (spec : Spec) (step : Option Step) (sid : String) (approve : Bool)
      (actor comment : String)
      → Keeps P (resolve_step env now rid spec step sid approve actor comment)
  unfolding resolve_step
  resolve_step-Keeps now rid spec none sid approve actor comment = Keeps-raise _
  resolve_step-Keeps now rid spec (some step) sid approve actor comment =
      Keeps-bind _ _ (decide_step-Keeps _ _ _ _ _ _ _ _) (λ _. load_context-Keeps rid)

  either_way-Keeps :
      (now : ℕ) (rid sid : String) (approve : Bool) (actor comment : String)
      → Keeps P (
          get_run rid >>= λ run.
          resolve_step env now rid run.spec (steps_by_id run.spec sid) sid approve actor comment)
  either_way-Keeps now rid sid approve actor comment = Keeps-bind _ _ (get_run-Keeps rid) λ run.
      resolve_step-Keeps now rid run.spec (steps_by_id run.spec sid) sid approve actor comment

  pub resolve_approval-Keeps :
      (now : ℕ) (rid sid decision actor comment : String)
      → Keeps P (resolve_approval env now rid sid decision actor comment)
  unfolding resolve_approval
  resolve_approval-Keeps now rid sid decision actor comment =
      Keeps-if (str_eq decision "approve") _ _ (either_way-Keeps now rid sid true actor comment) (
        Keeps-if (str_eq decision "deny") _ _ (either_way-Keeps now rid sid false actor comment)
          (Keeps-raise _))

  check_delays-Keeps : (retry : Option RetryConfig) → Keeps P (check_delays retry)
  unfolding check_delays
  check_delays-Keeps none = Keeps-pure _
  check_delays-Keeps (some retry) = search keeps_rules depth 12

  pub schedule_retry-Keeps :
      (now : ℕ) (rid : String) (retry : Option RetryConfig) (task : Task) (error : String)
      → Keeps P (schedule_retry env now rid retry task error)
  unfolding schedule_retry
  schedule_retry-Keeps now rid retry task error =
      search (keeps_rules, b.appended, b.enqueued, check_delays-Keeps) depth 12

  pub start_run-Keeps :
      (now : ℕ) (rid : String) (spec : Spec) (input : Value)
      → Keeps P (start_run env now rid spec input)
  unfolding start_run
  start_run-Keeps now rid spec input =
      search
        (
          keeps_rules,
          b.created,
          b.appended,
          load_context-Keeps,
          enqueue_ready_steps-Keeps env P b,
          b.synced,
        )
        depth 16

  pub fail_poisoned_step-Keeps : (task : Task) → Keeps P (fail_poisoned_step env task)
  unfolding fail_poisoned_step
  fail_poisoned_step-Keeps task =
      search
        (
          keeps_rules,
          get_run-Keeps,
          b.appended,
          load_context-Keeps,
          close_run_if_finished-Keeps env P b,
          b.synced,
        )
        depth 16

  pub note_recovery-Keeps : (done : Option (Task × Outcome)) → Keeps P (note_recovery done)
  unfolding note_recovery
  note_recovery-Keeps none = Keeps-pure _
  note_recovery-Keeps (some (task, Outcome.poisoned)) = Keeps-pure _
  note_recovery-Keeps (some (task, Outcome.recovered)) =
      Keeps-bind _ _ (b.appended _ _ _ _) (λ _. Keeps-pure _)
