-- ===== src/Worker.antt =====
-- engine/worker.py: what a worker does with a task that it has claimed.
pub mod Visit
pub mod Fencing
pub mod Kept
pub mod Logged
mod Examples
use nutanix_hack.Prelude.{
  ℕ, suc, ◌+◌, Bool, true, false, not, ◌&&◌, ◌||◌, String, concat, Option, none, some, str_eq,
  or_else, if◌then◌else◌,
}
use nutanix_hack.Json.{Value, str, arr, nil, empty_object}
use nutanix_hack.Spec.{Spec, Step, Compensation, RetryConfig, steps_by_id}
use nutanix_hack.Retry.{should_retry}
use nutanix_hack.Plugins.{
  Plugin, Outside, Outcome, succeeded, failed, Rendered, rendered, unrendered, render_raises,
  Resume, resume_at, resume_never, resume_raises, get_plugin, defers, should_defer, config_get,
  execute,
}
use nutanix_hack.Queue.{Task, TaskKind, Env, same_kind}
use nutanix_hack.Queue
use nutanix_hack.Replay.State.{EventType, Payload, no_payload, Context}
use nutanix_hack.Service.Exec.{plugin_error, type_error, pure, raise, ◌>>=◌, ◌>>◌, atomic}
use nutanix_hack.Service.Store.{Run, Store, Db, get_run, on_queue}
use nutanix_hack.Service.Log.{append_event, load_context}
use nutanix_hack.Service.Runs.{enqueue_step, start_compensation, sync_run_projection, advance_run}
use nutanix_hack.Service.Approval.{compensates}
use nutanix_hack.Service.Reaper.{schedule_retry}

unfoldable pub finish_task_if_owned : Task → String → Db Bool
finish_task_if_owned task worker = on_queue (Queue.finish_task_if_owned task.id worker)

abbrev with_output : Value → Payload
with_output output = record no_payload { output = some output }

abbrev with_error : String → Payload
with_error error = record no_payload { error = some error }

abbrev with_attempt : String → ℕ → Payload
with_attempt error attempt = record no_payload { error = some error; attempt = some attempt }

-- `_record_success`
unfoldable pub record_success : Env → ℕ → Spec → Task → Value → Db Unit
record_success env now spec task output = atomic (do
  append_event task.run EventType.step_succeeded task.step_id (with_output output)
  advance_run env now task.run spec
  pure tt)

-- The branch on `on_error` of a step that may not be in the definition.
unfoldable pub compensate_if_asked : Spec → Option Step → Task → String → Db Unit
compensate_if_asked spec none task error = pure tt
compensate_if_asked spec (some step) task error =
    if compensates step
    then (do
      context ← load_context task.run
      start_compensation task.run spec context task.step_id error
      pure tt)
    else pure tt

-- `_record_terminal_failure`
unfoldable pub record_terminal_failure : Env → ℕ → Spec → Task → String → Db Unit
record_terminal_failure env now spec task error = atomic (do
  append_event task.run EventType.step_failed task.step_id (with_attempt error task.attempt)
  compensate_if_asked spec (steps_by_id spec task.step_id) task error
  advance_run env now task.run spec
  pure tt)

-- `_fail_terminally`
unfoldable pub fail_terminally : Env → ℕ → Spec → Task → String → Db Unit
fail_terminally env now spec task error = atomic (do
  append_event task.run EventType.step_failed task.step_id (with_error error)
  on_queue (λ q. (tt, Queue.finish_task task.id q))
  advance_run env now task.run spec
  pure tt)

-- The block that queues the next attempt, of a step or of its compensation.
unfoldable pub retry_later : Env → ℕ → Spec → Option RetryConfig → Task → String → Db Unit
retry_later env now spec retry task error = atomic (do
  schedule_retry env now task.run retry task error
  context ← load_context task.run
  sync_run_projection task.run spec context)

-- `_execute_step`, of the type and the config that are executed.
abbrev run_plugin : Outside → Option Plugin → String → Value → Context → String → String → Outcome
run_plugin outside none type config c key sid = failed (outside.unknown_type type)
run_plugin outside (some plugin) type config c key sid = execute outside plugin config c key sid

-- An ExpressionError is a result; a TypeError of `render` is not caught.
unfoldable pub run_rendered : Outside → String → Rendered → Context → String → String → Db Outcome
run_rendered outside type render_raises c key sid = raise type_error
run_rendered outside type (unrendered error) c key sid = pure (failed error)
run_rendered outside type (rendered config) c key sid =
    pure (run_plugin outside (get_plugin type) type config c key sid)

unfoldable pub execute_step :
    Outside → String → Option Value → Context → String → String → Db Outcome
execute_step outside type config c key sid =
    run_rendered outside type (outside.render (or_else config empty_object) c) c key sid

-- `int(retry.get("max", ...))` of `max_attempts`, which may raise.
unfoldable pub check_max : Option RetryConfig → Db Unit
check_max none = pure tt
check_max (some retry) = if retry.max_is_int then pure tt else raise type_error

-- What is recorded of a result that the worker still owns.
unfoldable pub record_result : Env → ℕ → Spec → Step → Task → Outcome → Db Unit
record_result env now spec step task (succeeded output) = record_success env now spec task output
record_result env now spec step task (failed error) = do
  check_max step.retry
  if should_retry step.retry task.attempt
      then retry_later env now spec step.retry task error
      else record_terminal_failure env now spec task error

-- `beat.lost or not finish_task_if_owned(...)`, then the rest.
unfoldable pub if_owned : Bool → Task → String → Db Unit → Db Unit
if_owned lost task worker rest =
    if lost
    then pure tt
    else (do owned ← finish_task_if_owned task worker; if owned then rest else pure tt)

-- What `execute_task` does after the step has run.
unfoldable pub conclude : Env → ℕ → Spec → Step → Task → String → Bool → Outcome → Db Unit
conclude env now spec step task worker lost outcome =
    if_owned lost task worker (record_result env now spec step task outcome)

unfoldable pub request : String → Task → Value → Option ℕ → Db Unit
request type task config deadline =
    if str_eq type "approval"
    then (do
      append_event task.run EventType.approval_requested task.step_id (record no_payload {
        prompt = some (or_else (config_get config "prompt") (str ""));
        approvers = some (or_else (config_get config "approvers") (arr nil));
        deadline = deadline;
      })
      pure tt)
    else (do append_event task.run EventType.timer_set task.step_id no_payload; pure tt)

unfoldable pub wake_at : Env → Task → Option ℕ → Db Unit
wake_at env task none = pure tt
wake_at env task (some moment) = do
  enqueue_step env task.run task.step_id TaskKind.execute (suc task.attempt) moment
  pure tt

-- The transaction of `_handle_deferral`.
unfoldable pub park : Env → Spec → Step → Task → Value → Option ℕ → Db Unit
park env spec step task config moment = atomic (do
  request step.type task config moment
  wake_at env task moment
  context ← load_context task.run
  sync_run_projection task.run spec context)

unfoldable pub park_until : Env → Spec → Step → Task → Value → Resume → Db Unit
park_until env spec step task config resume_raises = raise plugin_error
park_until env spec step task config resume_never = park env spec step task config none
park_until env spec step task config (resume_at moment) =
    park env spec step task config (some moment)

-- `_handle_deferral`; it asks for the moment once the task is finished.
unfoldable pub handle_deferral :
    Env → Outside → ℕ → Spec → Step → Plugin → Task → String → Value → Db Unit
handle_deferral env outside now spec step plugin task worker config =
    if_owned false task worker
      (park_until env spec step task config (outside.resume plugin config now))

-- `_run_compensation` after the step has run.
unfoldable pub record_compensation : Env → ℕ → Spec → Option RetryConfig → Task → Outcome → Db Unit
record_compensation env now spec retry task (succeeded output) = atomic (do
  append_event task.run EventType.step_compensated task.step_id (with_output output)
  advance_run env now task.run spec
  pure tt)
record_compensation env now spec retry task (failed error) = do
  check_max retry
  if should_retry retry task.attempt
      then retry_later env now spec retry task error
      else atomic (do
        append_event task.run EventType.compensation_failed task.step_id
            (with_error (concat (concat "could not undo " task.step_id) (concat ": " error)))
        advance_run env now task.run spec
        pure tt)
