-- ===== src/Worker/Visit.antt =====
-- engine/worker.py: `run_once` and `execute_task`. A step is executed outside any transaction: `beat`
-- is what happens to the database meanwhile, and says whether the heartbeat saw the lease lost.
use nutanix_hack.Prelude.{
  ℕ, Bool, true, false, String, concat, Option, none, some, str_eq, or_else, if◌then◌else◌,
}
use nutanix_hack.Json.{empty_object}
use nutanix_hack.Spec.{Spec, Step, Compensation, steps_by_id}
use nutanix_hack.Plugins.{
  Plugin, Outside, Rendered, rendered, unrendered, render_raises, get_plugin, defers, should_defer,
}
use nutanix_hack.Queue.{Task, TaskKind, Env}
use nutanix_hack.Queue
use nutanix_hack.Replay.State.{EventType, no_payload, Context}
use nutanix_hack.Service.Exec.{type_error, data_error, raise, atomic, pure, ◌>>=◌, ◌>>◌}
use nutanix_hack.Service.Store.{Db, get_run, on_queue, too_long}
use nutanix_hack.Service.Log.{append_event, load_context}
use nutanix_hack.Worker.{
  execute_step, conclude, handle_deferral, record_terminal_failure, fail_terminally, if_owned,
  record_compensation,
}

-- Whether the step is to run now, and on which context.
pub data Visit : Type 0 where
  over : Visit
  runs : Context → Visit

unfoldable pub fire_timer : Step → Task → Context → Db Context
fire_timer step task c =
    if str_eq step.type "wait"
    then (do
      append_event task.run EventType.timer_fired task.step_id no_payload
      load_context task.run)
    else pure c

unfoldable pub start_step : Task → Context → Db Visit
start_step task c = do
  append_event task.run EventType.step_started task.step_id
      (record no_payload { attempt = some task.attempt })
  pure (runs c)

-- The branch of a deferring plugin, once its config is rendered.
unfoldable pub visit_deferring :
    Env → Outside → ℕ → Spec → Step → Plugin → Task → String → Context → Rendered → Db Visit
visit_deferring env outside now spec step plugin task worker c render_raises = raise type_error
visit_deferring env outside now spec step plugin task worker c (unrendered error) = do
  record_terminal_failure env now spec task error
  pure over
visit_deferring env outside now spec step plugin task worker c (rendered config) =
    if should_defer plugin c task.step_id
    then (do handle_deferral env outside now spec step plugin task worker config; pure over)
    else (do after ← fire_timer step task c; start_step task after)

-- `execute_task` up to STEP_STARTED.
unfoldable pub prepare :
    Env → Outside → ℕ → Spec → Step → Option Plugin → Task → String → Context → Db Visit
prepare env outside now spec step none task worker c = start_step task c
prepare env outside now spec step (some plugin) task worker c =
    if defers plugin
    then visit_deferring env outside now spec step plugin task worker c
        (outside.render (or_else step.config empty_object) c)
    else start_step task c

unfoldable pub run_step :
    Env → Outside → Db Bool → ℕ → Spec → Step → Task → String → Visit → Db Unit
run_step env outside beat now spec step task worker over = pure tt
run_step env outside beat now spec step task worker (runs c) = do
  lost ← beat
  outcome ← execute_step outside step.type step.config c task.idempotency_key task.step_id
  conclude env now spec step task worker lost outcome

-- `step.get("compensate") or {}`
abbrev pub no_compensation : Compensation
no_compensation = record { type = none; config = none; retry = none }

unfoldable pub run_compensation :
    Env → Outside → Db Bool → ℕ → Spec → Compensation → Task → String → Context → Db Unit
run_compensation env outside beat now spec comp task worker c = do
  lost ← beat
  outcome ←
      execute_step outside (or_else comp.type "noop") comp.config c task.idempotency_key
        task.step_id
  if_owned lost task worker (record_compensation env now spec comp.retry task outcome)

unfoldable pub execute_forward :
    Env → Outside → Db Bool → ℕ → Spec → Step → Task → String → Context → Db Unit
execute_forward env outside beat now spec step task worker c = do
  visit ← prepare env outside now spec step (get_plugin step.type) task worker c
  run_step env outside beat now spec step task worker visit

abbrev pub by_kind :
    TaskKind → Env → Outside → Db Bool → ℕ → Spec → Step → Task → String → Context → Db Unit
by_kind TaskKind.execute env outside beat now spec step task worker c =
    execute_forward env outside beat now spec step task worker c
by_kind TaskKind.compensate env outside beat now spec step task worker c =
    run_compensation env outside beat now spec (or_else step.compensate no_compensation) task worker
      c

unfoldable pub execute_found :
    Env → Outside → Db Bool → ℕ → Spec → Option Step → Task → String → Db Unit
execute_found env outside beat now spec none task worker =
    fail_terminally env now spec task
      (concat (concat "step " (outside.repr task.step_id)) " is not in this workflow definition")
execute_found env outside beat now spec (some step) task worker = do
  context ← load_context task.run
  by_kind task.kind env outside beat now spec step task worker context

unfoldable pub execute_task : Env → Outside → Db Bool → ℕ → Task → String → Db Unit
execute_task env outside beat now task worker = do
  run ← get_run task.run
  execute_found env outside beat now run.spec (steps_by_id run.spec task.step_id) task worker

unfoldable pub execute_claimed : Env → Outside → Db Bool → ℕ → String → Option Task → Db Bool
execute_claimed env outside beat now worker none = pure false
execute_claimed env outside beat now worker (some task) = do
  execute_task env outside beat now task worker
  pure true

-- The save of `claim_task`: the name of the worker has to fit `lease_owner`.
unfoldable pub check_owner : String → Option Task → Db (Option Task)
check_owner worker none = pure none
check_owner worker (some task) = if too_long worker then raise data_error else pure (some task)

unfoldable pub claim : Env → (ℕ → Bool) → String → ℕ → Db (Option Task)
claim env locked worker now =
    atomic (do task ← on_queue (Queue.claim_task env locked worker now); check_owner worker task)

unfoldable pub run_once : Env → Outside → Db Bool → (ℕ → Bool) → ℕ → String → Db Bool
run_once env outside beat locked now worker = do
  task ← claim env locked worker now
  execute_claimed env outside beat now worker task
