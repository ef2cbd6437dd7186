-- ===== src/Worker/Kept.antt =====
-- What a round of engine/worker.py keeps, if the writes of the service keep it.
use nutanix_hack.Prelude.{ℕ, Bool, String, Option, none, some, or_else}
use nutanix_hack.Json.{Value}
use nutanix_hack.Spec.{Spec, Step, Compensation, RetryConfig, steps_by_id}
use nutanix_hack.Plugins.{
  Plugin, Outside, Outcome, succeeded, failed, Rendered, rendered, unrendered, render_raises,
  Resume, resume_at, resume_never, resume_raises,
}
use nutanix_hack.Replay.State.{Context}
use nutanix_hack.Queue.{Task, TaskKind, Env}
use nutanix_hack.Service.Exec.{
  Keeps, keeps_rules, Keeps-bind, Keeps-pure, Keeps-raise, Keeps-if, Keeps-atomic,
}
use nutanix_hack.Service.Store.{Store, Db}
use nutanix_hack.Service.Kept.{
  Basics, get_run-Keeps, load_context-Keeps, start_compensation-Keeps, advance_run-Keeps,
}
use nutanix_hack.Service.Kept.Requests.{schedule_retry-Keeps}
use nutanix_hack.Worker.{
  run_rendered, execute_step, check_max, finish_task_if_owned, record_success, compensate_if_asked,
  record_terminal_failure, fail_terminally, retry_later, record_result, if_owned, conclude, request,
  wake_at, park, park_until, handle_deferral, record_compensation,
}
use nutanix_hack.Worker.Visit.{
  check_owner, claim, Visit, over, runs, fire_timer, start_step, visit_deferring, prepare, run_step,
  run_compensation, execute_forward, execute_found, execute_task, execute_claimed, run_once,
  by_kind, no_compensation,
}

module _ (env : Env) (P : Store → Type 0) (b : Basics env P) where
  record_success-Keeps :
      (now : ℕ) (spec : Spec) (task : Task) (output : Value)
      → Keeps P (record_success env now spec task output)
  unfolding record_success
  record_success-Keeps now spec task output =
      search (keeps_rules, b.appended, advance_run-Keeps env P b) depth 12

  compensate_if_asked-Keeps :
      (spec : Spec) (step : Option Step) (task : Task) (error : String)
      → Keeps P (compensate_if_asked spec step task error)
  unfolding compensate_if_asked
  compensate_if_asked-Keeps spec none task error = Keeps-pure _
  compensate_if_asked-Keeps spec (some step) task error =
      search (keeps_rules, load_context-Keeps, start_compensation-Keeps env P b) depth 12

  record_terminal_failure-Keeps :
      (now : ℕ) (spec : Spec) (task : Task) (error : String)
      → Keeps P (record_terminal_failure env now spec task error)
  unfolding record_terminal_failure
  record_terminal_failure-Keeps now spec task error =
      search (keeps_rules, b.appended, advance_run-Keeps env P b, compensate_if_asked-Keeps) depth
        12

  fail_terminally-Keeps :
      (now : ℕ) (spec : Spec) (task : Task) (error : String)
      → Keeps P (fail_terminally env now spec task error)
  unfolding fail_terminally
  fail_terminally-Keeps now spec task error =
      search (keeps_rules, b.appended, b.finished, advance_run-Keeps env P b) depth 12

  retry_later-Keeps :
      (now : ℕ) (spec : Spec) (retry : Option RetryConfig) (task : Task) (error : String)
      → Keeps P (retry_later env now spec retry task error)
  unfolding retry_later
  retry_later-Keeps now spec retry task error =
      search (keeps_rules, b.synced, load_context-Keeps, schedule_retry-Keeps env P b) depth 12

  check_max-Keeps : (retry : Option RetryConfig) → Keeps P (check_max retry)
  unfolding check_max
  check_max-Keeps none = Keeps-pure _
  check_max-Keeps (some retry) = search keeps_rules depth 12

  rendered-Keeps :
      (outside : Outside) (type : String) (config : Rendered) (c : Context) (key sid : String)
      → Keeps P (run_rendered outside type config c key sid)
  unfolding run_rendered
  rendered-Keeps outside type render_raises c key sid = Keeps-raise _
  rendered-Keeps outside type (unrendered error) c key sid = Keeps-pure _
  rendered-Keeps outside type (rendered config) c key sid = Keeps-pure _

  execute_step-Keeps :
      (outside : Outside) (type : String) (config : Option Value) (c : Context) (key sid : String)
      → Keeps P (execute_step outside type config c key sid)
  unfolding execute_step
  execute_step-Keeps outside type config c key sid = rendered-Keeps outside type _ c key sid

  record_result-Keeps :
      (now : ℕ) (spec : Spec) (step : Step) (task : Task) (outcome : Outcome)
      → Keeps P (record_result env now spec step task outcome)
  unfolding record_result
  record_result-Keeps now spec step task (succeeded output) =
      record_success-Keeps now spec task output
  record_result-Keeps now spec step task (failed error) =
      Keeps-bind _ _ (check_max-Keeps step.retry) (λ _.
        Keeps-if _ _ _ (retry_later-Keeps now spec step.retry task error)
          (record_terminal_failure-Keeps now spec task error))

  if_owned-Keeps :
      (lost : Bool) (task : Task) (worker : String) (rest : Db Unit)
      → Keeps P rest
      → Keeps P (if_owned lost task worker rest)
  unfolding if_owned finish_task_if_owned
  if_owned-Keeps lost task worker rest k =
      Keeps-if lost _ _ (Keeps-pure _)
        (Keeps-bind _ _ (b.finished_owned _ _) (λ owned. Keeps-if owned _ _ k (Keeps-pure _)))

  request-Keeps :
      (type : String) (task : Task) (config : Value) (deadline : Option ℕ)
      → Keeps P (request type task config deadline)
  unfolding request
  request-Keeps type task config deadline = search (keeps_rules, b.appended) depth 12

  wake_at-Keeps : (task : Task) (moment : Option ℕ) → Keeps P (wake_at env task moment)
  unfolding wake_at
  wake_at-Keeps task none = Keeps-pure _
  wake_at-Keeps task (some moment) = search (keeps_rules, b.enqueued) depth 12

  park-Keeps :
      (spec : Spec) (step : Step) (task : Task) (config : Value) (moment : Option ℕ)
      → Keeps P (park env spec step task config moment)
  unfolding park
  park-Keeps spec step task config moment =
      search (keeps_rules, b.synced, load_context-Keeps, request-Keeps, wake_at-Keeps) depth 12

  park_until-Keeps :
      (spec : Spec) (step : Step) (task : Task) (config : Value) (resume : Resume)
      → Keeps P (park_until env spec step task config resume)
  unfolding park_until
  park_until-Keeps spec step task config resume_raises = Keeps-raise _
  park_until-Keeps spec step task config resume_never = park-Keeps _ _ _ _ _
  park_until-Keeps spec step task config (resume_at moment) = park-Keeps _ _ _ _ _

  handle_deferral-Keeps :
      (outside : Outside) (now : ℕ) (spec : Spec) (step : Step) (plugin : Plugin) (task : Task)
      (worker : String) (config : Value)
      → Keeps P (handle_deferral env outside now spec step plugin task worker config)
  unfolding handle_deferral
  handle_deferral-Keeps outside now spec step plugin task worker config =
      if_owned-Keeps _ _ _ _ (park_until-Keeps _ _ _ _ _)

  record_compensation-Keeps :
      (now : ℕ) (spec : Spec) (retry : Option RetryConfig) (task : Task) (outcome : Outcome)
      → Keeps P (record_compensation env now spec retry task outcome)
  unfolding record_compensation
  record_compensation-Keeps now spec retry task (succeeded output) =
      search (keeps_rules, b.appended, advance_run-Keeps env P b) depth 12
  record_compensation-Keeps now spec retry task (failed error) =
      search
        (keeps_rules, b.appended, advance_run-Keeps env P b, retry_later-Keeps, check_max-Keeps)
        depth 12

  fire_timer-Keeps : (step : Step) (task : Task) (c : Context) → Keeps P (fire_timer step task c)
  unfolding fire_timer
  fire_timer-Keeps step task c = search (keeps_rules, b.appended, load_context-Keeps) depth 12

  start_step-Keeps : (task : Task) (c : Context) → Keeps P (start_step task c)
  unfolding start_step
  start_step-Keeps task c = search (keeps_rules, b.appended) depth 12

  visit_deferring-Keeps :
      (outside : Outside) (now : ℕ) (spec : Spec) (step : Step) (plugin : Plugin) (task : Task)
      (worker : String) (c : Context) (config : Rendered)
      → Keeps P (visit_deferring env outside now spec step plugin task worker c config)
  unfolding visit_deferring
  visit_deferring-Keeps outside now spec step plugin task worker c render_raises = Keeps-raise _
  visit_deferring-Keeps outside now spec step plugin task worker c (unrendered error) =
      Keeps-bind _ _ (record_terminal_failure-Keeps now spec task error) (λ _. Keeps-pure _)
  visit_deferring-Keeps outside now spec step plugin task worker c (rendered config) =
      search (keeps_rules, handle_deferral-Keeps, fire_timer-Keeps, start_step-Keeps) depth 12

  prepare-Keeps :
      (outside : Outside) (now : ℕ) (spec : Spec) (step : Step) (plugin : Option Plugin)
      (task : Task) (worker : String) (c : Context)
      → Keeps P (prepare env outside now spec step plugin task worker c)
  unfolding prepare
  prepare-Keeps outside now spec step none task worker c = start_step-Keeps task c
  prepare-Keeps outside now spec step (some plugin) task worker c =
      search (keeps_rules, visit_deferring-Keeps, start_step-Keeps) depth 12

module _ (env : Env) (P : Store → Type 0) (b : Basics env P) (outside : Outside) (beat : Db Bool)
    (beats : Keeps P beat) where
  run_step-Keeps :
      (now : ℕ) (spec : Spec) (step : Step) (task : Task) (worker : String) (visit : Visit)
      → Keeps P (run_step env outside beat now spec step task worker visit)
  unfolding run_step conclude
  run_step-Keeps now spec step task worker over = Keeps-pure _
  run_step-Keeps now spec step task worker (runs c) = Keeps-bind _ _ beats (λ lost.
      Keeps-bind _ _ (execute_step-Keeps env P b outside _ _ c _ _)
        (λ o. if_owned-Keeps env P b lost task worker _ (record_result-Keeps env P b _ _ _ _ _)))

  run_compensation-Keeps :
      (now : ℕ) (spec : Spec) (comp : Compensation) (task : Task) (worker : String) (c : Context)
      → Keeps P (run_compensation env outside beat now spec comp task worker c)
  unfolding run_compensation
  run_compensation-Keeps now spec comp task worker c = Keeps-bind _ _ beats (λ lost.
      Keeps-bind _ _ (execute_step-Keeps env P b outside _ _ c _ _) (λ o.
        if_owned-Keeps env P b lost task worker _ (record_compensation-Keeps env P b _ _ _ _ _)))

  by_kind-Keeps :
      (kind : TaskKind) (now : ℕ) (spec : Spec) (step : Step) (task : Task) (worker : String)
      (c : Context)
      → Keeps P (by_kind kind env outside beat now spec step task worker c)
  unfolding execute_forward
  by_kind-Keeps TaskKind.execute now spec step task worker c =
      Keeps-bind _ _ (prepare-Keeps env P b _ _ _ _ _ _ _ _)
        (λ visit. run_step-Keeps now spec step task worker visit)
  by_kind-Keeps TaskKind.compensate now spec step task worker c =
      run_compensation-Keeps now spec (or_else step.compensate no_compensation) task worker c

  execute_found-Keeps :
      (now : ℕ) (spec : Spec) (step : Option Step) (task : Task) (worker : String)
      → Keeps P (execute_found env outside beat now spec step task worker)
  unfolding execute_found
  execute_found-Keeps now spec none task worker = fail_terminally-Keeps env P b _ _ _ _
  execute_found-Keeps now spec (some step) task worker =
      Keeps-bind _ _ (load_context-Keeps task.run)
        (λ c. by_kind-Keeps task.kind now spec step task worker c)

  execute_claimed-Keeps :
      (now : ℕ) (worker : String) (task : Option Task)
      → Keeps P (execute_claimed env outside beat now worker task)
  unfolding execute_claimed execute_task
  execute_claimed-Keeps now worker none = Keeps-pure _
  execute_claimed-Keeps now worker (some task) =
      Keeps-bind _ _
        (Keeps-bind _ _ (get_run-Keeps task.run)
          (λ run. execute_found-Keeps now run.spec (steps_by_id run.spec task.step_id) task worker))
        (λ _. Keeps-pure _)

  check_owner-Keeps : (worker : String) (task : Option Task) → Keeps P (check_owner worker task)
  unfolding check_owner
  check_owner-Keeps worker none = Keeps-pure _
  check_owner-Keeps worker (some task) = search keeps_rules depth 12

  claim-Keeps :
      (locked : ℕ → Bool) (worker : String) (now : ℕ) → Keeps P (claim env locked worker now)
  unfolding claim
  claim-Keeps locked worker now =
      Keeps-atomic _ (Keeps-bind _ _ (b.claimed _ _ _) (λ task. check_owner-Keeps worker task))

  pub run_once-Keeps :
      (locked : ℕ → Bool) (now : ℕ) (worker : String)
      → Keeps P (run_once env outside beat locked now worker)
  unfolding run_once
  run_once-Keeps locked now worker =
      Keeps-bind _ _ (claim-Keeps locked worker now) (λ task. execute_claimed-Keeps now worker task)
