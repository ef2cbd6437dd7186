-- ===== src/Service/Reaper.antt =====
-- engine/service.py: `schedule_retry`, `start_run`, and the reaper of expired leases.
use nutanix_hack.Prelude.{
  ℕ, zero, suc, ◌+◌, Bool, String, concat, Option, none, some, List, [], ◌∷◌, ltb, str_eq,
  if◌then◌else◌,
}
use nutanix_hack.Json.{Value}
use nutanix_hack.Spec.{Spec, RetryConfig}
use nutanix_hack.Retry.{base_delay_ms}
use nutanix_hack.Queue.{Task, TaskKind, Env, requeued}
use nutanix_hack.Queue
use nutanix_hack.Replay.State.{RunState, EventType, Payload, no_payload, new_context}
use nutanix_hack.Service.Exec.{integrity_error, type_error, pure, raise, gets, atomic, ◌>>=◌, ◌>>◌}
use nutanix_hack.Service.Store.{Run, Db, get_run, put_run, on_queue}
use nutanix_hack.Service.Log.{append_event, load_context}
use nutanix_hack.Service.Runs.{
  enqueue_step, enqueue_ready_steps, sync_run_projection, close_run_if_finished,
}

abbrev failure : String → ℕ → Payload
failure error attempt = record no_payload { error = some error; attempt = some attempt }

-- `int(retry.get("base_ms", ...))` and `max_ms` of `base_delay_ms`, which may raise.
unfoldable pub check_delays : Option RetryConfig → Db Unit
check_delays none = pure tt
check_delays (some retry) = if retry.delays_are_ints then pure tt else raise type_error

-- The delay is drawn below the backoff of the attempt that failed.
unfoldable pub schedule_retry : Env → ℕ → String → Option RetryConfig → Task → String → Db Unit
schedule_retry env now rid retry task error = do
  check_delays retry
  append_event rid EventType.step_failed task.step_id (failure error task.attempt)
  append_event rid EventType.step_retry_scheduled task.step_id (failure error task.attempt)
  enqueue_step env rid task.step_id task.kind (suc task.attempt)
      (now + env.uniform (base_delay_ms task.attempt retry))
  pure tt

abbrev pub new_run : Spec → Value → Run
new_run spec input = record {
  spec = spec;
  input = input;
  events = [];
  last_seq = 0;
  status = RunState.running;
  context = new_context;
  error = "";
}

-- `rid` is the fresh id of the row.
unfoldable pub start_run : Env → ℕ → String → Spec → Value → Db String
start_run env now rid spec input = atomic (do
  put_run rid (new_run spec input)
  append_event rid EventType.run_started "" (record no_payload { input = some input })
  context ← load_context rid
  enqueue_ready_steps env now rid spec context
  latest ← load_context rid
  sync_run_projection rid spec latest
  pure rid)

abbrev poison_error : Env → String → String
poison_error env dead_owner = concat (concat "step exceeded " env.max_task_attempts_text) (
    concat " attempts; last worker to die holding it was "
      (if str_eq dead_owner "" then "unknown" else dead_owner))

unfoldable pub fail_poisoned_step : Env → Task → Db Unit
fail_poisoned_step env task = do
  run ← get_run task.run
  append_event task.run EventType.step_failed task.step_id
      (record no_payload { error = some (poison_error env task.lease_owner) })
  context ← load_context task.run
  close_run_if_finished task.run run.spec context
  latest ← load_context task.run
  sync_run_projection task.run run.spec latest

pub data Outcome : Type 0 where
  poisoned recovered : Outcome

unfoldable pub saved : Option Queue.Queue → Db Unit
saved none = raise integrity_error
saved (some q) = on_queue (λ _. (tt, q))

-- `task.save(...)` of a task that is given back: the unique key may refuse it.
unfoldable pub requeue : Env → ℕ → Task → Db Unit
requeue env now task = do result ← gets (λ s. Queue.requeue env now task s.queue); saved result

unfoldable pub reap_task : Env → ℕ → Option Task → Db (Option (Task × Outcome))
reap_task env now none = pure none
reap_task env now (some task) =
    if ltb env.max_task_attempts (suc task.attempt)
    then (do
      on_queue (λ q. (tt, Queue.finish_task task.id q))
      fail_poisoned_step env task
      pure (some (task, poisoned)))
    else (do requeue env now task; pure (some (requeued env now task, recovered)))

-- The event of a recovered task is appended after the transaction.
unfoldable pub note_recovery : Option (Task × Outcome) → Db (Option (Task × Outcome))
note_recovery (some (task, recovered)) = do
  append_event task.run EventType.step_retry_scheduled task.step_id no_payload
  pure (some (task, recovered))
note_recovery other = pure other

-- One round of the loop of `reap_expired_leases`; `none` is its `break`.
unfoldable pub reap_one : Env → (ℕ → Bool) → ℕ → Db (Option (Task × Outcome))
reap_one env locked now = do
  done ←
      atomic (do found ← gets (λ s. Queue.next_expired locked now s.queue); reap_task env now found)
  note_recovery done

-- The test of the loop: `break`, or keep the result and go on.
unfoldable pub or_stop :
    Option (Task × Outcome) → Db (List (Task × Outcome)) → Db (List (Task × Outcome))
or_stop none others = pure []
or_stop (some result) others = do rest ← others; pure (result ∷ rest)

-- `while True`, with fuel: the rounds left.
unfoldable pub reap_expired_leases : ℕ → Env → (ℕ → Bool) → ℕ → Db (List (Task × Outcome))
reap_expired_leases zero env locked now = pure []
reap_expired_leases (suc n) env locked now = do
  one ← reap_one env locked now
  or_stop one (reap_expired_leases n env locked now)
