-- ===== src/Service/Examples.antt =====
-- A run of two steps from its start on: tests and instances.
use nutanix_hack.Prelude.{
  ℕ, ◌≡◌, refl, Bool, false, String, concat, Option, none, some, List, [], ◌∷◌, arith, ◌==◌,
  if◌then◌else◌,
}
use nutanix_hack.Prelude.Dict
use nutanix_hack.Prelude.Int.{pos, ◌≤ℤ◌}
use nutanix_hack.Json.{empty_object}
use nutanix_hack.Spec.{Step, Spec, absent}
use nutanix_hack.Retry.{base_delay_ms}
use nutanix_hack.Retry.Bounds.{base_delay_ms_bounded}
use nutanix_hack.Queue.{Task, TaskStatus, TaskKind, Env, Queue, next_expired}
use nutanix_hack.Replay.State.{RunState, Context, new_context}
use nutanix_hack.Queue
use nutanix_hack.Queue.{has_key, idempotency_key}
use nutanix_hack.Spec.{needs_of}
use nutanix_hack.Replay.State.{new_slot}
use nutanix_hack.Replay.Fold.{
  replay, apply_all, sort_events, apply_event, insert_event, note_completion, step_slot, transition,
  update_slot,
}
use nutanix_hack.Replay.Queries.{
  ready_steps, ids_where, is_ready, status_or_pending, compensation_order, failed_steps, has_status,
  is_complete, is_fatal, keep_where, must_unwind, next_run_state, steps_with_status,
}
use nutanix_hack.Service.Exec.{◌>>=◌, Result, ok, err}
use nutanix_hack.Prelude.Texts.{text_length}
use nutanix_hack.Service.Store.{too_long, Run, Store, get_run, put_run, on_queue}
use nutanix_hack.Service.Log.{
  append_event, append_attempts, has_seq, or_again, try_append, load_context,
}
use nutanix_hack.Service.Runs.{
  advance_run, queue_next, enqueue_ready_steps, enqueue_all, enqueue_step, close_run_if_finished,
  first_error, note_scheduled, sync_run_projection,
}
use nutanix_hack.Service.Reaper.{reap_expired_leases}
use nutanix_hack.Service.Gapless.{IsLogged, Keeps-put_run}
use nutanix_hack.Service.Stored.{IsStored}
use nutanix_hack.Service.Calls.{Call, starts, advances, after_all, after_all-IsStored}
use nutanix_hack.Service.Returns.{Returns}
use nutanix_hack.Service.Scheduled.{AreShort, IsAdvanced, advance_run-IsAdvanced}
use nutanix_hack.Queue.{count_where, is_expired}
use nutanix_hack.Service.Sweep.{expired, reap_expired_leases_enough}
use nutanix_hack.Service.Stuck.{IsBlocked}

abbrev attempt_text : ℕ → String
attempt_text n = if n == 1 then "1" else if n == 2 then "2" else "later"

-- A stand-in for the digest that tells the rows here apart.
abbrev env : Env
env = record {
  lease = 30;
  max_task_attempts = 5;
  max_task_attempts_text = "5";
  uniform = λ ms. 0;
  digest = λ run sid kind attempt. concat run (concat sid (attempt_text attempt));
}

abbrev step_needing : String → Step
step_needing sid = record {
  id = sid;
  type = "noop";
  needs = absent;
  config = none;
  on_error = none;
  retry = none;
  compensate = none;
}

abbrev one_step : Spec
one_step = record { name = "drain_only"; steps = step_needing "drain" ∷ [] }

abbrev empty_store : Store
empty_store = record { runs = []; queue = record { rows = []; next_id = 1 } }

empty_store-IsLogged : IsLogged empty_store
unfolding Dict.get
empty_store-IsLogged = record { at = λ rid run h. cc }

empty_store-IsStored : IsStored env empty_store
empty_store-IsStored = record {
  logged = empty_store-IsLogged;
  queued = record { ids = tt; keys = tt; rows_ok = tt };
}

abbrev day : List Call
day = starts 5 "run" one_step empty_object ∷ advances 6 "run" one_step ∷ []

after_all-IsStored_example : IsStored env (after_all env day empty_store)
after_all-IsStored_example = after_all-IsStored env day empty_store empty_store-IsStored

abbrev bare_run : Run
bare_run = record {
  spec = one_step;
  input = empty_object;
  events = [];
  last_seq = 0;
  status = RunState.running;
  context = new_context;
  error = "";
}

abbrev bare_store : Store
bare_store = record empty_store { runs = ("run", bare_run) ∷ [] }

bare_store-IsLogged : IsLogged bare_store
unfolding put_run Dict.set
bare_store-IsLogged =
    (Keeps-put_run "run" bare_run (record { numbered = tt; counted = refl })).at empty_store
      empty_store-IsLogged

there : Dict.get bare_store.runs "run" ≡ some bare_run
unfolding Dict.get
there = refl

short_id : AreShort one_step
unfolding too_long text_length
short_id = (refl, tt)

advance_run-IsAdvanced_example :
    Returns
      (IsAdvanced env "run" one_step (replay []))
      (advance_run env 5 "run" one_step bare_store)
advance_run-IsAdvanced_example =
    advance_run-IsAdvanced env 5 "run" one_step bare_store bare_run short_id bare_store-IsLogged
      there

abbrev advanced : Result Context × Store
advanced = advance_run env 5 "run" one_step bare_store

abbrev latest : Context
latest = elim advanced.0 [ ok c ↦ c | err _ ↦ new_context ]

returns : advance_run env 5 "run" one_step bare_store ≡ (ok latest, advanced.1)
unfolding advance_run ◌>>=◌ load_context get_run Dict.get queue_next replay apply_all sort_events
    new_context enqueue_ready_steps enqueue_all ready_steps ids_where is_ready status_or_pending
    needs_of enqueue_step Dict.set Queue.enqueue_step has_key idempotency_key apply_event
    insert_event note_completion step_slot transition update_slot compensation_order failed_steps
    has_status is_complete is_fatal keep_where must_unwind next_run_state steps_with_status new_slot
    append_attempts append_event has_seq or_again try_append close_run_if_finished first_error
    note_scheduled too_long text_length sync_run_projection on_queue put_run
returns = refl

abbrev task : ℕ → ℕ → TaskStatus → Option ℕ → String → Task
task id attempt status expiry key = record {
  id = id;
  run = "run";
  step_id = "drain";
  kind = TaskKind.execute;
  attempt = attempt;
  status = status;
  run_after = 0;
  lease_owner = "";
  lease_expires_at = expiry;
  idempotency_key = key;
}

-- The deadline task of an approval, attempt 1, lost its worker; the decision queued attempt 2.
abbrev deadline_task : Task
deadline_task = task 1 1 TaskStatus.leased (some 9) "rundrain1"

abbrev stuck_store : Store
stuck_store = record {
  runs = ("run", bare_run) ∷ [];
  queue = record {
    rows = deadline_task ∷ task 2 2 TaskStatus.done none "rundrain2" ∷ [];
    next_id = 3;
  };
}

abbrev unlocked : ℕ → Bool
unlocked id = false

stuck_store-IsBlocked : IsBlocked env unlocked 10 stuck_store deadline_task
unfolding next_expired nutanix_hack.Queue.first_by nutanix_hack.Queue.is_expired
    nutanix_hack.Queue.key_taken nutanix_hack.Queue.idempotency_key
stuck_store-IsBlocked = record { oldest = refl; allowed = refl; taken = refl }

base_delay_ms_bounded_example :
    (pos 0 ≤ℤ base_delay_ms 9 none) × (base_delay_ms 9 none ≤ℤ pos 60000)
base_delay_ms_bounded_example = base_delay_ms_bounded none 500 60000 9 refl refl

-- A store with one expired task, whose next key is free.
abbrev expired_store : Store
expired_store = record stuck_store { queue = record { rows = deadline_task ∷ []; next_id = 3 } }

reap_expired_leases_enough_example :
    reap_expired_leases 5 env unlocked 10 expired_store
    ≡ reap_expired_leases 2 env unlocked 10 expired_store
unfolding expired count_where is_expired
reap_expired_leases_enough_example =
    reap_expired_leases_enough 2 5 env unlocked 10 expired_store (omega arith) (omega arith)
