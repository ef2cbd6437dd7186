-- ===== src/Worker/Examples.antt =====
-- A worker, a parked approval and a wait without a moment: instances.
use nutanix_hack.Prelude.{ℕ, ◌≡◌, refl, Bool, true, false, concat, arith, none, some, [], ◌∷◌}
use nutanix_hack.Prelude.Dict
use nutanix_hack.Json.{empty_object}
use nutanix_hack.Spec.{Step, Spec, absent}
use nutanix_hack.Plugins.{Outside, succeeded, rendered, resume_raises}
use nutanix_hack.Queue.{Task, TaskStatus, TaskKind, Env, is_held}
use nutanix_hack.Queue.Rows.{UniqueIds, find_task}
use nutanix_hack.Queue.Fencing.{holds}
use nutanix_hack.Replay.State.{
  EventType, no_payload, Event, RunState, StepStatus, Context, new_context, new_slot,
}
use nutanix_hack.Service.Exec.{ok, pure, Keeps-pure}
use nutanix_hack.Service.Store.{Run, Store, put_run}
use nutanix_hack.Service.Gapless.{IsLogged, Keeps-put_run}
use nutanix_hack.Worker.{conclude}
use nutanix_hack.Worker.Visit.{run_once}
use nutanix_hack.Worker.Fencing.{conclude_fenced}
use nutanix_hack.Worker.Logged.{run_once-IsStored}
use nutanix_hack.Service.Stored.{IsStored}

abbrev env : Env
env = record {
  lease = 30;
  max_task_attempts = 5;
  max_task_attempts_text = "5";
  uniform = λ ms. 0;
  digest = λ run sid kind attempt. concat run sid;
}

-- A world in which each act succeeds and no wait has a moment.
abbrev outside : Outside
outside = record {
  act = λ plugin config key. succeeded config;
  resume = λ plugin config now. resume_raises;
  render = λ config c. rendered config;
  show = λ value. "None";
  repr = λ text. text;
  unknown_type = λ type. "no plugin registered";
}

abbrev pause : Step
pause = record {
  id = "pause";
  type = "wait";
  needs = absent;
  config = none;
  on_error = none;
  retry = none;
  compensate = none;
}

abbrev one_step : Spec
one_step = record { name = "pause_only"; steps = pause ∷ [] }

abbrev task : Task
task = record {
  id = 1;
  run = "run";
  step_id = "pause";
  kind = TaskKind.execute;
  attempt = 1;
  status = TaskStatus.leased;
  run_after = 0;
  lease_owner = "ann";
  lease_expires_at = some 40;
  idempotency_key = "runpause";
}

abbrev ready_task : Task
ready_task = record task { status = TaskStatus.ready; lease_owner = ""; lease_expires_at = none }

abbrev leased_store : Store
leased_store = record { runs = []; queue = record { rows = task ∷ []; next_id = 2 } }

only_id : UniqueIds (task ∷ [])
unfolding find_task
only_id = (refl, tt)

only_ready : UniqueIds (ready_task ∷ [])
unfolding find_task
only_ready = (refl, tt)

bob_does_not_hold : holds 1 "bob" leased_store.queue ≡ false
unfolding holds find_task is_held
bob_does_not_hold = refl

ann_holds : holds 1 "ann" leased_store.queue ≡ true
unfolding holds find_task is_held
ann_holds = refl

conclude_fenced_example :
    conclude env 50 one_step pause task "bob" false (succeeded empty_object) leased_store
    ≡ (ok tt, leased_store)
conclude_fenced_example =
    conclude_fenced env 50 one_step pause task "bob" false (succeeded empty_object) leased_store
      only_id bob_does_not_hold

abbrev unlocked : ℕ → Bool
unlocked id = false

abbrev no_store : Store
no_store = record { runs = []; queue = record { rows = []; next_id = 1 } }

no_store-IsLogged : IsLogged no_store
unfolding Dict.get
no_store-IsLogged = record { at = λ rid run h. cc }

abbrev fresh_run : Run
fresh_run = record {
  spec = one_step;
  input = empty_object;
  events = [];
  last_seq = 0;
  status = RunState.running;
  context = new_context;
  error = "";
}

-- A run whose step is queued.
abbrev ready_store : Store
ready_store = record {
  runs = ("run", fresh_run) ∷ [];
  queue = record { rows = ready_task ∷ []; next_id = 2 };
}

ready_runs-IsLogged : IsLogged (record no_store { runs = ("run", fresh_run) ∷ [] })
unfolding put_run Dict.set
ready_runs-IsLogged =
    (Keeps-put_run "run" fresh_run (record { numbered = tt; counted = refl })).at no_store
      no_store-IsLogged

ready_store-IsStored : IsStored env ready_store
unfolding nutanix_hack.Queue.has_key nutanix_hack.Queue.idempotency_key
ready_store-IsStored = record {
  logged = record { at = ready_runs-IsLogged.at };
  queued = record {
    ids = only_ready;
    keys = (refl, tt);
    rows_ok = (
      record { below = omega arith; keyed = refl; leased = λ h. cc; unleased = λ h. (refl, refl) },
      tt,
    );
  };
}

run_once-IsStored_example :
    IsStored env (run_once env outside (pure false) unlocked 20 "ann" ready_store).1
run_once-IsStored_example =
    run_once-IsStored env outside (pure false) unlocked 20 "ann" ready_store (Keeps-pure false)
      ready_store-IsStored

abbrev asked : Context
asked = record new_context {
  steps =
      ("sign_off", record new_slot { status = StepStatus.waiting; approval_requested = true }) ∷ [];
}

abbrev granted : Event
granted = record {
  seq = 4;
  type = EventType.approval_granted;
  step_id = "sign_off";
  payload = no_payload;
}

abbrev recovered : Event
recovered = record {
  seq = 5;
  type = EventType.step_retry_scheduled;
  step_id = "pause";
  payload = no_payload;
}
