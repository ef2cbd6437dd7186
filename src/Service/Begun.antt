-- ===== src/Service/Begun.antt =====
-- About `start_run` of engine/service.py: the first steps of a run.
use nutanix_hack.Prelude.{◌≡◌, true, String, some, List, [], All, map, is_empty}
use nutanix_hack.Prelude.Dict
use nutanix_hack.Json.{Value}
use nutanix_hack.Spec.{Spec, needs_of}
use nutanix_hack.Queue.{TaskKind, Env, has_key, idempotency_key}
use nutanix_hack.Replay.State.{EventType, no_payload, Event}
use nutanix_hack.Replay.Queries.{ids_where}
use nutanix_hack.Service.Store.{Run, Store}
use nutanix_hack.Service.Returns.{Returns}
use nutanix_hack.Service.Live.{IsLive}

-- The steps that need nothing, in spec order.
abbrev pub entry_steps : Spec → List String
entry_steps spec = ids_where (λ step. is_empty (needs_of step)) spec.steps

abbrev started : Value → Event
started input = record {
  seq = 1;
  type = EventType.run_started;
  step_id = "";
  payload = record no_payload { input = some input };
}

-- The run is there, and each step that needs nothing has a task.
pub record IsBegun (env : Env) (rid : String) (spec : Spec) (id : String) (s : Store) : Type 0 where
  pub answered : id ≡ rid
  pub row : Run
  pub there : Dict.get s.runs rid ≡ some row
  pub queued :
      All
        (λ key. has_key s.queue.rows key ≡ true)
        (map (λ sid. idempotency_key env rid sid TaskKind.execute 1) (entry_steps spec))

-- The row of the run.
abbrev IsRow : String → Run → Store → Type 0
IsRow rid run s = (live : IsLive rid [] s) × (live.row ≡ run)
