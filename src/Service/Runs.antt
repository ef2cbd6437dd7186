-- ===== src/Service/Runs.antt =====
-- engine/service.py: scheduling, compensation, projection and the end of a run.
use nutanix_hack.Prelude.{
  ℕ, Bool, false, true, not, ◌&&◌, String, concat, Option, none, some, List, [], ◌∷◌, str_eq,
  if◌then◌else◌,
}
use nutanix_hack.Prelude.Dict.{Dict}
use nutanix_hack.Spec.{Spec}
use nutanix_hack.Queue.{Task, TaskKind, Env}
use nutanix_hack.Queue
use nutanix_hack.Replay.State.{RunState, EventType, Payload, no_payload, Slot, Context}
use nutanix_hack.Replay.Queries.{ready_steps, compensation_order, next_run_state}
use nutanix_hack.Service.Exec.{data_error, pure, raise, ◌>>=◌, ◌>>◌}
use nutanix_hack.Service.Store.{Db, get_run, put_run, on_queue, too_long}
use nutanix_hack.Service.Log.{append_event, load_context}

unfoldable pub enqueue_step : Env → String → String → TaskKind → ℕ → ℕ → Db (Option Task)
enqueue_step env rid sid kind attempt run_after =
    if too_long sid
    then raise data_error
    else on_queue (Queue.enqueue_step env rid sid kind attempt run_after)

-- The rest of a round of `enqueue_ready_steps`: an event only for a task that is new.
unfoldable pub note_scheduled : String → String → Db (List Task) → Option Task → Db (List Task)
note_scheduled rid sid others none = others
note_scheduled rid sid others (some task) = do
  append_event rid EventType.step_scheduled sid no_payload
  created ← others
  pure (task ∷ created)

-- The loop of `enqueue_ready_steps` over the ids of the ready steps.
unfoldable pub enqueue_all : Env → ℕ → String → List String → Db (List Task)
enqueue_all env now rid [] = pure []
enqueue_all env now rid (sid ∷ rest) = do
  task ← enqueue_step env rid sid TaskKind.execute 1 now
  note_scheduled rid sid (enqueue_all env now rid rest) task

unfoldable pub enqueue_ready_steps : Env → ℕ → String → Spec → Context → Db (List Task)
enqueue_ready_steps env now rid spec c = enqueue_all env now rid (ready_steps spec c)

-- Exactly one task: the next step to unwind.
unfoldable pub enqueue_first : Env → ℕ → String → List String → Db (Option Task)
enqueue_first env now rid [] = pure none
enqueue_first env now rid (sid ∷ rest) = enqueue_step env rid sid TaskKind.compensate 1 now

unfoldable pub enqueue_next_compensation : Env → ℕ → String → Spec → Context → Db (Option Task)
enqueue_next_compensation env now rid spec c = enqueue_first env now rid (compensation_order spec c)

abbrev with_error : String → Payload
with_error error = record no_payload { error = some error }

-- The log keeps `failed_step` and `will_compensate` too, which the fold does not read.
unfoldable pub begin_unwinding : String → String → String → List String → Db Bool
begin_unwinding rid failed_step error [] = pure false
begin_unwinding rid failed_step error (sid ∷ rest) = do
  append_event rid EventType.compensation_started failed_step (with_error error)
  pure true

unfoldable pub start_compensation : String → Spec → Context → String → String → Db Bool
start_compensation rid spec c failed_step error =
    begin_unwinding rid failed_step error (compensation_order spec c)

-- `save(update_fields=["status", "context", "error", "updated_at"])`
unfoldable pub sync_run_projection : String → Spec → Context → Db Unit
sync_run_projection rid spec c = do
  run ← get_run rid
  put_run rid (record run { status = next_run_state spec c; context = c; error = c.error })

-- The loop of `_first_error` over the slots, in the dict's order.
first_slot_error : Dict Slot → String → String
first_slot_error [] otherwise = otherwise
first_slot_error ((sid, slot) ∷ rest) otherwise =
    if str_eq slot.error ""
    then first_slot_error rest otherwise
    else concat sid (concat ": " slot.error)

unfoldable pub first_error : Context → String
unfolding first_slot_error
first_error c = first_slot_error c.steps c.error

abbrev is_succeeded : RunState → Bool
is_succeeded RunState.succeeded = true
is_succeeded _ = false

abbrev is_failed : RunState → Bool
is_failed RunState.failed = true
is_failed _ = false

unfoldable pub close_run_if_finished : String → Spec → Context → Db Bool
unfolding first_error
close_run_if_finished rid spec c =
    let state = next_run_state spec c in
    if is_succeeded state && not (is_succeeded c.status)
    then (do append_event rid EventType.run_succeeded "" no_payload; pure true)
    else if is_failed state && not (is_failed c.status)
    then (do append_event rid EventType.run_failed "" (with_error (first_error c)); pure true)
    else pure false

-- The branch on `context["compensating"]`, of whose tasks nothing is read.
unfoldable pub queue_next : Env → ℕ → String → Spec → Context → Db Unit
queue_next env now rid spec c =
    if c.compensating
    then (do enqueue_next_compensation env now rid spec c; pure tt)
    else (do enqueue_ready_steps env now rid spec c; pure tt)

unfoldable pub advance_run : Env → ℕ → String → Spec → Db Context
advance_run env now rid spec = do
  context ← load_context rid
  queue_next env now rid spec context
  closed ← close_run_if_finished rid spec context
  latest ← if closed then load_context rid else pure context
  sync_run_projection rid spec latest
  pure latest
