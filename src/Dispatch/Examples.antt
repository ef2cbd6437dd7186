-- ===== src/Dispatch/Examples.antt =====
-- An employee who moves to Engineering, and the triggers that listen: tests and instances.
use nutanix_hack.Prelude.{◌≡◌, refl, true, false, none, some, [], ◌∷◌, every, not, arith}
use nutanix_hack.Prelude.Dict
use nutanix_hack.Prelude.Texts.{split}
use nutanix_hack.Json.{Fields, null, str, obj, end, field, get_field, set_field}
use nutanix_hack.Spec.{Step, absent, needs_of}
use nutanix_hack.Queue.{Env}
use nutanix_hack.Expressions.Paths.{
  whole_path, match_here, skip_space, pieces, pieces_after, find_paths,
}
use nutanix_hack.Expressions.{render, render_string, replace_all, lookup, step_into}
use nutanix_hack.Predicates.{matches}
use nutanix_hack.Replay.State.{new_context}
use nutanix_hack.Queue
use nutanix_hack.Queue.{has_key, idempotency_key}
use nutanix_hack.Replay.State.{new_slot}
use nutanix_hack.Replay.Fold.{
  replay, apply_all, sort_events, apply_event, insert_event, note_completion, step_slot, transition,
  update_slot,
}
use nutanix_hack.Replay.Queries.{
  ready_steps, ids_where, is_ready, status_or_pending, compensation_order, failed_steps, has_status,
  is_complete, is_fatal, keep_where, must_unwind, next_run_state, steps_with_status,
}
use nutanix_hack.Service.Exec.{ok, atomic, ◌>>=◌}
use nutanix_hack.Prelude.Texts.{text_length}
use nutanix_hack.Service.Store.{too_long, get_run, put_run, on_queue}
use nutanix_hack.Service.Log.{
  append_event, append_attempts, has_seq, or_again, try_append, load_context,
}
use nutanix_hack.Service.Runs.{
  advance_run, queue_next, enqueue_ready_steps, enqueue_all, enqueue_step, close_run_if_finished,
  first_error, note_scheduled, sync_run_projection,
}
use nutanix_hack.Service.Reaper.{start_run}
use nutanix_hack.Graph.{EntityKey, EntityChange, change_context, mark_processed, mark}
use nutanix_hack.Dispatch.{
  Trigger, World, Round, is_open, next_change, triggers_of, dispatch_one, dispatch_change,
  fire_triggers, fire_matched, fire_rendered, mark_done, on_store, or_break, dispatch_pending,
}
use nutanix_hack.Dispatch.Next.{open_changes}
use nutanix_hack.Dispatch.Drained.{Settles, dispatch_one-some, dispatch_pending_drains}

abbrev asha : EntityKey
asha = record { tenant = "t"; type = "employee"; external_id = "e_1" }

abbrev moved : EntityChange
moved = record {
  id = 4;
  entity = asha;
  before = end;
  after = field "department" (str "Engineering") end;
  changed_keys = "department" ∷ [];
  processed_at = none;
}

abbrev visit : Step
visit = record {
  id = "visit";
  type = "noop";
  needs = absent;
  config = none;
  on_error = none;
  retry = none;
  compensate = none;
}

abbrev trigger : Fields → Trigger
trigger template = record {
  id = "t1";
  name = "onboard";
  tenant = "t";
  entity_type = "employee";
  predicate = record { changed = some ("department" ∷ []); match_block = none; was_block = none };
  definition = record { name = "w"; steps = visit ∷ [] };
  enabled = true;
  input_template = obj template;
}

abbrev world : Fields → World
world template = record {
  graph = record { entities = []; edges = []; changes = moved ∷ []; next_id = 5 };
  triggers = trigger template ∷ [];
  store = record { runs = []; queue = record { rows = []; next_id = 1 } };
}

abbrev round : Round
round = record {
  env = record {
    lease = 30;
    max_task_attempts = 5;
    max_task_attempts_text = "5";
    uniform = λ ms. 0;
    digest = λ run sid kind attempt. run;
  };
  now = 9;
  locked = λ id. false;
  show = λ v. "?";
  new_id = λ id trigger. "run";
}

abbrev named : Fields
named = field "who" (str "{{ entity.external_id }}") end

abbrev keyed : Fields
keyed = field "{{ changed_keys }}" null end

fired :
    dispatch_one round (world named)
    ≡ (ok (some (moved, ("t1", "run") ∷ [])), (dispatch_one round (world named)).1)
unfolding dispatch_one dispatch_change fire_triggers fire_matched fire_rendered mark_done
    mark_processed atomic on_store start_run next_change is_open triggers_of matches render
    render_string whole_path match_here skip_space lookup split step_into get_field change_context
    set_field mark replace_all pieces pieces_after find_paths advance_run ◌>>=◌ load_context get_run
    Dict.get queue_next replay apply_all sort_events new_context enqueue_ready_steps enqueue_all
    ready_steps ids_where is_ready status_or_pending needs_of enqueue_step Dict.set
    Queue.enqueue_step has_key idempotency_key apply_event insert_event note_completion step_slot
    transition update_slot compensation_order failed_steps has_status is_complete is_fatal
    keep_where must_unwind next_run_state steps_with_status new_slot append_attempts append_event
    has_seq or_again try_append close_run_if_finished first_error note_scheduled too_long
    text_length sync_run_projection on_queue put_run
fired = refl

drained :
    dispatch_pending 2 round (world named)
    ≡ (ok ((moved, ("t1", "run") ∷ []) ∷ []), (dispatch_pending 2 round (world named)).1)
unfolding dispatch_pending or_break dispatch_one dispatch_change fire_triggers fire_matched
    fire_rendered mark_done mark_processed atomic on_store start_run next_change is_open triggers_of
    matches render render_string whole_path match_here skip_space lookup split step_into get_field
    change_context set_field mark replace_all pieces pieces_after find_paths advance_run ◌>>=◌
    load_context get_run Dict.get queue_next replay apply_all sort_events new_context
    enqueue_ready_steps enqueue_all ready_steps ids_where is_ready status_or_pending needs_of
    enqueue_step Dict.set Queue.enqueue_step has_key idempotency_key apply_event insert_event
    note_completion step_slot transition update_slot compensation_order failed_steps has_status
    is_complete is_fatal keep_where must_unwind next_run_state steps_with_status new_slot
    append_attempts append_event has_seq or_again try_append close_run_if_finished first_error
    note_scheduled too_long text_length sync_run_projection on_queue put_run
drained = refl

dispatch_one-some_example : Settles round (world named) (dispatch_one round (world named)).1 moved
dispatch_one-some_example =
    dispatch_one-some round (world named) (dispatch_one round (world named)).1
      (moved, ("t1", "run") ∷ []) fired

dispatch_pending_drains_example :
    every
      (λ c. not (is_open round.locked c))
      (dispatch_pending 2 round (world named)).1.graph.changes
    ≡ true
unfolding open_changes is_open
dispatch_pending_drains_example =
    dispatch_pending_drains 2 round (world named) (dispatch_pending 2 round (world named)).1
      ((moved, ("t1", "run") ∷ []) ∷ []) drained (omega arith)
