-- ===== src/Replay/Fold.antt =====
-- engine/replay.py: `apply_event` and `replay`, the fold of an event log.
use nutanix_hack.Prelude.{
  ◌+◌, max, true, false, String, concat, some, List, [], ◌∷◌, ◌++◌, contains, leb, or_else,
  if◌then◌else◌,
}
use nutanix_hack.Prelude.Dict
use nutanix_hack.Json.{empty_object, str, arr, nil}
use nutanix_hack.Replay.State.{
  StepStatus, RunState, EventType, Payload, Event, Slot, Context, new_context, new_slot,
}

-- `_step_slot`: the slot of a step, or the fresh one that `setdefault` puts there.
unfoldable pub step_slot : Context → String → Slot
step_slot c sid = or_else (Dict.get c.steps sid) new_slot

-- A branch of `apply_event` that fetches a slot and mutates it.
unfoldable pub update_slot : Context → String → Slot → Context
update_slot c sid slot = record c { steps = Dict.set c.steps sid slot }

-- `if step_id not in completion_order: completion_order.append(step_id)`
unfoldable pub note_completion : List String → String → List String
note_completion order sid = if contains order sid then order else order ++ sid ∷ []

abbrev denial_text : Payload → String
denial_text p = concat "approval denied by " (or_else p.actor "unknown")

-- The if/elif ladder over the event's type.
unfoldable pub transition : EventType → Context → String → Payload → Context
unfolding step_slot update_slot note_completion
transition EventType.run_started c sid p = record c {
  input = or_else p.input empty_object;
  status = RunState.running;
}
transition EventType.step_scheduled c sid p =
    update_slot c sid (record (step_slot c sid) { status = StepStatus.scheduled })
transition EventType.step_started c sid p =
    let slot = step_slot c sid in
    update_slot c sid (record slot {
      status = StepStatus.running;
      attempts = or_else p.attempt (slot.attempts + 1);
    })
transition EventType.step_succeeded c sid p = record c {
  steps =
      Dict.set c.steps sid
        (record (step_slot c sid) { status = StepStatus.succeeded; output = p.output; error = "" });
  completion_order = note_completion c.completion_order sid;
}
transition EventType.step_failed c sid p =
    update_slot c sid
      (record (step_slot c sid) { status = StepStatus.failed; error = or_else p.error "" })
transition EventType.step_retry_scheduled c sid p =
    let slot = step_slot c sid in
    update_slot c sid
      (record slot { status = StepStatus.retry_scheduled; error = or_else p.error slot.error })
transition EventType.timer_set c sid p =
    update_slot c sid (record (step_slot c sid) { status = StepStatus.waiting })
transition EventType.timer_fired c sid p =
    update_slot c sid (record (step_slot c sid) { status = StepStatus.scheduled })
transition EventType.approval_requested c sid p = update_slot c sid (record (step_slot c sid) {
  status = StepStatus.waiting;
  approval_requested = true;
  approval_prompt = some (or_else p.prompt (str ""));
  approvers = some (or_else p.approvers (arr nil));
  approval_deadline = p.deadline;
})
transition EventType.approval_granted c sid p = update_slot c sid (record (step_slot c sid) {
  approved = true;
  approved_by = some (or_else p.actor "");
  approval_comment = some (or_else p.comment "");
})
transition EventType.approval_denied c sid p = update_slot c sid (record (step_slot c sid) {
  status = StepStatus.failed;
  approved = false;
  approved_by = some (or_else p.actor "");
  error = or_else p.error (denial_text p);
})
transition EventType.compensation_started c sid p = record c {
  compensating = true;
  status = RunState.compensating;
  error = or_else p.error c.error;
}
transition EventType.step_compensated c sid p =
    update_slot c sid
      (record (step_slot c sid) { status = StepStatus.compensated; compensated = true })
transition EventType.compensation_failed c sid p =
    let slot = step_slot c sid in
    record c {
      steps =
          Dict.set c.steps sid
            (record slot { compensation_failed = true; error = or_else p.error slot.error });
      needs_manual_intervention = true;
      error = or_else p.error c.error;
    }
transition EventType.run_succeeded c sid p = record c { status = RunState.succeeded }
transition EventType.run_failed c sid p = record c {
  status = RunState.failed;
  error = or_else p.error c.error;
}
transition EventType.run_cancelled c sid p = record c { status = RunState.cancelled }
transition (EventType.other _) c sid p = c

unfoldable pub apply_event : Context → Event → Context
apply_event c e = record (transition e.type c e.step_id e.payload) {
  last_seq = max c.last_seq e.seq;
}

-- `sorted(events, key=seq)`: stable, so an insertion sort that puts an event before the first
-- later one with a seq that is not smaller.
unfoldable pub insert_event : Event → List Event → List Event
insert_event e [] = e ∷ []
insert_event e (f ∷ es) = if leb e.seq f.seq then e ∷ f ∷ es else f ∷ insert_event e es

unfoldable pub sort_events : List Event → List Event
sort_events [] = []
sort_events (e ∷ es) = insert_event e (sort_events es)

-- The `for` loop of `replay`.
unfoldable pub apply_all : Context → List Event → Context
apply_all c [] = c
apply_all c (e ∷ es) = apply_all (apply_event c e) es

unfoldable pub replay : List Event → Context
replay events = apply_all new_context (sort_events events)
