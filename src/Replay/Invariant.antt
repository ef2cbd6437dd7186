-- ===== src/Replay/Invariant.antt =====
-- The invariant of the contexts that `replay` of engine/replay.py makes.
use nutanix_hack.Prelude.{
  ◌≡◌, true, String, List, [], ◌∷◌, arith, eq_iff, eq_refl, contains, Distinct, append-Distinct,
  contains-append,
}
use nutanix_hack.Prelude.Dict
use nutanix_hack.Replay.State.{
  StepStatus, EventType, Payload, Event, Context, new_context, new_slot,
}
use nutanix_hack.Replay.Fold.{
  transition, apply_event, apply_all, note_completion, replay, sort_events,
}
use nutanix_hack.Replay.Queries.{has_status}

-- No step completes twice, and a step whose status is SUCCEEDED is among the completed ones.
pub record IsSound (c : Context) : Type 0 where
  pub distinct : Distinct c.completion_order
  pub completed :
      (sid : String)
      → has_status c StepStatus.succeeded sid ≡ true
      → contains c.completion_order sid ≡ true

note_completion-Distinct :
    (order : List String) (sid : String) → Distinct order → Distinct (note_completion order sid)
unfolding note_completion
note_completion-Distinct order sid d = ground (arith, append-Distinct order sid d)

contains-note_completion :
    (order : List String) (sid j : String)
    → contains order j ≡ true
    → contains (note_completion order sid) j ≡ true
unfolding note_completion
contains-note_completion order sid j h = ground (arith, contains-append order (sid ∷ []) j)

contains-note_completion_self :
    (order : List String) (sid : String) → contains (note_completion order sid) sid ≡ true
unfolding note_completion
contains-note_completion_self order sid =
    ground (arith, contains-append order (sid ∷ []) sid, eq_refl sid)

transition-Distinct :
    (t : EventType) (c : Context) (sid : String) (p : Payload)
    → Distinct c.completion_order
    → Distinct (transition t c sid p).completion_order
unfolding transition
transition-Distinct EventType.step_succeeded c sid p d =
    note_completion-Distinct c.completion_order sid d
transition-Distinct _ c sid p d = d

transition-completed :
    (t : EventType) (c : Context) (sid : String) (p : Payload) (j : String)
    → (has_status c StepStatus.succeeded j ≡ true → contains c.completion_order j ≡ true)
    → has_status (transition t c sid p) StepStatus.succeeded j ≡ true
    → contains (transition t c sid p).completion_order j ≡ true
unfolding transition has_status new_slot
transition-completed EventType.run_started c sid p j h = h
transition-completed EventType.compensation_started c sid p j h = h
transition-completed EventType.run_succeeded c sid p j h = h
transition-completed EventType.run_failed c sid p j h = h
transition-completed EventType.run_cancelled c sid p j h = h
transition-completed (EventType.other _) c sid p j h = h
transition-completed EventType.step_succeeded c sid p j h = simp Dict.get-set (
    ground (
      arith,
      eq_iff sid j,
      contains-note_completion c.completion_order sid j,
      contains-note_completion_self c.completion_order sid,
    ))
transition-completed _ c sid p j h = simp Dict.get-set (ground (arith, eq_iff sid j, h))

-- Every event keeps the invariant, those of an unknown type included.
pub apply_event-IsSound : (c : Context) (e : Event) → IsSound c → IsSound (apply_event c e)
unfolding apply_event has_status
apply_event-IsSound c e s = record {
  distinct = transition-Distinct e.type c e.step_id e.payload s.distinct;
  completed = λ j. transition-completed e.type c e.step_id e.payload j (s.completed j);
}

apply_all-IsSound : (c : Context) (es : List Event) → IsSound c → IsSound (apply_all c es)
unfolding apply_all
apply_all-IsSound c [] s = s
apply_all-IsSound c (e ∷ es) s = apply_all-IsSound (apply_event c e) es (apply_event-IsSound c e s)

new_context-IsSound : IsSound new_context
unfolding new_context has_status Dict.get
new_context-IsSound = record { distinct = tt; completed = λ sid h. cc }

-- In the context of any log no step completes twice, and each step whose status is SUCCEEDED is
-- among the completed ones.
pub replay-IsSound : (es : List Event) → IsSound (replay es)
unfolding replay
replay-IsSound es = apply_all-IsSound new_context (sort_events es) new_context-IsSound
