-- ===== src/Replay/Slots.antt =====
-- About the slots of a context of engine/replay.py and what an event does to them.
use nutanix_hack.Prelude.{◌≡◌, refl, true, false, String, List, [], ◌∷◌, arith, eq_iff, str_eq}
use nutanix_hack.Prelude.Dict
use nutanix_hack.Replay.State.{EventType, Payload, Event, Context, is_claimed, new_slot}
use nutanix_hack.Replay.Fold.{transition, apply_event, apply_all}
use nutanix_hack.Replay.Queries.{status_or_pending, is_unwound}

-- An event leaves the slots of the other steps as they are.
pub get-transition_ne :
    (t : EventType) (c : Context) (sid j : String) (p : Payload)
    → str_eq sid j ≡ false
    → Dict.get (transition t c sid p).steps j ≡ Dict.get c.steps j
unfolding transition
get-transition_ne EventType.run_started c sid j p h = refl
get-transition_ne EventType.compensation_started c sid j p h = refl
get-transition_ne EventType.run_succeeded c sid j p h = refl
get-transition_ne EventType.run_failed c sid j p h = refl
get-transition_ne EventType.run_cancelled c sid j p h = refl
get-transition_ne (EventType.other _) c sid j p h = refl
get-transition_ne _ c sid j p h = simp Dict.get-set (rw h)

transition-claimed :
    (t : EventType) (c : Context) (sid j : String) (p : Payload)
    → is_claimed (status_or_pending c j) ≡ true
    → is_claimed (status_or_pending (transition t c sid p) j) ≡ true
unfolding transition status_or_pending new_slot
transition-claimed EventType.run_started c sid j p h = h
transition-claimed EventType.compensation_started c sid j p h = h
transition-claimed EventType.run_succeeded c sid j p h = h
transition-claimed EventType.run_failed c sid j p h = h
transition-claimed EventType.run_cancelled c sid j p h = h
transition-claimed (EventType.other _) c sid j p h = h
transition-claimed _ c sid j p h = simp Dict.get-set (ground (arith, eq_iff sid j))

-- A step that is claimed stays so, whatever events follow: it never counts as PENDING again.
pub claimed-apply_all :
    (c : Context) (es : List Event) (j : String)
    → is_claimed (status_or_pending c j) ≡ true
    → is_claimed (status_or_pending (apply_all c es) j) ≡ true
unfolding apply_all apply_event status_or_pending
claimed-apply_all c [] j h = h
claimed-apply_all c (e ∷ es) j h =
    claimed-apply_all (apply_event c e) es j (transition-claimed e.type c e.step_id j e.payload h)

transition-unwound :
    (t : EventType) (c : Context) (sid j : String) (p : Payload)
    → is_unwound c j ≡ true
    → is_unwound (transition t c sid p) j ≡ true
unfolding transition is_unwound new_slot
transition-unwound EventType.run_started c sid j p h = h
transition-unwound EventType.compensation_started c sid j p h = h
transition-unwound EventType.run_succeeded c sid j p h = h
transition-unwound EventType.run_failed c sid j p h = h
transition-unwound EventType.run_cancelled c sid j p h = h
transition-unwound (EventType.other _) c sid j p h = h
transition-unwound _ c sid j p h = simp Dict.get-set (ground (arith, eq_iff sid j))

-- A step that was rolled back, or whose rollback failed for good, stays marked.
pub unwound-apply_all :
    (c : Context) (es : List Event) (j : String)
    → is_unwound c j ≡ true
    → is_unwound (apply_all c es) j ≡ true
unfolding apply_all apply_event is_unwound
unwound-apply_all c [] j h = h
unwound-apply_all c (e ∷ es) j h =
    unwound-apply_all (apply_event c e) es j (transition-unwound e.type c e.step_id j e.payload h)
