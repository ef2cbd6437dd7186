-- ===== src/Plugins/Parking.antt =====
-- About `should_defer` of engine/steps: which visit of a deferring step parks it.
use nutanix_hack.Prelude.{
  ◌≡◌, refl, true, false, String, Option, none, some, arith, or_else, eq_refl, ap, ◌∙◌, not,
}
use nutanix_hack.Prelude.Dict
use nutanix_hack.Json.{Value}
use nutanix_hack.Replay.State.{EventType, Event, Slot, Context, new_slot}
use nutanix_hack.Replay.Fold.{apply_event, transition, step_slot, update_slot}
use nutanix_hack.Replay.Queries.{has_status}
use nutanix_hack.Plugins.{
  approval, wait, Outside, succeeded, should_defer, execute, execute_approval, approval_output,
  asked_slot,
}

asked_before :
    (c : Context) (sid : String)
    → should_defer approval c sid ≡ false
    → (step_slot c sid).approval_requested ≡ true
unfolding should_defer step_slot
asked_before c sid h = go (Dict.get c.steps sid) h
  where
    go :
        (o : Option Slot)
        → not (asked_slot o) ≡ false
        → (or_else o new_slot).approval_requested ≡ true
    go none e = cc
    go (some slot) e = ground arith

-- The slot after the decision is approved, and still has asked for one.
granted_slot :
    (c : Context) (e : Event)
    → e.type ≡ EventType.approval_granted
    → (slot : Slot) × (Dict.get (apply_event c e).steps e.step_id ≡ some slot)
      × (slot.approved ≡ true)
      × (slot.approval_requested ≡ (step_slot c e.step_id).approval_requested)
unfolding apply_event transition update_slot
granted_slot c e t = (
  record (step_slot c e.step_id) {
    approved = true;
    approved_by = some (or_else e.payload.actor "");
    approval_comment = some (or_else e.payload.comment "");
  },
  rw (t, transition) (simp (Dict.get-set, eq_refl)),
  refl,
  refl,
)

executes_approved :
    (outside : Outside) (config : Value) (slot : Slot)
    → slot.approved ≡ true
    → execute_approval outside config (some slot) ≡ succeeded (approval_output slot)
unfolding execute_approval
executes_approved outside config slot h = simp h

-- If a visit of an approval step would not park it, then after an APPROVAL_GRANTED of that step a
-- visit does not park it either, and executing it succeeds.
pub granted_runs :
    (outside : Outside) (config : Value) (key : String) (c : Context) (e : Event)
    → e.type ≡ EventType.approval_granted
    → should_defer approval c e.step_id ≡ false
    → (should_defer approval (apply_event c e) e.step_id ≡ false)
      × ((output : Value) × (execute outside approval config (apply_event c e) key e.step_id
            ≡ succeeded output))
unfolding should_defer execute
granted_runs outside config key c e t parked =
    let (slot, there, granted, asked) = granted_slot c e t in
    (
      rw there (ground (arith, asked, asked_before c e.step_id parked)),
      (
        approval_output slot,
        ap (execute_approval outside config) there ∙ executes_approved outside config slot granted,
      ),
    )

-- After STEP_RETRY_SCHEDULED, which the reaper appends for a recovered task, the next visit of a
-- wait step parks it again, whatever the context was.
pub recovered_wait_parks :
    (c : Context) (e : Event)
    → e.type ≡ EventType.step_retry_scheduled
    → should_defer wait (apply_event c e) e.step_id ≡ true
unfolding apply_event transition should_defer has_status update_slot
recovered_wait_parks c e t = rw (t, transition) (simp (Dict.get-set, eq_refl))
