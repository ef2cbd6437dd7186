-- ===== src/Replay/Examples.antt =====
-- Two steps, `drain` and then `upgrade`, and a log of theirs: tests and instances.
use mathlib.Core.List.{Memᴰ, Permᴰ, Nodup, Nodup-cons, Nodup-nil, not-mem-nil, mem-singleton}
use native.Mathlib.Nat.{ℕ_set}
use nutanix_hack.Prelude.{
  ℕ, ◌≡◌, refl, true, false, String, none, some, List, [], ◌∷◌, arith, is_empty, if◌then◌else◌, inl,
  inr,
}
use nutanix_hack.Prelude.Dict
use nutanix_hack.Spec.{Step, Spec, OnError, Compensation, absent, one, needs_of, find_step}
use nutanix_hack.Replay.State.{
  RunState, EventType, no_payload, Event, Context, is_terminal, is_claimed, new_context, new_slot,
}
use nutanix_hack.Replay.Fold.{
  transition, apply_event, apply_all, insert_event, sort_events, replay, note_completion,
}
use nutanix_hack.Replay.Queries.{
  has_status, status_or_pending, ready_steps, is_ready, ids_where, compensation_order, must_unwind,
  is_fatal, has_compensation, is_unwound, keep_where, next_run_state,
}
use nutanix_hack.Replay.Order.{replay-perm, seqs}
use nutanix_hack.Replay.Invariant.{replay-IsSound}
use nutanix_hack.Replay.Readiness.{CanStart, ready_steps_sound, ready_steps_complete}
use nutanix_hack.Replay.Compensation.{next_run_state-unwound, UnwindsAll}
use nutanix_hack.Replay.Status.{continue_never_closes, IsSettled}

abbrev undo : Compensation
undo = record { type = some "noop"; config = none; retry = none }

abbrev drain : Step
drain = record {
  id = "drain";
  type = "http";
  needs = absent;
  config = none;
  on_error = some OnError.continue;
  retry = none;
  compensate = some undo;
}

abbrev upgrade : Step
upgrade = record {
  id = "upgrade";
  type = "shell";
  needs = one "drain";
  config = none;
  on_error = none;
  retry = none;
  compensate = none;
}

abbrev two_steps : Spec
two_steps = record { name = "rolling_upgrade"; steps = drain ∷ upgrade ∷ [] }

abbrev one_step : Spec
one_step = record { name = "drain_only"; steps = drain ∷ [] }

abbrev event : ℕ → EventType → String → Event
event seq type sid = record { seq = seq; type = type; step_id = sid; payload = no_payload }

abbrev started : Event
started = event 1 EventType.run_started ""

abbrev drained : Event
drained = event 2 EventType.step_succeeded "drain"

abbrev drain_failed : Event
drain_failed = event 2 EventType.step_failed "drain"

abbrev denied : Event
denied = event 3 EventType.step_failed "upgrade"

abbrev unwound : Event
unwound = event 4 EventType.compensation_started "upgrade"

abbrev drain_undone : Event
drain_undone = event 5 EventType.step_compensated "drain"

-- The rows as a database may return them.
abbrev shuffled : List Event
shuffled = drained ∷ started ∷ []

abbrev in_order : List Event
in_order = started ∷ drained ∷ []

abbrev unwinding : List Event
unwinding = unwound ∷ started ∷ denied ∷ drained ∷ []

drain_completes : (replay shuffled).completion_order ≡ "drain" ∷ []
unfolding replay sort_events insert_event apply_all apply_event transition note_completion
    new_context
drain_completes = refl

upgrade_ready : ready_steps two_steps (replay shuffled) ≡ "upgrade" ∷ []
unfolding replay sort_events insert_event apply_all apply_event transition ready_steps ids_where
    is_ready has_status status_or_pending needs_of new_context Dict.get Dict.set
upgrade_ready = refl

drain_to_undo : compensation_order two_steps (replay unwinding) ≡ "drain" ∷ []
unfolding replay sort_events insert_event apply_all apply_event transition compensation_order
    keep_where must_unwind has_compensation is_unwound new_context find_step Dict.get Dict.set
    new_slot
drain_to_undo = refl

different_seqs : Nodup (seqs shuffled)
different_seqs =
    Nodup-cons.1
      (λ m. omega (arith, (mem-singleton ℕ_set).0 m), Nodup-cons.1 (not-mem-nil, Nodup-nil))

replay-perm_example : replay shuffled ≡ replay in_order
replay-perm_example = replay-perm shuffled in_order ∣ Permᴰ.swap refl refl ∣₁ different_seqs

ready_steps_sound_example :
    (step : Step) × Memᴰ step two_steps.steps
    × (step.id ≡ "upgrade")
    × CanStart (replay shuffled) step
ready_steps_sound_example =
    ready_steps_sound two_steps (replay shuffled) "upgrade" (rw upgrade_ready (Memᴰ.head refl))

upgrade-CanStart : CanStart (replay shuffled) upgrade
unfolding replay sort_events insert_event apply_all apply_event transition has_status
    status_or_pending needs_of new_context Dict.get Dict.set
upgrade-CanStart = record {
  forward = refl;
  open_run = refl;
  unclaimed = refl;
  satisfied = (refl, tt);
}

ready_steps_complete_example : Memᴰ "upgrade" (ready_steps two_steps (replay shuffled))
ready_steps_complete_example =
    ready_steps_complete two_steps (replay shuffled) upgrade (Memᴰ.tail (Memᴰ.head refl))
      upgrade-CanStart

drain_claimed : is_claimed (status_or_pending (replay shuffled) "drain") ≡ true
unfolding replay sort_events insert_event apply_all apply_event transition status_or_pending
    Dict.get Dict.set new_context
drain_claimed = refl

still_open : is_terminal (replay unwinding).status ≡ false
unfolding replay sort_events insert_event apply_all apply_event transition
still_open = refl

is_unwinding : (replay unwinding).compensating ≡ true
unfolding replay sort_events insert_event apply_all apply_event transition
is_unwinding = refl

undoes_all : UnwindsAll (drain_undone ∷ []) (compensation_order two_steps (replay unwinding))
undoes_all = rw drain_to_undo ((inl refl, refl), tt)

next_run_state-unwound_example :
    (next_run_state two_steps (replay unwinding) ≡ (
      if is_empty (compensation_order two_steps (replay unwinding))
      then RunState.failed
      else RunState.compensating))
    × (next_run_state two_steps (apply_all (replay unwinding) (drain_undone ∷ []))
        ≡ RunState.failed)
next_run_state-unwound_example =
    next_run_state-unwound two_steps (replay unwinding) (drain_undone ∷ [])
      (replay-IsSound unwinding) still_open is_unwinding undoes_all

-- A run of one step, which failed under `on_error: continue`.
abbrev gave_up : Context
gave_up = replay (started ∷ drain_failed ∷ [])

drain-IsSettled : IsSettled gave_up drain
unfolding replay sort_events insert_event apply_all apply_event transition has_status is_fatal
    Dict.get Dict.set new_context
drain-IsSettled = inr (refl, refl)

continue_never_closes_example :
    (ready_steps one_step gave_up ≡ []) × (next_run_state one_step gave_up ≡ RunState.running)
unfolding replay sort_events insert_event apply_all apply_event transition has_status new_context
    Dict.get Dict.set
continue_never_closes_example =
    continue_never_closes one_step gave_up drain refl refl (drain-IsSettled, tt) (Memᴰ.head refl)
      refl
