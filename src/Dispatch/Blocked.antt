-- ===== src/Dispatch/Blocked.antt =====
-- A trigger that stops the outbox of graph/dispatcher.py.
use nutanix_hack.Prelude.{ℕ, suc, ◌≡◌, true, some, List, ◌∷◌}
use nutanix_hack.Expressions.{unhashable_key, render}
use nutanix_hack.Predicates.{matches}
use nutanix_hack.Service.Exec.{err, type_error, atomic, ◌>>=◌}
use nutanix_hack.Graph.{EntityChange, change_context}
use nutanix_hack.Dispatch.{
  World, Round, Trigger, next_change, triggers_of, or_object, delta, fire_triggers, fire_matched,
  fire_rendered, dispatch_change, dispatch_one, dispatch_pending,
}

-- If the first trigger that listens to the next change matches it, and a key of its template
-- renders to a list or an object, then dispatch_pending with any positive number of rounds raises
-- TypeError and leaves the world as before.
pub dispatch_blocked :
    (n : ℕ) (r : Round) (w : World) (change : EntityChange) (t : Trigger) (ts : List Trigger)
    → next_change r.locked w.graph.changes ≡ some change
    → triggers_of change w.triggers ≡ t ∷ ts
    → matches t.predicate (delta change) ≡ some true
    → render r.show (or_object t.input_template) (change_context change) ≡ unhashable_key
    → dispatch_pending (suc n) r w ≡ (err type_error, w)
unfolding dispatch_pending dispatch_one dispatch_change fire_triggers fire_matched fire_rendered
    atomic ◌>>=◌
dispatch_blocked n r w change t ts next listening matched keyed =
    simp (next, listening, matched, keyed)
