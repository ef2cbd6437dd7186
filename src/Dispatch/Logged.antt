-- ===== src/Dispatch/Logged.antt =====
-- What graph/dispatcher.py keeps of the world: the logs of the runs, and the record of the graph.
use nutanix_hack.Prelude.{
  ℕ, zero, suc, Bool, true, false, String, Option, none, some, List, [], ◌∷◌,
}
use nutanix_hack.Json.{Value}
use nutanix_hack.Spec.{Spec}
use nutanix_hack.Queue.{Env}
use nutanix_hack.Expressions.{Rendered, rendered, expression_error, unhashable_key, other_key}
use nutanix_hack.Service.Exec.{
  Exec, Keeps, Keeps-bind, Keeps-raise, Keeps-pure, Keeps-gets, Keeps-atomic,
}
use nutanix_hack.Service.Store.{Db}
use nutanix_hack.Service.Reaper.{start_run}
use nutanix_hack.Service.Stored.{IsStored, stored}
use nutanix_hack.Service.Kept.Requests.{start_run-Keeps}
use nutanix_hack.Graph.{EntityChange}
use nutanix_hack.Graph.History.{IsRecorded}
use nutanix_hack.Graph.Mutations.{mark_processed-IsRecorded}
use nutanix_hack.Dispatch.{
  World, Round, Trigger, Dispatched, on_store, fire_rendered, fire_matched, fire_triggers,
  mark_done, dispatch_change, dispatch_one, or_break, dispatch_pending,
}

-- `P` is a property of the world that starting a run keeps.
module _ {κ} (P : World → Type κ) (r : Round)
    (starts : (now : ℕ) (rid : String) (spec : Spec) (input : Value)
      → Keeps P (on_store (start_run r.env now rid spec input))) where
  fire_rendered-Keeps :
      (change : EntityChange) (t : Trigger) (input : Rendered)
      (rest : Exec World (List (String × String)))
      → Keeps P rest
      → Keeps P (fire_rendered r change t input rest)
  unfolding fire_rendered
  fire_rendered-Keeps change t (rendered input) rest k =
      Keeps-bind _ _ (starts r.now _ t.definition _)
        (λ run. Keeps-bind rest _ k (λ started. Keeps-pure _))
  fire_rendered-Keeps change t expression_error rest k = k
  fire_rendered-Keeps change t unhashable_key rest k = Keeps-raise _
  fire_rendered-Keeps change t other_key rest k = Keeps-raise _

  fire_matched-Keeps :
      (change : EntityChange) (t : Trigger) (answer : Option Bool)
      (rest : Exec World (List (String × String)))
      → Keeps P rest
      → Keeps P (fire_matched r change t answer rest)
  unfolding fire_matched
  fire_matched-Keeps change t (some true) rest k = fire_rendered-Keeps change t _ rest k
  fire_matched-Keeps change t (some false) rest k = k
  fire_matched-Keeps change t none rest k = k

  pub fire_triggers-Keeps :
      (change : EntityChange) (ts : List Trigger) → Keeps P (fire_triggers r change ts)
  unfolding fire_triggers
  fire_triggers-Keeps change [] = Keeps-pure _
  fire_triggers-Keeps change (t ∷ ts) =
      fire_matched-Keeps change t _ (fire_triggers r change ts) (fire_triggers-Keeps change ts)

  module _ (marks : (change : EntityChange) → Keeps P (mark_done r change)) where
    dispatch_change-Keeps : (found : Option EntityChange) → Keeps P (dispatch_change r found)
    unfolding dispatch_change
    dispatch_change-Keeps none = Keeps-pure _
    dispatch_change-Keeps (some change) = Keeps-bind _ _ (Keeps-gets _) (λ triggers.
        Keeps-bind _ _ (fire_triggers-Keeps change triggers)
          (λ started. Keeps-bind _ _ (marks change) (λ _. Keeps-pure _)))

    dispatch_one-Keeps : Keeps P (dispatch_one r)
    unfolding dispatch_one
    dispatch_one-Keeps =
        Keeps-atomic _ (Keeps-bind _ _ (Keeps-gets _) (λ found. dispatch_change-Keeps found))

    or_break-Keeps :
        (one : Option Dispatched) (others : Exec World (List Dispatched))
        → Keeps P others
        → Keeps P (or_break one others)
    unfolding or_break
    or_break-Keeps none others k = Keeps-pure _
    or_break-Keeps (some one) others k = Keeps-bind others _ k (λ rest. Keeps-pure _)

    pub dispatch_pending-Keeps : (n : ℕ) → Keeps P (dispatch_pending n r)
    unfolding dispatch_pending
    dispatch_pending-Keeps zero = Keeps-pure _
    dispatch_pending-Keeps (suc n) =
        Keeps-bind _ _ (dispatch_one-Keeps)
          (λ one. or_break-Keeps one (dispatch_pending n r) (dispatch_pending-Keeps n))

-- Logs without gaps, a sound task table, and an outbox that accounts for each entity.
pub record IsSound (env : Env) (w : World) : Type 0 where
  pub stored : IsStored env w.store
  pub recorded : IsRecorded w.graph

on_store-IsSound :
    {A : Type 0} (env : Env) (m : Db A) → Keeps (IsStored env) m → Keeps (IsSound env) (on_store m)
unfolding on_store
on_store-IsSound env m k = record {
  at = λ w h. record { stored = k.at w.store h.stored; recorded = h.recorded };
}

mark_done-IsSound :
    (env : Env) (r : Round) (change : EntityChange) → Keeps (IsSound env) (mark_done r change)
unfolding mark_done
mark_done-IsSound env r change = record {
  at = λ w h. record {
    stored = h.stored;
    recorded = mark_processed-IsRecorded change r.now w.graph h.recorded;
  };
}

-- Any number of rounds of dispatch_pending keeps these, those that raise included.
pub dispatch_pending-IsSound : (n : ℕ) (r : Round) → Keeps (IsSound r.env) (dispatch_pending n r)
dispatch_pending-IsSound n r =
    dispatch_pending-Keeps (IsSound r.env) r
      (λ now rid spec input.
        on_store-IsSound r.env _
          (start_run-Keeps r.env (IsStored r.env) (stored r.env) now rid spec input))
      (mark_done-IsSound r.env r) n
