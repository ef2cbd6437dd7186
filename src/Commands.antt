-- ===== src/Commands.antt =====
-- The processes of the management commands: run_worker, run_reaper and run_dispatcher. A process goes
-- through turns; the list of its turns ends where a signal clears `_running`.
pub mod Drained
pub mod Served
pub mod Written
pub mod Health
mod Examples
use nutanix_hack.Prelude.{
  ℕ, Bool, true, false, String, Option, none, some, List, [], ◌∷◌, if◌then◌else◌,
}
use nutanix_hack.Prelude.Dict.{Dict}
use nutanix_hack.Json.{Value}
use nutanix_hack.Queue.{Env}
use nutanix_hack.Plugins.{Outside}
use nutanix_hack.Service.Exec.{Result, ok, err}
use nutanix_hack.Service.Store.{Store, Db}
use nutanix_hack.Service.Reaper.{reap_expired_leases}
use nutanix_hack.Service.Definitions.{WorkflowDef}
use nutanix_hack.Worker.Visit.{run_once}
use nutanix_hack.Graph.{EntityKey, Graph}
use nutanix_hack.Dispatch.{World, Round, Trigger, dispatch_pending}
use nutanix_hack.Api.Workflows.{create_workflow}
use nutanix_hack.Api.Runs.{RunHeader, Site, Query, StartRun, Decision, create_run, approve}
use nutanix_hack.Api.Entities.{Upsert, Patch, Link, post_entity, patch_entity, post_link}
use nutanix_hack.Api.Triggers.{NewTrigger, TriggerRow, create_trigger, delete_trigger, trigger_of}

-- A turn of a process: what the others did to the tables before it, the rows that they have locked,
-- the clock, and for a worker what happens while its step runs.
pub record Turn : Type 0 where
  pub others : Store → Store
  pub locked : ℕ → Bool
  pub now : ℕ
  pub beat : Db Bool

-- How a process ends: by a signal, or under `--once`.
pub data Ended : Type 0 where
  signalled drained : Ended

-- An exception and a task that was done lead to the next turn, an empty queue ends it under `--once`.
unfoldable pub after_round : Bool → Result Bool × Store → (Store → Ended × Store) → Ended × Store
after_round once (err e, s) next = next s
after_round once (ok true, s) next = next s
after_round once (ok false, s) next = if once then (drained, s) else next s

-- `handle` of run_worker.
unfoldable pub run_worker : Env → Outside → String → Bool → List Turn → Store → Ended × Store
run_worker env outside name once [] s = (signalled, s)
run_worker env outside name once (t ∷ turns) s =
    after_round once (run_once env outside t.beat t.locked t.now name (t.others s))
      (run_worker env outside name once turns)

-- `handle` of run_reaper: a sweep that raises is logged. `rounds` is the fuel of a sweep.
unfoldable pub run_reaper : ℕ → Env → Bool → List Turn → Store → Store
run_reaper rounds env once [] s = s
run_reaper rounds env once (t ∷ turns) s =
    let swept = (reap_expired_leases rounds env t.locked t.now (t.others s)).1 in
    let later = run_reaper rounds env once turns swept in if once then swept else later

-- `handle` of run_dispatcher, over what the others did before each sweep.
unfoldable pub run_dispatcher : ℕ → Bool → List ((World → World) × Round) → World → World
run_dispatcher rounds once [] w = w
run_dispatcher rounds once ((others, r) ∷ turns) w =
    let swept = (dispatch_pending rounds r (others w)).1 in
    let later = run_dispatcher rounds once turns swept in if once then swept else later

-- All tables.
pub record System : Type 0 where
  pub definitions : List WorkflowDef
  pub headers : Dict RunHeader
  pub triggers : List TriggerRow
  pub graph : Graph
  pub store : Store

-- A request to the API, a round of a worker, or a sweep of the reaper or the dispatcher.
pub data Act : Type 0 where
  posts_workflow : (tenant : String) (payload : Option (Value × String)) → Act
  posts_trigger : (show : Value → String) (id tenant : String) (payload : Option NewTrigger) → Act
  deletes_trigger : (tenant id : String) → Act
  starts_run : (env : Env) (now : ℕ) (rid tenant : String) (payload : Option StartRun) → Act
  decides :
      (env : Env) (now : ℕ) (tenant : String) (query : Query) (rid : String)
      (payload : Option Decision)
      → Act
  posts_entity : (tenant : String) (payload : Option Upsert) → Act
  patches : (k : EntityKey) (payload : Option Patch) → Act
  links : (k : EntityKey) (payload : Link) → Act
  works :
      (env : Env) (outside : Outside) (beat : Db Bool) (locked : ℕ → Bool) (now : ℕ)
      (worker : String)
      → Act
  sweeps : (rounds : ℕ) (env : Env) (locked : ℕ → Bool) (now : ℕ) → Act
  dispatches : (rounds : ℕ) (r : Round) → Act

-- The triggers that the dispatcher can read.
unfoldable pub readable : List TriggerRow → List Trigger
readable [] = []
readable (t ∷ ts) =
    let rest = readable ts in elim (trigger_of t) [ none ↦ rest | some trigger ↦ trigger ∷ rest ]

abbrev pub site_of : System → Site
site_of y = record { definitions = y.definitions; headers = y.headers; store = y.store }

abbrev pub world_of : System → World
world_of y = record { graph = y.graph; triggers = readable y.triggers; store = y.store }

abbrev pub with_site : System → Site → System
with_site y site = record y {
  definitions = site.definitions;
  headers = site.headers;
  store = site.store;
}

abbrev pub with_world : System → World → System
with_world y w = record y { graph = w.graph; store = w.store }

-- What an act leaves, whether it returned or raised.
unfoldable pub perform : Act → System → System
perform (posts_workflow tenant payload) y = record y {
  definitions = (create_workflow tenant payload y.definitions).1;
}
perform (posts_trigger show id tenant payload) y = record y {
  triggers = (create_trigger show id tenant payload y.definitions y.triggers).1;
}
perform (deletes_trigger tenant id) y = record y {
  triggers = (delete_trigger tenant id y.triggers).1;
}
perform (starts_run env now rid tenant payload) y =
    with_site y (create_run env now rid tenant payload (site_of y)).1
perform (decides env now tenant query rid payload) y =
    with_site y (approve env now tenant query rid payload (site_of y)).1
perform (posts_entity tenant payload) y = record y {
  graph = (post_entity tenant payload y.graph).1;
}
perform (patches k payload) y = record y { graph = (patch_entity k payload y.graph).1 }
perform (links k payload) y = record y { graph = (post_link k payload y.graph).1 }
perform (works env outside beat locked now worker) y = record y {
  store = (run_once env outside beat locked now worker y.store).1;
}
perform (sweeps rounds env locked now) y = record y {
  store = (reap_expired_leases rounds env locked now y.store).1;
}
perform (dispatches rounds r) y = with_world y (dispatch_pending rounds r (world_of y)).1

unfoldable pub perform_all : List Act → System → System
perform_all [] y = y
perform_all (a ∷ acts) y = perform_all acts (perform a y)
