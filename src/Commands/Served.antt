-- ===== src/Commands/Served.antt =====
-- What the requests to the runs of engine/views.py keep.
use nutanix_hack.Prelude.{ℕ, ◌≡◌, refl, String, Option, none, some}
use nutanix_hack.Spec.{Spec}
use nutanix_hack.Spec.Read.{read_spec}
use nutanix_hack.Queue.{Env}
use nutanix_hack.Service.Exec.{Result, ok, err}
use nutanix_hack.Service.Store.{Run, Store}
use nutanix_hack.Service.Stored.{IsStored, stored}
use nutanix_hack.Service.Kept.Requests.{start_run-Keeps, resolve_approval-Keeps}
use nutanix_hack.Service.Reaper.{start_run}
use nutanix_hack.Service.Definitions.{WorkflowDef}
use nutanix_hack.Api.Runs.{
  RunHeader, Site, StartRun, Decision, header_of, or_object, reply_started, start_read,
  start_chosen, create_run, choose, decide,
}

-- What a request to the runs leaves: the definitions as they are, and a store that is sound.
pub record Served (env : Env) (before after : Site) : Type 0 where
  pub definitions : after.definitions ≡ before.definitions
  pub stored : IsStored env after.store

untouched : (env : Env) (site : Site) → IsStored env site.store → Served env site site
untouched env site h = record { definitions = refl; stored = h }

started-Served :
    (env : Env) (header : RunHeader) (site : Site) (r : Result String × Store)
    → IsStored env r.1
    → Served env site (reply_started header site r).1
started-Served env header site (ok rid, store) h = record { definitions = refl; stored = h }
started-Served env header site (err e, store) h = record { definitions = refl; stored = h }

start_read-Served :
    (env : Env) (now : ℕ) (rid : String) (d : WorkflowDef) (payload : StartRun) (spec : Option Spec)
    (site : Site)
    → IsStored env site.store
    → Served env site (start_read env now rid d payload spec site).1
unfolding start_read
start_read-Served env now rid d payload none site h = untouched env site h
start_read-Served env now rid d payload (some spec) site h =
    started-Served env (header_of d payload) site
      (start_run env now rid spec (or_object payload.input) site.store)
      ((start_run-Keeps env (IsStored env) (stored env) now rid spec (or_object payload.input)).at
        site.store h)

start_chosen-Served :
    (env : Env) (now : ℕ) (rid : String) (d : Option WorkflowDef) (payload : StartRun) (site : Site)
    → IsStored env site.store
    → Served env site (start_chosen env now rid d payload site).1
unfolding start_chosen
start_chosen-Served env now rid none payload site h = untouched env site h
start_chosen-Served env now rid (some d) payload site h =
    start_read-Served env now rid d payload (read_spec d.spec) site h

pub create_run-Served :
    (env : Env) (now : ℕ) (rid tenant : String) (payload : Option StartRun) (site : Site)
    → IsStored env site.store
    → Served env site (create_run env now rid tenant payload site).1
unfolding create_run
create_run-Served env now rid tenant none site h = untouched env site h
create_run-Served env now rid tenant (some payload) site h =
    start_chosen-Served env now rid (choose tenant payload site.definitions) payload site h

pub decide-Served :
    (env : Env) (now : ℕ) (rid : String) (found : Option (RunHeader × Run))
    (payload : Option Decision) (site : Site)
    → IsStored env site.store
    → Served env site (decide env now rid found payload site).1
unfolding decide
decide-Served env now rid none payload site h = untouched env site h
decide-Served env now rid (some found) none site h = untouched env site h
decide-Served env now rid (some (header, run)) (some d) site h = record {
  definitions = refl;
  stored =
      (resolve_approval-Keeps env (IsStored env) (stored env) now rid d.step_id d.decision d.actor
          d.comment).at
        site.store h;
}
