-- ===== src/Api/Runs.antt =====
-- `RunViewSet` of engine/views.py with its serializers.
use nutanix_hack.Prelude.{
  ℕ, Bool, true, ◌&&◌, String, Option, none, some, List, [], ◌∷◌, ◌++◌, str_eq, if◌then◌else◌,
}
use nutanix_hack.Prelude.Texts.{is_text}
use nutanix_hack.Prelude.Dict
use nutanix_hack.Prelude.Dict.{Dict}
use nutanix_hack.Prelude.Int.{ℤ, pos}
use nutanix_hack.Json.{Value, num, empty_object}
use nutanix_hack.Predicates.{truth}
use nutanix_hack.Predicates.Values.{same_value}
use nutanix_hack.Spec.{Spec}
use nutanix_hack.Spec.Read.{read_spec}
use nutanix_hack.Queue.{Task, Env}
use nutanix_hack.Replay.State.{Event, RunState, Context}
use nutanix_hack.Replay.Fold.{replay}
use nutanix_hack.Replay.Queries.{PendingApproval, pending_approvals}
use nutanix_hack.Service.Exec.{Result, ok, err, approval_error}
use nutanix_hack.Service.Store.{Run, Store}
use nutanix_hack.Service.Reaper.{start_run}
use nutanix_hack.Service.Approval.{resolve_approval}
use nutanix_hack.Service.Definitions.{WorkflowDef, is_of}
use nutanix_hack.Api.{Response, okay, created, bad_request, not_found, conflict, server_error}
use nutanix_hack.Api.Workflows.{newest}

-- The columns of a run's row that the service does not read.
pub record RunHeader : Type 0 where
  pub tenant : String
  pub workflow : String
  pub workflow_version : ℕ
  pub entity_ref : String
  pub trigger_source : String

-- The tables: `headers` has the rows of runs beside those of `store`, in the order of their creation.
pub record Site : Type 0 where
  pub definitions : List WorkflowDef
  pub headers : Dict RunHeader
  pub store : Store

-- `RunSerializer`
pub record RunView : Type 0 where
  pub id : String
  pub header : RunHeader
  pub status : RunState
  pub input : Value
  pub error : String
  pub last_seq : ℕ

-- `RunDetailSerializer`
pub record RunDetail : Type 0 where
  pub view : RunView
  pub context : Context
  pub spec : Spec
  pub events : List Event
  pub tasks : List Task

abbrev pub view_run : String → RunHeader → Run → RunView
view_run rid header run = record {
  id = rid;
  header = header;
  status = run.status;
  input = run.input;
  error = run.error;
  last_seq = run.last_seq;
}

tasks_of : String → List Task → List Task
tasks_of rid [] = []
tasks_of rid (t ∷ ts) = let rest = tasks_of rid ts in if str_eq t.run rid then t ∷ rest else rest

unfoldable pub detail : String → RunHeader → Run → Store → RunDetail
unfolding tasks_of
detail rid header run store = record {
  view = view_run rid header run;
  context = run.context;
  spec = run.spec;
  events = run.events;
  tasks = tasks_of rid store.queue.rows;
}

-- The query of a request: `workflow` and `status`, in capitals as the view makes it.
pub record Query : Type 0 where
  pub workflow : Option String
  pub status : Option String

unfoldable pub status_name : RunState → String
status_name RunState.running = "RUNNING"
status_name RunState.succeeded = "SUCCEEDED"
status_name RunState.failed = "FAILED"
status_name RunState.compensating = "COMPENSATING"
status_name RunState.cancelled = "CANCELLED"
status_name RunState.waiting = "WAITING"
status_name RunState.pending = "PENDING"

-- `if value: qs.filter(…)`
abbrev wanted : Option String → String → Bool
wanted none actual = true
wanted (some value) actual = if is_text value then str_eq actual value else true

-- `get_queryset`, of one row.
unfoldable pub is_visible : String → Query → RunHeader → Run → Bool
is_visible tenant query header run =
    str_eq header.tenant tenant
    && (wanted query.workflow header.workflow && wanted query.status (status_name run.status))

abbrev visible : String → Query → Option RunHeader → Option Run → Option (RunHeader × Run)
visible tenant query (some header) (some run) =
    if is_visible tenant query header run then some (header, run) else none
visible tenant query _ _ = none

-- `get_object`; `none` is a 404.
unfoldable pub get_object : String → Query → String → Site → Option (RunHeader × Run)
get_object tenant query rid site =
    visible tenant query (Dict.get site.headers rid) (Dict.get site.store.runs rid)

views_from : String → Query → Dict RunHeader → Site → List RunView
views_from tenant query [] site = []
views_from tenant query ((rid, header) ∷ rows) site =
    let later = views_from tenant query rows site in
    elim (visible tenant query (some header) (Dict.get site.store.runs rid)) [
      | none ↦ later
      | some (h, run) ↦ later ++ view_run rid h run ∷ []
    ]

-- The newest run first.
unfoldable pub list_runs : String → Query → Site → Response (List RunView)
unfolding views_from
list_runs tenant query site = okay (views_from tenant query site.headers site)

-- `StartRunSerializer`
pub record StartRun : Type 0 where
  pub workflow : String
  pub version : Option ℤ
  pub input : Value
  pub entity_ref : String

unfoldable pub find_version : String → String → ℤ → List WorkflowDef → Option WorkflowDef
find_version tenant name version [] = none
find_version tenant name version (d ∷ ds) =
    let rest = find_version tenant name version ds in
    if is_of tenant name d && same_value (num (pos d.version)) (num version) then some d else rest

-- The version that is asked for, unless it is 0 or absent, else the newest.
abbrev chosen : String → String → Option ℤ → List WorkflowDef → Option WorkflowDef
chosen tenant name none defs = newest tenant name defs
chosen tenant name (some version) defs =
    if truth (num version) then find_version tenant name version defs else newest tenant name defs

unfoldable pub choose : String → StartRun → List WorkflowDef → Option WorkflowDef
choose tenant payload defs = chosen tenant payload.workflow payload.version defs

-- `value or {}`
abbrev pub or_object : Value → Value
or_object v = if truth v then v else empty_object

abbrev pub header_of : WorkflowDef → StartRun → RunHeader
header_of d payload = record {
  tenant = d.tenant;
  workflow = d.name;
  workflow_version = d.version;
  entity_ref = payload.entity_ref;
  trigger_source = "api";
}

abbrev show_run : RunHeader → String → Option Run → Response RunView
show_run header rid none = server_error
show_run header rid (some run) = created (view_run rid header run)

abbrev pub reply_started : RunHeader → Site → Result String × Store → Response RunView × Site
reply_started header site (ok rid, store) = (
  show_run header rid (Dict.get store.runs rid),
  record site { headers = Dict.set site.headers rid header; store = store },
)
reply_started header site (err e, store) = (server_error, record site { store = store })

-- The engine reads the stored spec; one that it cannot read stands for an exception.
unfoldable pub start_read :
    Env → ℕ → String → WorkflowDef → StartRun → Option Spec → Site → Response RunView × Site
start_read env now rid d payload none site = (server_error, site)
start_read env now rid d payload (some spec) site =
    reply_started (header_of d payload) site
      (start_run env now rid spec (or_object payload.input) site.store)

unfoldable pub start_chosen :
    Env → ℕ → String → Option WorkflowDef → StartRun → Site → Response RunView × Site
start_chosen env now rid none payload site = (not_found, site)
start_chosen env now rid (some d) payload site =
    start_read env now rid d payload (read_spec d.spec) site

-- `create`; `rid` is the fresh id of the run.
unfoldable pub create_run :
    Env → ℕ → String → String → Option StartRun → Site → Response RunView × Site
create_run env now rid tenant none site = (bad_request, site)
create_run env now rid tenant (some payload) site =
    start_chosen env now rid (choose tenant payload site.definitions) payload site

abbrev events_of : Option (RunHeader × Run) → Response (List Event)
events_of none = not_found
events_of (some (header, run)) = okay run.events

unfoldable pub run_events : String → Query → String → Site → Response (List Event)
run_events tenant query rid site = events_of (get_object tenant query rid site)

abbrev pending_of : Option (RunHeader × Run) → Response (List PendingApproval)
pending_of none = not_found
pending_of (some (header, run)) = okay (pending_approvals run.spec (replay run.events))

-- `load_context` is the replay of the run's events.
unfoldable pub run_approvals : String → Query → String → Site → Response (List PendingApproval)
run_approvals tenant query rid site = pending_of (get_object tenant query rid site)

-- `ApprovalDecisionSerializer`
pub record Decision : Type 0 where
  pub step_id : String
  pub decision : String
  pub actor : String
  pub comment : String

abbrev pub refreshed : RunHeader → String → Store → Option Run → Response RunDetail
refreshed header rid store none = server_error
refreshed header rid store (some run) = okay (detail rid header run store)

abbrev pub reply_decided : RunHeader → String → Result Context × Store → Response RunDetail
reply_decided header rid (ok c, store) = refreshed header rid store (Dict.get store.runs rid)
reply_decided header rid (err (approval_error e), store) = conflict e
reply_decided header rid (err _, store) = server_error

unfoldable pub decide :
    Env → ℕ → String → Option (RunHeader × Run) → Option Decision → Site → Response RunDetail × Site
decide env now rid none payload site = (not_found, site)
decide env now rid (some found) none site = (bad_request, site)
decide env now rid (some (header, run)) (some d) site =
    let (answer, store) =
      resolve_approval env now rid d.step_id d.decision d.actor d.comment site.store in
    (reply_decided header rid (answer, store), record site { store = store })

unfoldable pub approve :
    Env → ℕ → String → Query → String → Option Decision → Site → Response RunDetail × Site
approve env now tenant query rid payload site =
    decide env now rid (get_object tenant query rid site) payload site
