-- ===== src/Api/Examples.antt =====
-- Two tenants and a run of one of them: tests and instances.
use nutanix_hack.Prelude.{◌≡◌, refl, false, concat, none, some, [], ◌∷◌}
use nutanix_hack.Prelude.Dict
use nutanix_hack.Prelude.Int.{pos}
use nutanix_hack.Json.{
  Value, str, arr, num, obj, end, field, nil, cons, get_field, set_field, empty_object,
}
use nutanix_hack.Spec.{Spec, absent, find_step}
use nutanix_hack.Spec.Validate.{
  check_steps, check_step, check_dangling, needs_items, id_of, ids_of, unless_in, validate_retry,
  validate_compensate,
}
use nutanix_hack.Spec.Cycle.{
  validate_spec, edges_of, detect_cycle, search_roots, explore, follow, scan,
}
use nutanix_hack.Queue.{Env}
use nutanix_hack.Replay.State.{RunState, new_context}
use nutanix_hack.Service.Exec.{unknown_step, ◌>>=◌}
use nutanix_hack.Service.Store.{Run, get_run}
use nutanix_hack.Service.Approval.{resolve_approval, resolve_step}
use nutanix_hack.Service.Definitions.{create_definition, store_definition, latest_version}
use nutanix_hack.Graph.{Graph, upsert_entity, create, update, write, find_entity, put_entity}
use nutanix_hack.Graph.Diff.{keys_of, sorted_set, diff, merge, keep_keys, differs}
use nutanix_hack.Predicates.Values.{same_value}
use nutanix_hack.Api.{created, conflict, not_found, status_code}
use nutanix_hack.Api.Workflows.{DefinitionView, create_workflow, step_count}
use nutanix_hack.Api.Runs.{
  RunHeader, Site, Query, Decision, StartRun, approve, decide, get_object, is_visible, run_events,
  run_approvals,
}
use nutanix_hack.Api.Entities.{Upsert, an_object, post_entity, attrs_of}
use nutanix_hack.Api.Newest.{Starts, posted-Starts}
use nutanix_hack.Api.Refused.{conflict-unchanged}
use nutanix_hack.Api.Hidden.{foreign_run-Hidden}

abbrev env : Env
env = record {
  lease = 30;
  max_task_attempts = 5;
  max_task_attempts_text = "5";
  uniform = λ ms. 0;
  digest = λ run sid kind attempt. concat run sid;
}

abbrev welcome : Spec
welcome = record {
  name = "welcome";
  steps =
      record {
        id = "greet";
        type = "noop";
        needs = absent;
        config = none;
        on_error = none;
        retry = none;
        compensate = none;
      }
      ∷ [];
}

abbrev run : Run
run = record {
  spec = welcome;
  input = empty_object;
  events = [];
  last_seq = 0;
  status = RunState.running;
  context = new_context;
  error = "";
}

abbrev header : RunHeader
header = record {
  tenant = "acme";
  workflow = "welcome";
  workflow_version = 1;
  entity_ref = "";
  trigger_source = "api";
}

abbrev site : Site
site = record {
  definitions = [];
  headers = ("r1", header) ∷ [];
  store = record { runs = ("r1", run) ∷ []; queue = record { rows = []; next_id = 1 } };
}

abbrev any : Query
any = record { workflow = none; status = none }

abbrev decision : Decision
decision = record { step_id = "other"; decision = "approve"; actor = "ann"; comment = "" }

refused : (approve env 5 "acme" any "r1" (some decision) site).0 ≡ conflict (unknown_step "other")
unfolding approve decide get_object is_visible resolve_approval resolve_step get_run ◌>>=◌ find_step
    Dict.get
refused = refl

conflict-unchanged_example : (approve env 5 "acme" any "r1" (some decision) site).1 ≡ site
conflict-unchanged_example = conflict-unchanged env 5 "acme" any "r1" (some decision) site refused

foreign_run-Hidden_example :
    (approve env 5 "default" any "r1" (some decision) site ≡ (not_found, site))
    × (run_events "default" any "r1" site ≡ not_found)
    × (run_approvals "default" any "r1" site ≡ not_found)
unfolding Dict.get
foreign_run-Hidden_example =
    foreign_run-Hidden env 5 "default" any "r1" (some decision) site header refl refl

abbrev submitted : Value
submitted = obj (
    field "name" (str "welcome") (
      field "steps"
        (arr (cons (obj (field "id" (str "greet") (field "type" (str "noop") end))) nil)) end))

abbrev shown : DefinitionView
shown = record {
  name = "welcome";
  version = 1;
  description = "";
  spec = obj (
      field "name" (str "welcome") (
        field "steps"
          (arr (cons (obj (field "id" (str "greet") (field "type" (str "noop") end))) nil))
          (field "version" (num (pos 1)) end)));
  step_count = 1;
}

posted : (create_workflow "acme" (some (submitted, "")) []).0 ≡ created shown
unfolding create_workflow create_definition store_definition latest_version validate_spec
    check_steps check_step check_dangling needs_items id_of ids_of unless_in validate_retry
    validate_compensate get_field set_field edges_of detect_cycle search_roots explore follow scan
    Dict.get Dict.set step_count
posted = refl

abbrev request : StartRun
request = record { workflow = "welcome"; version = none; input = empty_object; entity_ref = "" }

posted-Starts_example :
    Starts "acme" request shown (create_workflow "acme" (some (submitted, "")) []).1
unfolding step_count get_field
posted-Starts_example = posted-Starts "acme" submitted "" [] request posted refl refl

abbrev nothing : Graph
nothing = record { entities = []; edges = []; changes = []; next_id = 1 }

abbrev hire : Upsert
hire = record {
  type = "person";
  external_id = "priya";
  attrs = an_object (field "status" (str "hired") end);
  replace = false;
}

first_write : status_code (post_entity "acme" (some hire) nothing).0 ≡ 201
unfolding post_entity attrs_of upsert_entity create write find_entity status_code
first_write = refl

second_write :
    status_code (post_entity "acme" (some hire) (post_entity "acme" (some hire) nothing).1).0 ≡ 200
unfolding post_entity attrs_of upsert_entity create write update find_entity put_entity status_code
    diff merge keys_of sorted_set keep_keys differs set_field get_field same_value
second_write = refl
