-- ===== src/Api/Triggers.antt =====
-- `TriggerViewSet` of graph/views.py.
use nutanix_hack.Prelude.{
  Bool, ◌&&◌, String, Option, none, some, List, [], ◌∷◌, ◌++◌, str_eq, if◌then◌else◌,
}
use nutanix_hack.Json.{Value, obj, empty_object}
use nutanix_hack.Predicates.{PredicateError, validate_predicate, clauses_of, truth}
use nutanix_hack.Predicates.Describe.{describe}
use nutanix_hack.Service.Definitions.{WorkflowDef}
use nutanix_hack.Spec.{Spec}
use nutanix_hack.Spec.Read.{read_spec}
use nutanix_hack.Dispatch.{Trigger}
use nutanix_hack.Api.{Response, okay, created, bad_request, not_found, no_content}
use nutanix_hack.Api.Workflows.{newest}

-- `CreateTriggerSerializer`
pub record NewTrigger : Type 0 where
  pub name : String
  pub entity_type : String
  pub workflow : String
  pub predicate : Value
  pub input_template : Value
  pub enabled : Bool

-- A row of the triggers' table, with the row of its definition.
pub record TriggerRow : Type 0 where
  pub id : String
  pub tenant : String
  pub name : String
  pub entity_type : String
  pub predicate : Value
  pub input_template : Value
  pub definition : WorkflowDef
  pub enabled : Bool

-- `value or {}`
abbrev or_object : Value → Value
or_object v = if truth v then v else empty_object

-- `TriggerSerializer`; `show` is Python's `str`.
pub record TriggerView : Type 0 where
  pub id : String
  pub name : String
  pub entity_type : String
  pub predicate : Value
  pub input_template : Value
  pub workflow : String
  pub reads_as : String
  pub enabled : Bool

-- `describe(obj.predicate)`, of a predicate that was checked.
abbrev reads_as_of : (Value → String) → Value → String
reads_as_of show (obj fs) = describe show fs
reads_as_of show _ = ""

abbrev pub view_trigger : (Value → String) → TriggerRow → TriggerView
view_trigger show row = record {
  id = row.id;
  name = row.name;
  entity_type = row.entity_type;
  predicate = row.predicate;
  input_template = row.input_template;
  workflow = row.definition.name;
  reads_as = reads_as_of show row.predicate;
  enabled = row.enabled;
}

abbrev trigger_reply :
    (Value → String)
    → String
    → String
    → NewTrigger
    → Option WorkflowDef
    → List TriggerRow
    → Response TriggerView × List TriggerRow
trigger_reply show id tenant t none rows = (not_found, rows)
trigger_reply show id tenant t (some definition) rows =
    let row : TriggerRow = record {
      id = id;
      tenant = tenant;
      name = t.name;
      entity_type = t.entity_type;
      predicate = t.predicate;
      input_template = or_object t.input_template;
      definition = definition;
      enabled = t.enabled;
    } in
    (created (view_trigger show row), rows ++ row ∷ [])

abbrev trigger_checked :
    Option PredicateError
    → (Value → String)
    → String
    → String
    → NewTrigger
    → List WorkflowDef
    → List TriggerRow
    → Response TriggerView × List TriggerRow
trigger_checked (some e) show id tenant t defs rows = (bad_request, rows)
trigger_checked none show id tenant t defs rows =
    trigger_reply show id tenant t (newest tenant t.workflow defs) rows

-- `create`, with the check of `CreateTriggerSerializer.validate_predicate`; `id` is fresh.
unfoldable pub create_trigger :
    (Value → String)
    → String
    → String
    → Option NewTrigger
    → List WorkflowDef
    → List TriggerRow
    → Response TriggerView × List TriggerRow
create_trigger show id tenant none defs rows = (bad_request, rows)
create_trigger show id tenant (some t) defs rows =
    trigger_checked (validate_predicate t.predicate) show id tenant t defs rows

unfoldable pub triggers_in : String → List TriggerRow → List TriggerRow
triggers_in tenant [] = []
triggers_in tenant (t ∷ ts) =
    let rest = triggers_in tenant ts in if str_eq t.tenant tenant then t ∷ rest else rest

abbrev views_of_triggers : (Value → String) → List TriggerRow → List TriggerView
views_of_triggers show [] = []
views_of_triggers show (t ∷ ts) = view_trigger show t ∷ views_of_triggers show ts

unfoldable pub list_triggers :
    (Value → String) → String → List TriggerRow → Response (List TriggerView)
list_triggers show tenant rows = okay (views_of_triggers show (triggers_in tenant rows))

-- `get_object` of `ModelViewSet`, of the rows that `get_queryset` filters.
unfoldable pub find_trigger : String → String → List TriggerRow → Option TriggerRow
find_trigger tenant id [] = none
find_trigger tenant id (t ∷ ts) =
    let rest = find_trigger tenant id ts in
    if str_eq t.tenant tenant && str_eq t.id id then some t else rest

abbrev shown_trigger : (Value → String) → Option TriggerRow → Response TriggerView
shown_trigger show none = not_found
shown_trigger show (some t) = okay (view_trigger show t)

unfoldable pub get_trigger :
    (Value → String) → String → String → List TriggerRow → Response TriggerView
get_trigger show tenant id rows = shown_trigger show (find_trigger tenant id rows)

unfoldable pub without_trigger : String → List TriggerRow → List TriggerRow
without_trigger id [] = []
without_trigger id (t ∷ ts) =
    let rest = without_trigger id ts in if str_eq t.id id then rest else t ∷ rest

abbrev destroyed : String → Option TriggerRow → List TriggerRow → Response Unit × List TriggerRow
destroyed id none rows = (not_found, rows)
destroyed id (some t) rows = (no_content, without_trigger id rows)

-- `destroy` of `ModelViewSet`. No row refers to a trigger.
unfoldable pub delete_trigger : String → String → List TriggerRow → Response Unit × List TriggerRow
delete_trigger tenant id rows = destroyed id (find_trigger tenant id rows) rows

abbrev with_clauses : TriggerRow → Value → Option Spec → Option Trigger
with_clauses row (obj fs) (some spec) = some (record {
  id = row.id;
  name = row.name;
  tenant = row.tenant;
  entity_type = row.entity_type;
  predicate = clauses_of fs;
  definition = spec;
  enabled = row.enabled;
  input_template = row.input_template;
})
with_clauses row _ _ = none

-- The row as the dispatcher reads it; `none` if its predicate or its definition cannot be read.
unfoldable pub trigger_of : TriggerRow → Option Trigger
trigger_of row = with_clauses row row.predicate (read_spec row.definition.spec)
