-- ===== src/Seeds/Store.antt =====
-- How the seed commands store their data: the parts of `handle` of seed_demo, seed_graph and
-- seed_joiner, less what they print.
use nutanix_hack.Prelude.{
  ℕ, suc, leb, Bool, true, false, ◌&&◌, String, Option, none, some, List, [], ◌∷◌, str_eq,
  if◌then◌else◌,
}
use nutanix_hack.Json.{Value, Fields, null, str, obj, get_field}
use nutanix_hack.Predicates.Values.{same_value}
use nutanix_hack.Spec.Validate.{SpecError}
use nutanix_hack.Service.Definitions.{
  WorkflowDef, Created, refused, created, create_definition, name_of,
}
use nutanix_hack.Graph.{EntityKey, Graph, upsert_entity}
use nutanix_hack.Api.Workflows.{newest}
use nutanix_hack.Api.Triggers.{TriggerRow}
use nutanix_hack.Seeds.Demo.{linear, diamond, failing}
use nutanix_hack.Seeds.Patience.{slow, flaky, waiting, approval}
use nutanix_hack.Seeds.Upgrade.{rolling_upgrade}

-- `steps == steps`, of steps that are absent too.
abbrev pub is_same : Option Value → Option Value → Bool
is_same old none = false
is_same none (some new) = same_value null new
is_same (some old) (some new) = same_value old new

-- `existing.spec.get("steps") == spec["steps"]`; each of the seeds has steps.
abbrev pub same_steps : Value → Value → Bool
same_steps (obj old) (obj new) = is_same (get_field old "steps") (get_field new "steps")
same_steps _ _ = false

abbrev pub seed_over :
    Option WorkflowDef → String → Value → List WorkflowDef → Created × List WorkflowDef
seed_over none tenant spec defs = create_definition tenant spec "" defs
seed_over (some existing) tenant spec defs =
    let new = create_definition tenant spec "" defs in
    if same_steps existing.spec spec then (created existing, defs) else new

-- The definition that the command goes on with: the newest of its name, or a new version of it where
-- the steps are others.
unfoldable pub seed_workflow : String → Value → List WorkflowDef → Created × List WorkflowDef
seed_workflow tenant spec defs = seed_over (newest tenant (name_of spec) defs) tenant spec defs

-- Up to the first that is refused.
unfoldable pub seed_workflows :
    String → List Value → List WorkflowDef → Option SpecError × List WorkflowDef
seed_workflows tenant [] defs = (none, defs)
seed_workflows tenant (spec ∷ specs) defs =
    let (answer, after) = seed_workflow tenant spec defs in
    let rest = seed_workflows tenant specs after in
    elim answer [ refused e ↦ (some e, after) | created d ↦ rest ]

unfoldable pub seed_demo : String → List WorkflowDef → Option SpecError × List WorkflowDef
seed_demo tenant defs =
    seed_workflows tenant
      (linear ∷ diamond ∷ failing ∷ slow ∷ flaky ∷ waiting ∷ approval ∷ rolling_upgrade ∷ []) defs

-- `upsert_entity` of each in turn.
unfoldable pub seed_entities : String → String → List (String × Fields) → Graph → Graph
seed_entities tenant type [] g = g
seed_entities tenant type ((external_id, attrs) ∷ rows) g =
    let key : EntityKey = record { tenant = tenant; type = type; external_id = external_id } in
    seed_entities tenant type rows (upsert_entity key attrs false g).1

abbrev text_at : Fields → String → String
text_at fs k = elim (get_field fs k) [ some (str s) ↦ s | _ ↦ "" ]

abbrev value_at : Fields → String → Value
value_at fs k = elim (get_field fs k) [ some v ↦ v | none ↦ null ]

-- The defaults of `update_or_create`.
abbrev with_defaults : Fields → WorkflowDef → String → String → TriggerRow
with_defaults t definition id tenant = record {
  id = id;
  tenant = tenant;
  name = text_at t "name";
  entity_type = text_at t "entity_type";
  predicate = value_at t "predicate";
  input_template = value_at t "input_template";
  definition = definition;
  enabled = true;
}

abbrev is_named : String → Fields → TriggerRow → Bool
is_named tenant t row = str_eq row.tenant tenant && str_eq row.name (text_at t "name")

unfoldable pub named_count : String → Fields → List TriggerRow → ℕ
named_count tenant t [] = 0
named_count tenant t (row ∷ rows) =
    let rest = named_count tenant t rows in if is_named tenant t row then suc rest else rest

-- The row of that name with the defaults, or a row that is added, whose id is fresh.
unfoldable pub put_trigger :
    String → String → Fields → WorkflowDef → List TriggerRow → List TriggerRow
put_trigger id tenant t definition [] = with_defaults t definition id tenant ∷ []
put_trigger id tenant t definition (row ∷ rows) =
    let rest = put_trigger id tenant t definition rows in
    if is_named tenant t row then with_defaults t definition row.id tenant ∷ rows else row ∷ rest

-- How a command ends: what is written before an exception stays.
pub data Outcome : Type 0 where
  done : Outcome
  refused_by : SpecError → Outcome
  multiple_objects : Outcome

-- `Trigger.objects.update_or_create(tenant=…, name=…, defaults=…)`. No constraint keeps names apart.
unfoldable pub seed_trigger :
    String → String → Fields → WorkflowDef → List TriggerRow → Outcome × List TriggerRow
seed_trigger id tenant t definition rows =
    let after = put_trigger id tenant t definition rows in
    if leb (named_count tenant t rows) 1 then (done, after) else (multiple_objects, rows)

-- A trigger whose workflow is not there is skipped. The ids are fresh, one for each.
unfoldable pub seed_triggers :
    String → List (String × Fields) → List WorkflowDef → List TriggerRow → Outcome × List TriggerRow
seed_triggers tenant [] defs rows = (done, rows)
seed_triggers tenant ((id, t) ∷ ts) defs rows = elim (newest tenant (text_at t "workflow") defs) [
  | none ↦ seed_triggers tenant ts defs rows
  | some target ↦
      let (outcome, after) = seed_trigger id tenant t target rows in
      elim outcome [ done ↦ seed_triggers tenant ts defs after | failed ↦ (failed, after) ]
]
