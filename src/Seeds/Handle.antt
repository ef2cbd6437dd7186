-- ===== src/Seeds/Handle.antt =====
-- `handle` of seed_graph, seed_joiner and seed_tenant, less what they print.
use nutanix_hack.Prelude.{ℕ, suc, String, Option, none, some, List, [], ◌∷◌}
use nutanix_hack.Json.{Value, Fields, obj, end}
use nutanix_hack.Service.Definitions.{
  WorkflowDef, Created, refused, created, create_definition, name_of,
}
use nutanix_hack.Graph.{Graph}
use nutanix_hack.Api.Workflows.{newest}
use nutanix_hack.Api.Triggers.{TriggerRow}
use nutanix_hack.Seeds.Store.{
  Outcome, refused_by, seed_workflow, seed_entities, seed_trigger, seed_triggers,
}
use nutanix_hack.Seeds.Employees.{onboarding, graph_triggers, employees, seed_nodes}
use nutanix_hack.Seeds.Joiner.{new_joiner, joiner_trigger, people}
use nutanix_hack.Seeds.Acme.{acme_workflow, acme_trigger, acme_employees}

-- The tables that the commands write.
pub record Tables : Type 0 where
  pub defs : List WorkflowDef
  pub graph : Graph
  pub triggers : List TriggerRow

abbrev with_triggers : Tables → Outcome × List TriggerRow → Outcome × Tables
with_triggers t (outcome, rows) = (outcome, record t { triggers = rows })

-- The rows of the list as objects, each with the id that its row gets if it is created.
abbrev with_ids : (ℕ → String) → ℕ → List Value → List (String × Fields)
with_ids fresh n [] = []
with_ids fresh n (obj t ∷ ts) = (fresh n, t) ∷ with_ids fresh (suc n) ts
with_ids fresh n (t ∷ ts) = with_ids fresh n ts

abbrev fill_graph : (ℕ → String) → String → Tables → Outcome × Tables
fill_graph fresh tenant t =
    let people_there = seed_entities tenant "employee" employees t.graph in
    let filled = record t { graph = seed_entities tenant "node" seed_nodes people_there } in
    with_triggers filled
      (seed_triggers tenant (with_ids fresh 0 graph_triggers) filled.defs filled.triggers)

-- seed_graph; `fresh` gives the ids of the triggers that are created.
unfoldable pub seed_graph : (ℕ → String) → String → Tables → Outcome × Tables
seed_graph fresh tenant t =
    let (answer, defs) = seed_workflow tenant onboarding t.defs in
    let seeded = record t { defs = defs } in
    elim answer [ refused e ↦ (refused_by e, seeded) | created d ↦ fill_graph fresh tenant seeded ]

abbrev fields_of : Value → Fields
fields_of (obj fs) = fs
fields_of _ = end

-- The entities, then the one trigger, on the definition that there is.
abbrev fill :
    String
    → String
    → String
    → List (String × Fields)
    → Value
    → Created × List WorkflowDef
    → Tables
    → Outcome × Tables
fill id tenant type rows trigger (refused e, defs) t = (refused_by e, record t { defs = defs })
fill id tenant type rows trigger (created d, defs) t =
    with_triggers (record t { defs = defs; graph = seed_entities tenant type rows t.graph })
      (seed_trigger id tenant (fields_of trigger) d t.triggers)

-- seed_joiner; `id` is fresh.
unfoldable pub seed_joiner : String → String → Tables → Outcome × Tables
seed_joiner id tenant t =
    fill id tenant "person" people joiner_trigger (seed_workflow tenant new_joiner t.defs) t

-- The newest of the name, whatever its steps, else a new one.
abbrev pub seed_missing :
    Option WorkflowDef → String → Value → List WorkflowDef → Created × List WorkflowDef
seed_missing none tenant spec defs = create_definition tenant spec "" defs
seed_missing (some existing) tenant spec defs = (created existing, defs)

-- seed_tenant, of a tenant that is there; `id` is fresh.
unfoldable pub seed_tenant : String → String → Tables → Outcome × Tables
seed_tenant id tenant t =
    fill id tenant "employee" acme_employees acme_trigger
      (seed_missing (newest tenant (name_of acme_workflow) t.defs) tenant acme_workflow t.defs) t
