-- ===== src/Api/Workflows.antt =====
-- `WorkflowDefViewSet` of engine/views.py with its serializers.
use nutanix_hack.Prelude.{
  ℕ, suc, Bool, true, false, String, Option, none, some, List, [], ◌∷◌, str_eq, ltb, if◌then◌else◌,
}
use nutanix_hack.Json.{Value, Items, arr, obj, nil, cons, get_field}
use nutanix_hack.Spec.Validate.{SpecError, type_error, key_error, out_of_fuel}
use nutanix_hack.Spec.Cycle.{validate_spec}
use nutanix_hack.Service.Definitions.{
  WorkflowDef, Created, refused, created, create_definition, is_of,
}
use nutanix_hack.Api.{Response, okay, bad_request, server_error}
use nutanix_hack.Api
use nutanix_hack.Plugins.Validate.{registered_types}

abbrev length_of : Items → ℕ
length_of nil = 0
length_of (cons x xs) = suc (length_of xs)

-- `len(obj.spec.get("steps", []))`, of a spec that was stored.
unfoldable pub step_count : Value → ℕ
step_count (obj fs) = elim (get_field fs "steps") [ some (arr xs) ↦ length_of xs | _ ↦ 0 ]
step_count _ = 0

-- `WorkflowDefSerializer`
pub record DefinitionView : Type 0 where
  pub name : String
  pub version : ℕ
  pub description : String
  pub spec : Value
  pub step_count : ℕ

abbrev pub view_of : WorkflowDef → DefinitionView
view_of d = record {
  name = d.name;
  version = d.version;
  description = d.description;
  spec = d.spec;
  step_count = step_count d.spec;
}

unfoldable pub definitions_of : String → List WorkflowDef → List WorkflowDef
definitions_of tenant [] = []
definitions_of tenant (d ∷ ds) =
    let rest = definitions_of tenant ds in if str_eq d.tenant tenant then d ∷ rest else rest

abbrev views_of : List WorkflowDef → List DefinitionView
views_of [] = []
views_of (d ∷ ds) = view_of d ∷ views_of ds

unfoldable pub list_workflows : String → List WorkflowDef → Response (List DefinitionView)
list_workflows tenant defs = okay (views_of (definitions_of tenant defs))

-- `WorkflowDefCreateSerializer.validate_spec` turns a WorkflowSpecError into a 400; other exceptions
-- get out.
abbrev pub escapes : SpecError → Bool
escapes type_error = true
escapes key_error = true
escapes out_of_fuel = true
escapes e = false

abbrev pub refusal : {A : Type 0} → SpecError → Response A
refusal e = if escapes e then server_error else bad_request

abbrev pub reply_created : Created × List WorkflowDef → Response DefinitionView × List WorkflowDef
reply_created (refused e, defs) = (refusal e, defs)
reply_created (created d, defs) = (Api.created (view_of d), defs)

abbrev pub create_checked :
    Option SpecError
    → String
    → Value
    → String
    → List WorkflowDef
    → Response DefinitionView × List WorkflowDef
create_checked (some e) tenant spec description defs = (refusal e, defs)
create_checked none tenant spec description defs =
    reply_created (create_definition tenant spec description defs)

-- `create`, of a spec and a description.
unfoldable pub create_workflow :
    String → Option (Value × String) → List WorkflowDef → Response DefinitionView × List WorkflowDef
create_workflow tenant none defs = (bad_request, defs)
create_workflow tenant (some (spec, description)) defs =
    create_checked (validate_spec spec) tenant spec description defs

unfoldable pub step_types : Response (List String)
step_types = okay registered_types

abbrev pub later : WorkflowDef → Option WorkflowDef → WorkflowDef
later d none = d
later d (some e) = if ltb d.version e.version then e else d

-- `order_by("-version").first()` of the definitions of a name.
unfoldable pub newest : String → String → List WorkflowDef → Option WorkflowDef
newest tenant name [] = none
newest tenant name (d ∷ ds) =
    let rest = newest tenant name ds in if is_of tenant name d then some (later d rest) else rest
