-- ===== src/Api/Newest.antt =====
-- A workflow that was posted is the one that a run of its name starts.
use nutanix_hack.Prelude.{
  suc, ◌<◌, ◌≡◌, refl, ap, subst, true, String, none, some, List, [], ◌∷◌, ◌++◌, arith, eq_refl,
  Bool-cases, Option-cases, inl, inr,
}
use nutanix_hack.Json.{Value}
use nutanix_hack.Spec.Validate.{SpecError}
use nutanix_hack.Spec.Cycle.{validate_spec}
use nutanix_hack.Service.Definitions.{
  WorkflowDef, create_definition, store_definition, latest_version, is_of, name_of, versioned,
}
use nutanix_hack.Api.{Response, okay, bad_request, server_error}
use nutanix_hack.Api
use nutanix_hack.Api.Workflows.{
  DefinitionView, view_of, refusal, escapes, reply_created, create_workflow, newest,
}
use nutanix_hack.Api.Runs.{StartRun, choose}

pub newest-append :
    (tenant name : String) (defs : List WorkflowDef) (d : WorkflowDef)
    → is_of tenant name d ≡ true
    → latest_version tenant name defs < d.version
    → newest tenant name (defs ++ d ∷ []) ≡ some d
unfolding newest latest_version
newest-append tenant name [] d same h = rw same refl
newest-append tenant name (e ∷ ds) d same h = elim (Bool-cases (is_of tenant name e)) [
  | inl s ↦
      let bound = rw s at h in
      rw (s, newest-append tenant name ds d same (ground arith)) (ground arith)
  | inr s ↦ rw s (newest-append tenant name ds d same (rw s at h))
]

-- The row that is stored, and the newest of its name afterwards.
record Stored (tenant : String) (v : DefinitionView) (defs : List WorkflowDef) : Type 0 where
  pub row : WorkflowDef
  pub shown : view_of row ≡ v
  pub latest : newest tenant v.name defs ≡ some row

store_definition-Stored :
    (tenant : String) (spec : Value) (description : String) (defs : List WorkflowDef)
    (v : DefinitionView)
    → (reply_created (store_definition tenant spec description defs)).0 ≡ Api.created v
    → Stored tenant v (reply_created (store_definition tenant spec description defs)).1
unfolding store_definition
store_definition-Stored tenant spec description defs v h =
    let row : WorkflowDef = record {
      tenant = tenant;
      name = name_of spec;
      version = suc (latest_version tenant (name_of spec) defs);
      spec = versioned spec (suc (latest_version tenant (name_of spec) defs));
      description = description;
    } in
    let shown : view_of row ≡ v = cc h in
    record {
      row = row;
      shown = shown;
      latest =
          subst (λ (u : DefinitionView). newest tenant u.name (defs ++ row ∷ []) ≡ some row) shown
            (newest-append tenant (name_of spec) defs row
              (rw (eq_refl tenant, eq_refl (name_of spec)) refl) (omega arith));
    }

-- A reply with an error.
not_created :
    (e : SpecError) (v : DefinitionView) → refusal {A = DefinitionView} e ≡ Api.created v → ⊥
not_created e v h = elim (Bool-cases (escapes e)) [
  | inl x ↦ cc (rw x at h)
  | inr x ↦ cc (rw x at h)
]

pub stores :
    (tenant : String) (spec : Value) (description : String) (defs : List WorkflowDef)
    → validate_spec spec ≡ none
    → create_definition tenant spec description defs ≡ store_definition tenant spec description defs
unfolding create_definition
stores tenant spec description defs e = rw (e, create_definition) refl

accepted :
    (tenant : String) (spec : Value) (description : String) (defs : List WorkflowDef)
    → validate_spec spec ≡ none
    → create_workflow tenant (some (spec, description)) defs
      ≡ reply_created (store_definition tenant spec description defs)
unfolding create_workflow
accepted tenant spec description defs e =
    rw e (ap reply_created (stores tenant spec description defs e))

rejected :
    (tenant : String) (spec : Value) (description : String) (defs : List WorkflowDef)
    (x : SpecError)
    → validate_spec spec ≡ some x
    → create_workflow tenant (some (spec, description)) defs ≡ (refusal x, defs)
unfolding create_workflow
rejected tenant spec description defs x e = rw e refl

posted-Stored :
    (tenant : String) (spec : Value) (description : String) (defs : List WorkflowDef)
    (v : DefinitionView)
    → (create_workflow tenant (some (spec, description)) defs).0 ≡ Api.created v
    → Stored tenant v (create_workflow tenant (some (spec, description)) defs).1
posted-Stored tenant spec description defs v h = elim (Option-cases (validate_spec spec)) [
  | inl e ↦
      let same = accepted tenant spec description defs e in
      rw same (store_definition-Stored tenant spec description defs v (rw same at h))
  | inr (x, e) ↦ absurd (not_created x v (rw (rejected tenant spec description defs x e) at h))
]

-- The definition that a run starts, and as what it was shown.
pub record Starts (tenant : String) (payload : StartRun) (v : DefinitionView)
    (defs : List WorkflowDef) : Type 0 where
  pub row : WorkflowDef
  pub chosen : choose tenant payload defs ≡ some row
  pub shown : view_of row ≡ v

-- If a workflow is posted and answered with 201, then a request for a run of its name without a
-- version chooses that definition, which is the one that the reply showed.
pub posted-Starts :
    (tenant : String) (spec : Value) (description : String) (defs : List WorkflowDef)
    (payload : StartRun) {v : DefinitionView}
    → (create_workflow tenant (some (spec, description)) defs).0 ≡ Api.created v
    → payload.workflow ≡ v.name
    → payload.version ≡ none
    → Starts tenant payload v (create_workflow tenant (some (spec, description)) defs).1
unfolding choose
posted-Starts tenant spec description defs payload {v} h named unversioned =
    let stored = posted-Stored tenant spec description defs v h in
    record {
      row = stored.row;
      chosen = rw (unversioned, named) stored.latest;
      shown = stored.shown;
    }
