-- ===== src/Seeds/Again.antt =====
-- Seeding a workflow that is seeded already.
use nutanix_hack.Prelude.{
  ℕ, suc, ◌⊎◌, ◌++◌, [], ◌∷◌, ◌≡◌, refl, String, none, some, List, arith, eq_refl, Bool-cases,
  Option-cases, inl, inr, true,
}
use nutanix_hack.Prelude.Int.{pos}
use nutanix_hack.Json.{Value, Fields, num, obj, get_field}
use nutanix_hack.Spec.Cycle.{validate_spec}
use nutanix_hack.Service.Definitions.{
  WorkflowDef, created, store_definition, name_of, versioned, latest_version,
}
use nutanix_hack.Graph.Proper.{AreProper, same_value_refl, get_field-IsProper, get_field-set_field}
use nutanix_hack.Api.Workflows.{newest}
use nutanix_hack.Api.Newest.{newest-append, stores}
use nutanix_hack.Seeds.Store.{seed_workflow, same_steps}

-- A spec with its version in it has the steps that it had.
same_steps-versioned :
    (fs : Fields) (version : ℕ) (steps : Value)
    → AreProper fs
    → get_field fs "steps" ≡ some steps
    → same_steps (versioned (obj fs) version) (obj fs) ≡ true
same_steps-versioned fs version steps h e =
    rw (get_field-set_field fs "version" "steps" (num (pos version)), e)
      (same_value_refl steps (get_field-IsProper fs "steps" steps h e))

-- Where the newest row of the name has the steps, it is the one, and nothing is stored.
kept :
    (tenant : String) (spec : Value) (defs : List WorkflowDef) (d : WorkflowDef)
    → newest tenant (name_of spec) defs ≡ some d
    → same_steps d.spec spec ≡ true
    → seed_workflow tenant spec defs ≡ (created d, defs)
unfolding seed_workflow
kept tenant spec defs d e same = rw (e, same) refl

-- A row that was stored is the newest of its name, and has the steps.
stored_again :
    (tenant : String) (fs : Fields) (steps : Value) (defs : List WorkflowDef)
    → AreProper fs
    → get_field fs "steps" ≡ some steps
    → seed_workflow tenant (obj fs) (store_definition tenant (obj fs) "" defs).1
      ≡ store_definition tenant (obj fs) "" defs
unfolding store_definition
stored_again tenant fs steps defs h e =
    let version = suc (latest_version tenant (name_of (obj fs)) defs) in
    let row : WorkflowDef = record {
      tenant = tenant;
      name = name_of (obj fs);
      version = version;
      spec = versioned (obj fs) version;
      description = "";
    } in
    kept tenant (obj fs) (defs ++ row ∷ []) row
      (newest-append tenant (name_of (obj fs)) defs row
        (rw (eq_refl tenant, eq_refl (name_of (obj fs))) refl) (omega arith))
      (same_steps-versioned fs version steps h e)

-- What was seeded is a row of before with these steps, or one that is stored.
seeded-cases :
    (tenant : String) (fs : Fields) (defs : List WorkflowDef)
    → validate_spec (obj fs) ≡ none
    → ((d : WorkflowDef) × (newest tenant (name_of (obj fs)) defs ≡ some d)
        × (same_steps d.spec (obj fs) ≡ true))
      ⊎ (seed_workflow tenant (obj fs) defs ≡ store_definition tenant (obj fs) "" defs)
unfolding seed_workflow
seeded-cases tenant fs defs valid = elim (Option-cases (newest tenant (name_of (obj fs)) defs)) [
  | inl e ↦ inr (rw e (stores tenant (obj fs) "" defs valid))
  | inr (d, e) ↦ elim (Bool-cases (same_steps d.spec (obj fs))) [
    | inl same ↦ inl (d, e, same)
    | inr other ↦ inr (rw (e, other) (stores tenant (obj fs) "" defs valid))
  ]
]

-- If a spec is valid, has no key twice in an object and has steps, then seeding it a second time
-- stores nothing and answers with the definition of the first time, whatever definitions were there
-- before.
pub seed_workflow_again :
    (tenant : String) (fs : Fields) (steps : Value) (defs : List WorkflowDef)
    → validate_spec (obj fs) ≡ none
    → AreProper fs
    → get_field fs "steps" ≡ some steps
    → seed_workflow tenant (obj fs) (seed_workflow tenant (obj fs) defs).1
      ≡ seed_workflow tenant (obj fs) defs
seed_workflow_again tenant fs steps defs valid h e = elim (seeded-cases tenant fs defs valid) [
  | inl (d, found, same) ↦ let once = kept tenant (obj fs) defs d found same in rw (once, once) refl
  | inr stored ↦ rw stored (stored_again tenant fs steps defs h e)
]
