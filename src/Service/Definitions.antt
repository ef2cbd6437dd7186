-- ===== src/Service/Definitions.antt =====
-- `create_definition` of engine/service.py: the versions of a workflow.
use nutanix_hack.Prelude.{
  ℕ, suc, ◌+◌, ◌≡◌, refl, subst, Bool, true, ◌&&◌, String, none, some, List, [], ◌∷◌, ◌++◌, arith,
  str_eq, eq_iff, ltb, length, if◌then◌else◌, Bool-cases, Option-cases, inl, inr,
}
use nutanix_hack.Prelude.Int.{pos}
use nutanix_hack.Json.{Value, str, num, obj, get_field, set_field}
use nutanix_hack.Spec.Validate.{SpecError}
use nutanix_hack.Spec.Cycle.{validate_spec}

pub record WorkflowDef : Type 0 where
  pub tenant : String
  pub name : String
  pub version : ℕ
  pub spec : Value
  pub description : String

pub data Created : Type 0 where
  refused : SpecError → Created
  created : WorkflowDef → Created

abbrev pub is_of : String → String → WorkflowDef → Bool
is_of tenant name d = str_eq d.tenant tenant && str_eq d.name name

-- The version of the first row by `-version`, 0 where there is none.
unfoldable pub latest_version : String → String → List WorkflowDef → ℕ
latest_version tenant name [] = 0
latest_version tenant name (d ∷ ds) =
    let rest = latest_version tenant name ds in
    if is_of tenant name d then (if ltb rest d.version then d.version else rest) else rest

-- `spec["name"]` of a spec that is valid
abbrev pub name_of : Value → String
name_of (obj spec) = elim (get_field spec "name") [ some (str name) ↦ name | _ ↦ "" ]
name_of _ = ""

-- `dict(spec)` with its version.
abbrev pub versioned : Value → ℕ → Value
versioned (obj spec) version = obj (set_field spec "version" (num (pos version)))
versioned v version = v

unfoldable pub store_definition :
    String → Value → String → List WorkflowDef → Created × List WorkflowDef
store_definition tenant spec description defs =
    let version = suc (latest_version tenant (name_of spec) defs) in
    let row : WorkflowDef = record {
      tenant = tenant;
      name = name_of spec;
      version = version;
      spec = versioned spec version;
      description = description;
    } in
    (created row, defs ++ row ∷ [])

unfoldable pub create_definition :
    String → Value → String → List WorkflowDef → Created × List WorkflowDef
create_definition tenant spec description defs = elim (validate_spec spec) [
  | some e ↦ (refused e, defs)
  | none ↦ store_definition tenant spec description defs
]

-- The rows of one workflow of one tenant.
abbrev pub rows_of : String → String → List WorkflowDef → List WorkflowDef
rows_of tenant name [] = []
rows_of tenant name (d ∷ ds) =
    let rest = rows_of tenant name ds in if is_of tenant name d then d ∷ rest else rest

abbrev pub CountedFrom : ℕ → List WorkflowDef → Type 0
CountedFrom n [] = Unit {0}
CountedFrom n (d ∷ ds) = (d.version ≡ suc n) × CountedFrom (suc n) ds

-- The versions of each workflow are 1, 2, 3, …
pub record AreVersioned (defs : List WorkflowDef) : Type 0 where
  pub at : (tenant name : String) → CountedFrom 0 (rows_of tenant name defs)

latest_version-counted :
    (n : ℕ) (tenant name : String) (defs : List WorkflowDef)
    → CountedFrom n (rows_of tenant name defs)
    → latest_version tenant name defs ≡ (
        if ltb 0 (length (rows_of tenant name defs))
        then n + length (rows_of tenant name defs)
        else 0)
unfolding latest_version
latest_version-counted n tenant name [] h = refl
latest_version-counted n tenant name (d ∷ ds) h = elim (Bool-cases (is_of tenant name d)) [
  | inl e ↦
      let counted : CountedFrom n (d ∷ rows_of tenant name ds) = rw e at h in
      let rest = latest_version-counted (suc n) tenant name ds counted.1 in
      rw e (ground (arith, counted.0, rest))
  | inr e ↦ rw e (latest_version-counted n tenant name ds (rw e at h))
]

rows_of-append :
    (tenant name : String) (ds : List WorkflowDef) (d : WorkflowDef)
    → rows_of tenant name (ds ++ d ∷ [])
      ≡ (if is_of tenant name d then rows_of tenant name ds ++ d ∷ [] else rows_of tenant name ds)
rows_of-append tenant name [] d = refl
rows_of-append tenant name (e ∷ ds) d = ground (arith, rows_of-append tenant name ds d)

CountedFrom-append :
    (n : ℕ) (ds : List WorkflowDef) (d : WorkflowDef)
    → CountedFrom n ds
    → d.version ≡ suc (n + length ds)
    → CountedFrom n (ds ++ d ∷ [])
CountedFrom-append n [] d h e = (omega arith, tt)
CountedFrom-append n (c ∷ ds) d h e = (h.0, CountedFrom-append (suc n) ds d h.1 (omega arith))

next_version :
    (tenant name : String) (defs : List WorkflowDef)
    → CountedFrom 0 (rows_of tenant name defs)
    → latest_version tenant name defs ≡ length (rows_of tenant name defs)
next_version tenant name defs h = ground (arith, latest_version-counted 0 tenant name defs h)

same_workflow :
    (tenant name : String) (d : WorkflowDef)
    → is_of tenant name d ≡ true
    → (d.tenant ≡ tenant) × (d.name ≡ name)
same_workflow tenant name d h =
    (ground (arith, eq_iff d.tenant tenant), ground (arith, eq_iff d.name name))

stored-AreVersioned :
    (defs : List WorkflowDef) (d : WorkflowDef)
    → AreVersioned defs
    → d.version ≡ suc (latest_version d.tenant d.name defs)
    → AreVersioned (defs ++ d ∷ [])
stored-AreVersioned defs d h e = record {
  at = λ tenant name.
      rw (rows_of-append tenant name defs d) (elim (Bool-cases (is_of tenant name d)) [
        | inr apart ↦ rw apart (h.at tenant name)
        | inl same ↦
            let (t, n) = same_workflow tenant name d same in
            let version : d.version ≡ suc (latest_version tenant name defs) =
              subst (λ y. d.version ≡ suc (latest_version tenant y defs)) n
                (subst (λ x. d.version ≡ suc (latest_version x d.name defs)) t e) in
            rw same (
              CountedFrom-append 0 (rows_of tenant name defs) d (h.at tenant name)
                (omega (arith, version, next_version tenant name defs (h.at tenant name))))
      ]);
}

-- If the versions of each workflow of each tenant are 1, 2, 3, … in the order in which they were
-- stored, this still holds after create_definition, whether it stores the definition or refuses it.
pub create_definition-AreVersioned :
    (tenant : String) (spec : Value) (description : String) (defs : List WorkflowDef)
    → AreVersioned defs
    → AreVersioned (create_definition tenant spec description defs).1
unfolding create_definition store_definition
create_definition-AreVersioned tenant spec description defs h =
    elim (Option-cases (validate_spec spec)) [
      | inr (e, invalid) ↦ rw (invalid, create_definition) h
      | inl valid ↦ rw (valid, create_definition) (stored-AreVersioned defs _ h refl)
    ]
