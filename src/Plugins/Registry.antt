-- ===== src/Plugins/Registry.antt =====
-- The types that engine/spec.py lets pass and those that engine/steps has a plugin for.
use nutanix_hack.Prelude.{
  ◌≡◌, Bool, true, false, String, none, some, arith, contains, str_eq, eq_iff,
}
use nutanix_hack.Spec.Validate.{known_step_types}
use nutanix_hack.Plugins.{get_plugin}
use nutanix_hack.Plugins.Validate.{registered_types}

abbrev pub is_registered : String → Bool
is_registered type = elim (get_plugin type) [ none ↦ false | some plugin ↦ true ]

str_eq_comm : (a b : String) → str_eq a b ≡ str_eq b a
str_eq_comm a b = ground (arith, eq_iff a b, eq_iff b a)

-- The step types that the checks of a definition know, and those that Plugins/Validate asks for, are
-- exactly the types with a plugin.
pub known_types_registered :
    (type : String)
    → (contains known_step_types type ≡ is_registered type)
      × (contains registered_types type ≡ is_registered type)
unfolding get_plugin
known_types_registered type =
    let noops = str_eq_comm type "noop" in
    let shells = str_eq_comm type "shell" in
    let https = str_eq_comm type "http" in
    let waits = str_eq_comm type "wait" in
    let approvals = str_eq_comm type "approval" in (ground arith, ground arith)
