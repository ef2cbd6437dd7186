-- ===== src/Spec/Validate.antt =====
-- `validate_spec` of engine/spec.py on the JSON that a user submits, up to the search for cycles.
use Prim.Native.Char.{code}
use Prim.Native.String.{String, [], ◌∷◌}
use nutanix_hack.Prelude.{
  ℕ, suc, Bool, true, false, not, ◌&&◌, Option, none, some, List, [], ◌∷◌, contains, if◌then◌else◌,
}
use nutanix_hack.Prelude.Int.{ℤ, pos, ltb_ℤ}
use nutanix_hack.Json.{
  Value, Fields, Items, null, bool, str, num, obj, arr, end, field, nil, cons, get_field,
}
use nutanix_hack.Expressions.Paths.{is_space}

abbrev pub known_step_types : List String
known_step_types = "http" ∷ "shell" ∷ "wait" ∷ "noop" ∷ "approval" ∷ []

abbrev pub valid_on_error : List String
valid_on_error = "fail" ∷ "compensate" ∷ "continue" ∷ []

abbrev valid_backoff : List String
valid_backoff = "exponential" ∷ "linear" ∷ "fixed" ∷ []

-- A WorkflowSpecError by the place that raises it; `type_error` is the TypeError that gets out
-- instead, of a list or an object looked up in a set, or of `needs` that cannot be listed.
pub data SpecError : Type 0 where
  not_an_object no_name no_steps : SpecError
  step_not_object no_id : ℕ → SpecError
  duplicate_id unknown_type config_not_object bad_on_error : String → SpecError
  retry_not_object bad_max bad_backoff bad_base_ms : String → SpecError
  compensate_not_object bad_compensate_type need_not_text : String → SpecError
  unknown_need : String → String → SpecError
  cycle : List String → SpecError
  type_error key_error out_of_fuel : SpecError

-- A check that passes (`none`) or raises.
abbrev pub Check : Type 0
Check = Option SpecError

infixr 20 ◌then_check◌
abbrev pub ◌then_check◌ : Check → Check → Check
none then_check later = later
(some e) then_check later = some e

abbrev pub refuse_if : Bool → SpecError → Check
refuse_if b e = if b then some e else none

-- `value not in names`, of a set: a list or an object cannot be looked up.
unfoldable pub unless_in : List String → Option Value → SpecError → Check
unless_in names (some (str s)) e = refuse_if (not (contains names s)) e
unless_in names (some (arr xs)) e = some type_error
unless_in names (some (obj fs)) e = some type_error
unless_in names _ e = some e

abbrev pub or_value : Option Value → Value → Option Value
or_value none v = some v
or_value (some w) v = some w

-- `not s.strip()`
abbrev pub is_blank : String → Bool
is_blank [] = true
is_blank (c ∷ s) = is_space (code c) && is_blank s

-- `needs_of`, of a step as JSON; `none` is a TypeError.
abbrev pub keys_as_items : Fields → Items
keys_as_items end = nil
keys_as_items (field k v fs) = cons (str k) (keys_as_items fs)

unfoldable pub needs_items : Option Value → Option Items
needs_items none = some nil
needs_items (some (str s)) = some (cons (str s) nil)
needs_items (some (arr xs)) = some xs
needs_items (some (obj fs)) = some (keys_as_items fs)
needs_items (some _) = none

-- `isinstance(v, int) and v >= least`: a bool is an int.
unfoldable pub is_int_from : ℤ → Option Value → Bool
is_int_from least (some (num n)) = not (ltb_ℤ n least)
is_int_from least (some (bool b)) = not (ltb_ℤ (if b then pos 1 else pos 0) least)
is_int_from least _ = false

unfoldable pub validate_retry : String → Option Value → Check
validate_retry sid none = none
validate_retry sid (some null) = none
validate_retry sid (some (obj retry)) =
    refuse_if (not (is_int_from (pos 1) (or_value (get_field retry "max") (num (pos 1)))))
      (bad_max sid)
    then_check unless_in valid_backoff (or_value (get_field retry "backoff") (str "exponential"))
        (bad_backoff sid)
    then_check refuse_if
        (not (is_int_from (pos 0) (or_value (get_field retry "base_ms") (num (pos 500)))))
        (bad_base_ms sid)
validate_retry sid (some _) = some (retry_not_object sid)

unfoldable pub validate_compensate : String → Option Value → Check
validate_compensate sid none = none
validate_compensate sid (some null) = none
validate_compensate sid (some (obj comp)) =
    unless_in known_step_types (get_field comp "type") (bad_compensate_type sid)
validate_compensate sid (some _) = some (compensate_not_object sid)

abbrev pub check_config : String → Option Value → Check
check_config sid none = none
check_config sid (some (obj fs)) = none
check_config sid (some _) = some (config_not_object sid)

abbrev pub all_texts : Items → Bool
all_texts nil = true
all_texts (cons (str s) xs) = all_texts xs
all_texts (cons _ xs) = false

abbrev pub check_needs : String → Option Items → Check
check_needs sid none = some type_error
check_needs sid (some needs) = refuse_if (not (all_texts needs)) (need_not_text sid)

-- The checks of one step whose id is a text that is not blank.
unfoldable pub check_step : List String → String → Fields → Check
check_step seen sid step =
    refuse_if (contains seen sid) (duplicate_id sid)
    then_check unless_in known_step_types (get_field step "type") (unknown_type sid)
    then_check check_config sid (get_field step "config")
    then_check unless_in valid_on_error (or_value (get_field step "on_error") (str "fail"))
        (bad_on_error sid)
    then_check validate_retry sid (get_field step "retry")
    then_check validate_compensate sid (get_field step "compensate")
    then_check check_needs sid (needs_items (get_field step "needs"))

-- `step.get("id")`, where it is a text that is not blank.
unfoldable pub id_of : Fields → Option String
id_of step = elim (get_field step "id") [
  | some (str sid) ↦ if is_blank sid then none else some sid
  | _ ↦ none
]

-- The first loop of `validate_spec`, with what it has seen.
unfoldable pub check_steps : ℕ → List String → Items → Check
check_steps index seen nil = none
check_steps index seen (cons (obj step) steps) = elim (id_of step) [
  | none ↦ some (no_id index)
  | some sid ↦ check_step seen sid step then_check check_steps (suc index) (sid ∷ seen) steps
]
check_steps index seen (cons _ steps) = some (step_not_object index)

unfoldable pub ids_of : Items → List String
ids_of nil = []
ids_of (cons (obj step) steps) = elim (id_of step) [
  | none ↦ ids_of steps
  | some sid ↦ sid ∷ ids_of steps
]
ids_of (cons _ steps) = ids_of steps

abbrev pub check_known : String → List String → Items → Check
check_known sid seen nil = none
check_known sid seen (cons (str dep) deps) =
    refuse_if (not (contains seen dep)) (unknown_need sid dep) then_check check_known sid seen deps
check_known sid seen (cons _ deps) = some type_error

abbrev pub needs_known : String → List String → Option Items → Check
needs_known sid seen none = some type_error
needs_known sid seen (some deps) = check_known sid seen deps

-- The second loop: dependencies on steps that are not there.
unfoldable pub check_dangling : List String → Items → Check
check_dangling seen nil = none
check_dangling seen (cons (obj step) steps) = elim (id_of step) [
  | none ↦ check_dangling seen steps
  | some sid ↦
      needs_known sid seen (needs_items (get_field step "needs"))
      then_check check_dangling seen steps
]
check_dangling seen (cons _ steps) = check_dangling seen steps
