-- ===== src/Plugins/Validate.antt =====
-- `validate` of the five plugins of engine/steps/builtin.py, and the names in the registry.
use nutanix_hack.Prelude.{
  Bool, true, false, not, ◌&&◌, String, Option, none, some, List, [], ◌∷◌, contains, if◌then◌else◌,
}
use nutanix_hack.Prelude.Int.{ℤ, pos, ltb_ℤ}
use nutanix_hack.Json.{Value, null, bool, num, str, arr, nil}
use nutanix_hack.Predicates.Values.{number}
use nutanix_hack.Plugins.{Plugin, noop, shell, http, wait, approval, config_get}
use nutanix_hack.Plugins.Acts.{or_default}
use nutanix_hack.Plugins.Shell.{is_set}

-- A StepValidationError by the place that raises it; `not_a_text` is the AttributeError of a method
-- that is no text.
pub data Refusal : Type 0 where
  no_cmd no_url unsupported_method no_moment bad_duration bad_until no_prompt bad_timeout : Refusal
  bad_approvers not_a_text : Refusal

-- A check that passes (`none`) or raises.
abbrev pub Check : Type 0
Check = Option Refusal

abbrev refuse_if : Bool → Refusal → Check → Check
refuse_if b e later = if b then some e else later

abbrev pub http_methods : List String
http_methods = "GET" ∷ "POST" ∷ "PUT" ∷ "PATCH" ∷ "DELETE" ∷ "HEAD" ∷ []

unfoldable pub check_method : (String → String) → Value → Check
check_method upper (str method) =
    refuse_if (not (contains http_methods (upper method))) unsupported_method none
check_method upper method = some not_a_text

-- `isinstance(value, (int, float))`; a truth value is an `int`.
abbrev pub as_number : Value → Option ℤ
as_number (num n) = some n
as_number (bool b) = some (number b)
as_number _ = none

-- Not a number, or a number that the test refuses.
abbrev unless_number : Option ℤ → (ℤ → Bool) → Refusal → Check → Check
unless_number none refused e later = some e
unless_number (some n) refused e later = refuse_if (refused n) e later

unfoldable pub check_duration : Option Value → Check → Check
check_duration none later = later
check_duration (some duration) later =
    unless_number (as_number duration) (λ n. ltb_ℤ n (pos 0)) bad_duration later

-- `parses` is whether `_parse` raises no ValueError.
unfoldable pub check_until : (Value → Bool) → Option Value → Check
check_until parses none = none
check_until parses (some until) = refuse_if (not (parses until)) bad_until none

abbrev is_missing : Option Value → Bool
is_missing none = true
is_missing (some v) = false

unfoldable pub check_timeout : Value → Check → Check
check_timeout null later = later
check_timeout timeout later =
    unless_number (as_number timeout) (λ n. not (ltb_ℤ (pos 0) n)) bad_timeout later

unfoldable pub check_approvers : Value → Check
check_approvers (arr xs) = none
check_approvers _ = some bad_approvers

unfoldable pub validate : (String → String) → (Value → Bool) → Plugin → Value → Check
unfolding check_method check_duration check_until check_timeout check_approvers
validate upper parses noop config = none
validate upper parses shell config = refuse_if (not (is_set config "cmd")) no_cmd none
validate upper parses http config =
    refuse_if (not (is_set config "url")) no_url
      (check_method upper (or_default (config_get config "method") (str "GET")))
validate upper parses wait config =
    refuse_if
      (is_missing (config_get config "duration_s") && is_missing (config_get config "until"))
      no_moment
      (check_duration (config_get config "duration_s")
        (check_until parses (config_get config "until")))
validate upper parses approval config = refuse_if (not (is_set config "prompt")) no_prompt (
    check_timeout (or_default (config_get config "timeout_s") null)
      (check_approvers (or_default (config_get config "approvers") (arr nil))))

-- `registered_types()`, which is sorted.
abbrev pub registered_types : List String
registered_types = "approval" ∷ "http" ∷ "noop" ∷ "shell" ∷ "wait" ∷ []
