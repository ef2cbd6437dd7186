-- ===== src/Plugins.antt =====
-- engine/steps: the registered step types, when they park a step and what they do. What they take
-- from outside (processes, the network, the clock, expressions) is in `Outside`.
pub mod Parking
pub mod Acts
pub mod Shell
pub mod Http
pub mod Executed
pub mod ShellRun
pub mod HttpAnswered
pub mod Captured
pub mod Validate
pub mod Registry
mod Examples
use nutanix_hack.Prelude.{
  ℕ, Bool, true, false, not, String, concat, Option, none, some, str_eq, or_else, if◌then◌else◌,
}
use nutanix_hack.Prelude.Dict
use nutanix_hack.Json.{
  Value, Fields, null, bool, num, str, arr, obj, empty_object, end, field, get_field,
}
use nutanix_hack.Replay.State.{StepStatus, Slot, Context}
use nutanix_hack.Replay.Queries.{has_status}

-- The names under which builtin.py registers its plugins.
pub data Plugin : Type 0 where
  noop shell http wait approval : Plugin

-- `get_plugin`; `none` is its StepError.
unfoldable pub get_plugin : String → Option Plugin
get_plugin type =
    if str_eq type "noop"
    then some noop
    else if str_eq type "shell"
    then some shell
    else if str_eq type "http"
    then some http
    else if str_eq type "wait"
    then some wait
    else if str_eq type "approval"
    then some approval
    else none

-- A step's result: a value, or the text of its error.
pub data Outcome : Type 0 where
  succeeded : Value → Outcome
  failed : String → Outcome

-- `render` of a config: a value, the text of an ExpressionError, or a TypeError.
pub data Rendered : Type 0 where
  rendered : Value → Rendered
  unrendered : String → Rendered
  render_raises : Rendered

-- `resume_at`: a moment, None, or an exception.
pub data Resume : Type 0 where
  resume_at : ℕ → Resume
  resume_never resume_raises : Resume

-- What the plugins ask of the world: `execute` of the types that act on it, the moment at which a
-- wait or an approval is over, `render`, and texts that Python prints.
pub record Outside : Type 0 where
  pub act : Plugin → Value → String → Outcome
  pub resume : Plugin → Value → ℕ → Resume
  pub render : Value → Context → Rendered
  pub show : Option Value → String
  pub repr : String → String
  pub unknown_type : String → String

unfoldable pub defers : Plugin → Bool
defers wait = true
defers approval = true
defers _ = false

-- `context["steps"].get(step_id, {}).get(flag)` for a flag that may be absent
abbrev asked_slot : Option Slot → Bool
asked_slot none = false
asked_slot (some slot) = slot.approval_requested

-- `should_defer` of the base class, and of the approval, which overrides it.
unfoldable pub should_defer : Plugin → Context → String → Bool
should_defer approval c sid = not (asked_slot (Dict.get c.steps sid))
should_defer _ c sid = not (has_status c StepStatus.waiting sid)

-- The config of a compensation need not be an object.
abbrev pub is_object : Value → Bool
is_object (obj fs) = true
is_object _ = false

-- `config.get(key)` of a rendered config that is an object.
unfoldable pub config_get : Value → String → Option Value
config_get (obj fs) key = get_field fs key
config_get _ key = none

-- `type(v).__name__`
abbrev type_name : Value → String
type_name null = "NoneType"
type_name (bool b) = "bool"
type_name (num n) = "int"
type_name (str s) = "str"
type_name (arr xs) = "list"
type_name (obj fs) = "dict"

-- The AttributeError of `config.get` on a config that is no object, as `_execute_step` records it.
abbrev no_get : Value → Outcome
no_get v =
    failed (concat (concat "AttributeError: '" (type_name v)) "' object has no attribute 'get'")

abbrev timed_out : Outside → Value → Outcome
timed_out outside (obj fs) = failed (
    concat (concat "approval timed out after " (outside.show (get_field fs "timeout_s")))
      "s with no decision recorded")
timed_out outside config = no_get config

approval_output : Slot → Value
approval_output slot = obj (
    field "approved" (bool true) (
      field "approved_by" (str (or_else slot.approved_by ""))
        (field "comment" (str (or_else slot.approval_comment "")) end)))

-- `ApprovalPlugin.execute`, of the slot.
unfoldable pub execute_approval : Outside → Value → Option Slot → Outcome
unfolding approval_output
execute_approval outside config none = timed_out outside config
execute_approval outside config (some slot) =
    if slot.approved then succeeded (approval_output slot) else timed_out outside config

-- `NoopPlugin.execute`: `dict(config.get("output", {}))`; what `dict` does to a value that is no
-- object is left to `act`.
unfoldable pub noop_output : Outside → Value → String → Option Value → Outcome
noop_output outside config key none = succeeded empty_object
noop_output outside config key (some (obj fs)) = succeeded (obj fs)
noop_output outside config key (some _) = outside.act noop config key

unfoldable pub execute_noop : Outside → Value → String → Outcome
execute_noop outside (obj fs) key = noop_output outside (obj fs) key (get_field fs "output")
execute_noop outside config key = no_get config

unfoldable pub execute : Outside → Plugin → Value → Context → String → String → Outcome
unfolding execute_approval execute_noop
execute outside noop config c key sid = execute_noop outside config key
execute outside wait config c key sid = succeeded (obj (field "waited" (bool true) end))
execute outside approval config c key sid = execute_approval outside config (Dict.get c.steps sid)
execute outside plugin config c key sid = outside.act plugin config key
