-- ===== src/Spec.antt =====
-- engine/spec.py: a workflow definition, as the engine reads it once `validate_spec` has passed.
pub mod Validate
pub mod Cycle
pub mod Read
pub mod StepRead
pub mod Needed
pub mod Valid
pub mod Order
mod Examples
use nutanix_hack.Prelude.{
  Bool, String, Option, none, some, List, [], ◌∷◌, str_eq, if◌then◌else◌, map,
}
use nutanix_hack.Prelude.Int.{ℤ}
use nutanix_hack.Json.{Value}

pub data OnError : Type 0 where
  fail compensate «continue» : OnError

pub data Backoff : Type 0 where
  exponential linear fixed : Backoff

-- A `retry` block; a missing key is `none`.
pub record RetryConfig : Type 0 where
  pub max_attempts : Option ℤ
  pub backoff : Option Backoff
  pub base_ms : Option ℤ
  pub max_ms : Option ℤ
  -- `int` takes the value of `max`; it takes those of `base_ms` and `max_ms`.
  pub max_is_int : Bool
  pub delays_are_ints : Bool

-- A `compensate` block.
pub record Compensation : Type 0 where
  pub type : Option String
  pub config : Option Value
  pub retry : Option RetryConfig

-- The value of `needs`: absent, one text, or a list of texts.
pub data Needs : Type 0 where
  absent : Needs
  one : String → Needs
  many : List String → Needs

pub record Step : Type 0 where
  pub id : String
  pub type : String
  pub needs : Needs
  pub config : Option Value
  pub on_error : Option OnError
  pub retry : Option RetryConfig
  pub compensate : Option Compensation

pub record Spec : Type 0 where
  pub name : String
  pub steps : List Step

abbrev pub list_of : Needs → List String
list_of absent = []
list_of (one dep) = dep ∷ []
list_of (many deps) = deps

unfoldable pub needs_of : Step → List String
needs_of step = list_of step.needs

-- `steps_by_id(spec).get(sid)`: of two steps with one id the dict keeps the later.
unfoldable pub find_step : List Step → String → Option Step
find_step [] sid = none
find_step (s ∷ rest) sid = elim (find_step rest sid) [
  | some later ↦ some later
  | none ↦ if str_eq s.id sid then some s else none
]

abbrev pub steps_by_id : Spec → String → Option Step
steps_by_id spec = find_step spec.steps

unfoldable pub step_ids : Spec → List String
step_ids spec = map (λ s. s.id) spec.steps
