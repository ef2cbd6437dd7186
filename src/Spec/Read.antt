-- ===== src/Spec/Read.antt =====
-- A definition as the engine reads it: engine/spec.py, engine/replay.py and engine/retry.py take these
-- keys out of the JSON of a stored spec. `none` stands for a value that they cannot use, such as a
-- `type` that is no text; numbers that `int` does not take are marked in the retry block.
use nutanix_hack.Prelude.{
  String, Option, none, some, List, [], ◌∷◌, str_eq, or_else, Bool, true, false, ◌&&◌,
  if◌then◌else◌,
}
use nutanix_hack.Prelude.Int.{ℤ}
use nutanix_hack.Json.{
  Value, Fields, Items, null, bool, num, str, arr, obj, nil, cons, end, field, get_field,
}
use nutanix_hack.Predicates.{truth}
use nutanix_hack.Predicates.Values.{number}
use nutanix_hack.Spec.{
  Spec, Step, Needs, absent, one, many, OnError, Backoff, RetryConfig, Compensation,
}
use nutanix_hack.Spec.Validate.{id_of}

infixl 5 ◌>>=◌
abbrev pub ◌>>=◌ {ℓ κ} : {A : Type ℓ} {B : Type κ} → Option A → (A → Option B) → Option B
none >>= f = none
(some a) >>= f = f a

-- A key that may be missing, and whose value has to be of one type.
abbrev pub optional {ℓ} : {A : Type ℓ} → (Value → Option A) → Option Value → Option (Option A)
optional read none = some none
optional read (some v) = elim (read v) [ none ↦ none | some a ↦ some (some a) ]

abbrev pub as_int : Value → Option ℤ
as_int (num n) = some n
as_int (bool b) = some (number b)
as_int _ = none

abbrev pub as_text : Value → Option String
as_text (str s) = some s
as_text _ = none

abbrev backoff_named : String → Option Backoff
backoff_named s =
    if str_eq s "exponential"
    then some Backoff.exponential
    else if str_eq s "linear"
    then some Backoff.linear
    else if str_eq s "fixed"
    then some Backoff.fixed
    else none

abbrev pub on_error_named : String → Option OnError
on_error_named s =
    if str_eq s "fail"
    then some OnError.fail
    else if str_eq s "compensate"
    then some OnError.compensate
    else if str_eq s "continue"
    then some OnError.«continue»
    else none

unfoldable pub as_backoff : Value → Option Backoff
as_backoff (str s) = backoff_named s
as_backoff _ = none

unfoldable pub as_on_error : Value → Option OnError
as_on_error (str s) = on_error_named s
as_on_error _ = none

-- A key of `retry` as `int` takes it, and whether it does.
abbrev int_or_none : Option Value → Option ℤ
int_or_none none = none
int_or_none (some v) = as_int v

abbrev takes_int : Option Value → Bool
takes_int none = true
takes_int (some v) = elim (as_int v) [ none ↦ false | some n ↦ true ]

-- Any other strategy is the exponential one.
abbrev strategy : Option Value → Option Backoff
strategy none = none
strategy (some v) = some (or_else (as_backoff v) Backoff.exponential)

-- A value that is no object and is true has no `get`.
abbrev no_object : RetryConfig
no_object = record {
  max_attempts = none;
  backoff = none;
  base_ms = none;
  max_ms = none;
  max_is_int = false;
  delays_are_ints = false;
}

unfoldable pub read_retry : Option Value → Option RetryConfig
read_retry none = none
read_retry (some (obj fs)) = some (record {
  max_attempts = int_or_none (get_field fs "max");
  backoff = strategy (get_field fs "backoff");
  base_ms = int_or_none (get_field fs "base_ms");
  max_ms = int_or_none (get_field fs "max_ms");
  max_is_int = takes_int (get_field fs "max");
  delays_are_ints = takes_int (get_field fs "base_ms") && takes_int (get_field fs "max_ms");
})
read_retry (some v) = if truth v then some no_object else none

unfoldable pub read_compensation : Option Value → Option (Option Compensation)
read_compensation none = some none
read_compensation (some null) = some none
read_compensation (some (obj fs)) = do
  type ← optional as_text (get_field fs "type")
  some (
      some (record {
        type = type;
        config = get_field fs "config";
        retry = read_retry (get_field fs "retry");
      }))
read_compensation (some _) = none

abbrev pub texts_in : Items → Option (List String)
texts_in nil = some []
texts_in (cons (str s) xs) = elim (texts_in xs) [ none ↦ none | some rest ↦ some (s ∷ rest) ]
texts_in (cons _ xs) = none

abbrev pub keys_in : Fields → List String
keys_in end = []
keys_in (field k v fs) = k ∷ keys_in fs

abbrev many_of : Option (List String) → Option Needs
many_of none = none
many_of (some deps) = some (many deps)

unfoldable pub read_needs : Option Value → Option Needs
read_needs none = some absent
read_needs (some (str s)) = some (one s)
read_needs (some (arr xs)) = many_of (texts_in xs)
read_needs (some (obj fs)) = some (many (keys_in fs))
read_needs (some _) = none

-- `step["type"]`
abbrev pub needed_text : Option Value → Option String
needed_text none = none
needed_text (some v) = as_text v

unfoldable pub read_step : String → Fields → Option Step
read_step sid fs = do
  type ← needed_text (get_field fs "type")
  needs ← read_needs (get_field fs "needs")
  on_error ← optional as_on_error (get_field fs "on_error")
  compensate ← read_compensation (get_field fs "compensate")
  some (record {
    id = sid;
    type = type;
    needs = needs;
    config = get_field fs "config";
    on_error = on_error;
    retry = read_retry (get_field fs "retry");
    compensate = compensate;
  })

unfoldable pub read_steps : Items → Option (List Step)
read_steps nil = some []
read_steps (cons (obj fs) xs) =
    let rest = read_steps xs in
    do sid ← id_of fs; step ← read_step sid fs; steps ← rest; some (step ∷ steps)
read_steps (cons _ xs) = none

abbrev pub read_named : String → Option Value → Option Spec
read_named name (some (arr xs)) = do
  steps ← read_steps xs
  some (record { name = name; steps = steps })
read_named name _ = none

unfoldable pub read_spec : Value → Option Spec
read_spec (obj fs) = do
  name ← needed_text (get_field fs "name")
  read_named name (get_field fs "steps")
read_spec _ = none
