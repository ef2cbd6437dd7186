-- ===== src/Plugins/Acts.antt =====
-- What the shell and http plugins of engine/steps/builtin.py share: the libraries that they call, the
-- cap on captured texts, and the exceptions that get out.
use Prim.Native.String.{String, [], ◌∷◌, count}
use nutanix_hack.Prelude.{ℕ, zero, suc, concat, Option, none, some, List, leb, if◌then◌else◌}
use nutanix_hack.Prelude.Int.{ℤ, pos}
use nutanix_hack.Json.{Value, Fields, num, obj, end}

-- Exceptions that are no StepError: of a missing key, of a value of the wrong type, of a library.
pub data Unexpected : Type 0 where
  missing_key : String → Unexpected
  wrong_type : Unexpected
  raised_by_library : String → Unexpected

-- How `execute` ends: a result, a StepError with its details, another exception.
pub data Acted : Type 0 where
  returns : Value → Acted
  step_error : String → Value → Acted
  unexpected : Unexpected → Acted

-- `shlex.split`: the words, or a ValueError.
pub data Words : Type 0 where
  words : List String → Words
  unparsed : String → Words
  unsplit : Unexpected → Words

-- What `subprocess.run` is given; no environment of its own is `none`, no directory is `null`.
pub record Command : Type 0 where
  pub argv : List String
  pub timeout : Value
  pub cwd : Value
  pub env : Option Fields

pub data Ran : Type 0 where
  completed : (returncode : ℤ) (stdout stderr : String) → Ran
  timeout_expired file_not_found : Ran
  not_run : Unexpected → Ran

-- What `requests.request` is given.
pub record Request : Type 0 where
  pub method : String
  pub url : Value
  pub json : Value
  pub headers : Fields
  pub timeout : Value

-- A response whose body is JSON or, by a ValueError, is not; a RequestException; another exception.
pub data Answer : Type 0 where
  responded : (status : ℤ) (json : Option Value) (text : String) → Answer
  request_failed : String → Answer
  not_asked : Unexpected → Answer

-- The libraries: `shlex`, `subprocess`, `requests`, and Python's `str`, `upper`, `strip` and `dict` of
-- a value that is no object.
pub record Machine : Type 0 where
  pub split : Value → Words
  pub run : Command → Ran
  pub ask : Request → Answer
  pub show : Value → String
  pub upper : String → String
  pub strip : String → String
  pub to_dict : Value → Option Fields

abbrev pub max_captured_chars : ℕ
max_captured_chars = 8000

-- `text[:n]`
unfoldable pub take : ℕ → String → String
take zero text = ""
take (suc n) [] = ""
take (suc n) (c ∷ text) = c ∷ take n text

abbrev pub notice : Machine → String → String
notice m text = concat "... [truncated, " (concat (m.show (num (pos (count text)))) " chars total]")

unfoldable pub truncate : Machine → String → String
truncate m text =
    if leb (count text) max_captured_chars
    then text
    else concat (take max_captured_chars text) (notice m text)

-- `dict(config.get(key, {}))`
unfoldable pub dict_of : Machine → Option Value → Option Fields
dict_of m none = some end
dict_of m (some (obj fs)) = some fs
dict_of m (some v) = m.to_dict v

-- `config.get(key, default)`
abbrev pub or_default : Option Value → Value → Value
or_default none default = default
or_default (some v) default = v
