-- ===== src/Plugins/Shell.antt =====
-- `ShellPlugin.execute` of engine/steps/builtin.py.
use nutanix_hack.Prelude.{Bool, String, concat, Option, none, some, List, [], ◌∷◌, if◌then◌else◌}
use nutanix_hack.Prelude.Int.{ℤ, pos}
use nutanix_hack.Json.{Value, Fields, null, num, str, obj, end, field, set_field, empty_object}
use nutanix_hack.Predicates.{truth}
use nutanix_hack.Predicates.Values.{same_value}
use nutanix_hack.Plugins.{config_get, is_object}
use nutanix_hack.Plugins.Acts.{
  Acted, returns, step_error, unexpected, missing_key, wrong_type, Words, words, unparsed, unsplit,
  Command, Ran, completed, timeout_expired, file_not_found, not_run, Machine, take, truncate,
  dict_of, or_default,
}

abbrev pub default_shell_timeout : Value
default_shell_timeout = num (pos 60)

abbrev pub timeout_of : Value → Value
timeout_of config = or_default (config_get config "timeout_s") default_shell_timeout

-- `bool(config.get(key))`
abbrev pub is_set : Value → String → Bool
is_set config key = truth (or_default (config_get config key) null)

unfoldable pub captured : Machine → ℤ → String → String → Value
captured m returncode stdout stderr = obj (
    field "exit_code" (num returncode)
      (field "stdout" (str (truncate m stdout)) (field "stderr" (str (truncate m stderr)) end)))

abbrev pub is_zero : ℤ → Bool
is_zero returncode = same_value (num returncode) (num (pos 0))

unfoldable pub exited : Machine → ℤ → String → String → Acted
exited m returncode stdout stderr =
    if is_zero returncode
    then returns (captured m returncode stdout stderr)
    else step_error
        (concat (concat "command exited " (m.show (num returncode)))
          (concat ": " (take 300 (m.strip (truncate m stderr)))))
        (captured m returncode stdout stderr)

-- The run and its two `except` clauses.
unfoldable pub finished : Machine → Value → Value → String → Ran → Acted
finished m cmd timeout program (completed returncode stdout stderr) =
    exited m returncode stdout stderr
finished m cmd timeout program timeout_expired =
    step_error (concat (concat "command timed out after " (m.show timeout)) "s")
      (obj (field "cmd" cmd end))
finished m cmd timeout program file_not_found =
    step_error (concat "command not found: " program) empty_object
finished m cmd timeout program (not_run e) = unexpected e

-- What `subprocess.run` is asked for: the environment goes along only under `env_only`.
unfoldable pub command : Value → String → List String → Fields → Command
command config key argv env = record {
  argv = argv;
  timeout = timeout_of config;
  cwd = if is_set config "cwd" then or_default (config_get config "cwd") null else null;
  env =
      if is_set config "env_only"
      then some (set_field env "CASCADE_IDEMPOTENCY_KEY" (str key))
      else none;
}

unfoldable pub start :
    Machine → Value → Value → String → String → List String → Option Fields → Acted
start m config cmd key program argv none = unexpected wrong_type
start m config cmd key program argv (some env) =
    finished m cmd (timeout_of config) program (m.run (command config key argv env))

unfoldable pub run_words : Machine → Value → Value → String → Words → Acted
run_words m config cmd key (unsplit e) = unexpected e
run_words m config cmd key (unparsed text) =
    step_error (concat "could not parse command: " text) empty_object
run_words m config cmd key (words []) = step_error "empty command" empty_object
run_words m config cmd key (words (program ∷ args)) =
    start m config cmd key program (program ∷ args) (dict_of m (config_get config "env"))

unfoldable pub run_command : Machine → Value → String → Option Value → Acted
run_command m config key none = unexpected (missing_key "cmd")
run_command m config key (some cmd) = run_words m config cmd key (m.split cmd)

unfoldable pub execute_shell : Machine → Value → String → Acted
execute_shell m config key =
    if is_object config
    then run_command m config key (config_get config "cmd")
    else unexpected wrong_type
