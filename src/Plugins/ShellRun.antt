-- ===== src/Plugins/ShellRun.antt =====
-- What a result of the shell plugin tells, and what it does not depend on.
use nutanix_hack.Prelude.{
  ◌≡◌, ◌≢◌, refl, ap, Bool, true, false, String, Option, none, some, List, [], ◌∷◌, Bool-cases, inl,
  inr, if◌then◌else◌,
}
use nutanix_hack.Prelude.Int.{ℤ, pos}
use nutanix_hack.Json.{Value, Fields, num, str, null, set_field}
use nutanix_hack.Replay.State.{Context}
use nutanix_hack.Plugins.{shell, Outside, succeeded, execute, config_get, is_object}
use nutanix_hack.Plugins.Acts.{
  Unexpected, unexpected, wrong_type, returns, Words, words, unparsed, unsplit, Ran, completed,
  timeout_expired, file_not_found, not_run, Machine, dict_of, or_default,
}
use nutanix_hack.Plugins.Shell.{
  timeout_of, is_set, is_zero, captured, exited, finished, command, start, run_words, run_command,
  execute_shell,
}
use nutanix_hack.Plugins.Executed.{with_machine, returned, outcome_of}

-- A process of the config's words ran to its end with exit code 0, and its output is what was
-- captured of it. Its environment is that of the config and the key, but only under env_only.
pub record HasRun (m : Machine) (config : Value) (key : String) (out : Value) : Type 0 where
  pub cmd : Value
  pub argv : List String
  pub env : Fields
  pub returncode : ℤ
  pub stdout : String
  pub stderr : String
  pub has_cmd : config_get config "cmd" ≡ some cmd
  pub has_argv : m.split cmd ≡ words argv
  pub has_env : dict_of m (config_get config "env") ≡ some env
  pub starts : argv ≢ []
  pub ran :
      m.run (record {
        argv = argv;
        timeout = or_default (config_get config "timeout_s") (num (pos 60));
        cwd = if is_set config "cwd" then or_default (config_get config "cwd") null else null;
        env =
            if is_set config "env_only"
            then some (set_field env "CASCADE_IDEMPOTENCY_KEY" (str key))
            else none;
      })
      ≡ completed returncode stdout stderr
  pub exit_zero : is_zero returncode ≡ true
  pub output : out ≡ captured m returncode stdout stderr

exited_zero :
    (m : Machine) (returncode : ℤ) (stdout stderr : String) (out : Value)
    → exited m returncode stdout stderr ≡ returns out
    → (is_zero returncode ≡ true) × (out ≡ captured m returncode stdout stderr)
unfolding exited
exited_zero m returncode stdout stderr out h = elim (Bool-cases (is_zero returncode)) [
  | inl e ↦ (e, cc (rw e at h))
  | inr e ↦ cc (rw e at h)
]

-- The words and the environment that the config gives.
record Gives (m : Machine) (config cmd : Value) (argv : List String) (env : Fields) : Type 0 where
  has_cmd : config_get config "cmd" ≡ some cmd
  has_argv : m.split cmd ≡ words argv
  has_env : dict_of m (config_get config "env") ≡ some env

finished-HasRun :
    (m : Machine) (config cmd timeout : Value) (key program : String) (args : List String)
    (env : Fields) (r : Ran) (out : Value)
    → Gives m config cmd (program ∷ args) env
    → m.run (command config key (program ∷ args) env) ≡ r
    → finished m cmd timeout program r ≡ returns out
    → HasRun m config key out
unfolding finished command
finished-HasRun m config cmd timeout key program args env (completed returncode stdout stderr) out g
      e h =
    let (exit_zero, output) = exited_zero m returncode stdout stderr out h in
    record {
      cmd = cmd;
      argv = program ∷ args;
      env = env;
      returncode = returncode;
      stdout = stdout;
      stderr = stderr;
      has_cmd = g.has_cmd;
      has_argv = g.has_argv;
      has_env = g.has_env;
      starts = λ p. cc p;
      ran = e;
      exit_zero = exit_zero;
      output = output;
    }
finished-HasRun m config cmd timeout key program args env timeout_expired out g e h = cc h
finished-HasRun m config cmd timeout key program args env file_not_found out g e h = cc h
finished-HasRun m config cmd timeout key program args env (not_run x) out g e h = cc h

start-HasRun :
    (m : Machine) (config cmd : Value) (key program : String) (args : List String)
    (env : Option Fields) (out : Value)
    → config_get config "cmd" ≡ some cmd
    → m.split cmd ≡ words (program ∷ args)
    → dict_of m (config_get config "env") ≡ env
    → start m config cmd key program (program ∷ args) env ≡ returns out
    → HasRun m config key out
unfolding start
start-HasRun m config cmd key program args none out c a d h = cc h
start-HasRun m config cmd key program args (some env) out c a d h =
    finished-HasRun m config cmd _ key program args env _ out
      (record { has_cmd = c; has_argv = a; has_env = d }) refl h

run_words-HasRun :
    (m : Machine) (config cmd : Value) (key : String) (w : Words) (out : Value)
    → config_get config "cmd" ≡ some cmd
    → m.split cmd ≡ w
    → run_words m config cmd key w ≡ returns out
    → HasRun m config key out
unfolding run_words
run_words-HasRun m config cmd key (unsplit e) out c s h = cc h
run_words-HasRun m config cmd key (unparsed text) out c s h = cc h
run_words-HasRun m config cmd key (words []) out c s h = cc h
run_words-HasRun m config cmd key (words (program ∷ args)) out c s h =
    start-HasRun m config cmd key program args _ out c s refl h

run_command-HasRun :
    (m : Machine) (config : Value) (key : String) (cmd : Option Value) (out : Value)
    → config_get config "cmd" ≡ cmd
    → run_command m config key cmd ≡ returns out
    → HasRun m config key out
unfolding run_command
run_command-HasRun m config key none out c h = cc h
run_command-HasRun m config key (some cmd) out c h =
    run_words-HasRun m config cmd key _ out c refl h

if_object-HasRun :
    (m : Machine) (config : Value) (key : String) (object : Bool) (out : Value)
    → (if object then run_command m config key (config_get config "cmd") else unexpected wrong_type)
      ≡ returns out
    → HasRun m config key out
if_object-HasRun m config key true out h = run_command-HasRun m config key _ out refl h
if_object-HasRun m config key false out h = cc h

-- If the execution of a shell step succeeds, then subprocess.run was given the words of the cmd of
-- the config, at least one, its timeout_s or else 60, its cwd, and, only under env_only, its env
-- with the key of the task as CASCADE_IDEMPOTENCY_KEY; the process ended with exit code 0, and the
-- output is its exit code and its two texts under the cap.
pub shell-HasRun :
    (m : Machine) (print : Unexpected → String) (outside : Outside) (config : Value) (c : Context)
    (key sid : String) {out : Value}
    → execute (with_machine m print outside) shell config c key sid ≡ succeeded out
    → HasRun m config key out
unfolding execute with_machine execute_shell
shell-HasRun m print outside config c key sid h =
    if_object-HasRun m config key (is_object config) _ (returned print _ h)

-- Without env_only the environment is not sent, and so neither is the key in it.
same_command :
    (config : Value) (key other : String) (argv : List String) (env : Fields)
    → is_set config "env_only" ≡ false
    → command config key argv env ≡ command config other argv env
unfolding command
same_command config key other argv env h = rw h refl

start-other_key :
    (m : Machine) (config cmd : Value) (key other program : String) (argv : List String)
    (env : Option Fields)
    → is_set config "env_only" ≡ false
    → start m config cmd key program argv env ≡ start m config cmd other program argv env
unfolding start
start-other_key m config cmd key other program argv none h = refl
start-other_key m config cmd key other program argv (some env) h =
    ap (λ c. finished m cmd (timeout_of config) program (m.run c))
      (same_command config key other argv env h)

run_words-other_key :
    (m : Machine) (config cmd : Value) (key other : String) (w : Words)
    → is_set config "env_only" ≡ false
    → run_words m config cmd key w ≡ run_words m config cmd other w
unfolding run_words
run_words-other_key m config cmd key other (unsplit e) h = refl
run_words-other_key m config cmd key other (unparsed text) h = refl
run_words-other_key m config cmd key other (words []) h = refl
run_words-other_key m config cmd key other (words (program ∷ args)) h =
    start-other_key m config cmd key other program (program ∷ args) _ h

run_command-other_key :
    (m : Machine) (config : Value) (key other : String) (cmd : Option Value)
    → is_set config "env_only" ≡ false
    → run_command m config key cmd ≡ run_command m config other cmd
unfolding run_command
run_command-other_key m config key other none h = refl
run_command-other_key m config key other (some cmd) h =
    run_words-other_key m config cmd key other _ h

-- If env_only is absent or not true in the config of a shell step, the step is executed and ends in
-- the same way whatever its idempotency key is: the command is not given the key.
pub shell_ignores_key :
    (m : Machine) (print : Unexpected → String) (outside : Outside) (config : Value) (c : Context)
    (key other sid : String)
    → is_set config "env_only" ≡ false
    → execute (with_machine m print outside) shell config c key sid
      ≡ execute (with_machine m print outside) shell config c other sid
unfolding execute with_machine execute_shell
shell_ignores_key m print outside config c key other sid h =
    ap (λ ended. outcome_of print (if is_object config then ended else unexpected wrong_type))
      (run_command-other_key m config key other _ h)
