-- ===== src/Plugins/Examples.antt =====
-- A command that prints and a server that answers: tests and instances.
use nutanix_hack.Prelude.{◌≡◌, refl, true, String, none, some, [], ◌∷◌, contains}
use nutanix_hack.Prelude.Int.{pos}
use nutanix_hack.Json.{Value, str, obj, end, field, get_field, empty_object}
use nutanix_hack.Predicates.Values.{same_value}
use nutanix_hack.Spec.Validate.{known_step_types}
use nutanix_hack.Replay.State.{Context, new_context}
use nutanix_hack.Plugins.{
  Outside, shell, http, wait, succeeded, rendered, resume_raises, execute, config_get,
}
use nutanix_hack.Plugins.Acts.{
  Machine, Unexpected, words, completed, responded, truncate, take, dict_of,
}
use nutanix_hack.Plugins.Shell.{
  execute_shell, run_command, run_words, start, finished, exited, captured, command,
}
use nutanix_hack.Plugins.Http.{execute_http, call_method, ask_for, answered, is_accepted, output_of}
use nutanix_hack.Plugins.Executed.{with_machine, outcome_of}
use nutanix_hack.Plugins.ShellRun.{HasRun, shell-HasRun, shell_ignores_key}
use nutanix_hack.Plugins.HttpAnswered.{HasAnswer, http-HasAnswer}
use nutanix_hack.Plugins.Registry.{is_registered, known_types_registered}
use nutanix_hack.Plugins.Validate.{registered_types, validate, no_moment, unsupported_method}

abbrev machine : Machine
machine = record {
  split = λ cmd. words ("echo" ∷ "hello" ∷ []);
  run = λ command. completed (pos 0) "hello" "";
  ask = λ request. responded (pos 201) none "created";
  show = λ value. "9";
  upper = λ text. text;
  strip = λ text. text;
  to_dict = λ value. none;
}

abbrev print : Unexpected → String
print e = "unexpected"

abbrev outside : Outside
outside = record {
  act = λ plugin config key. succeeded empty_object;
  resume = λ plugin config now. resume_raises;
  render = λ config c. rendered config;
  show = λ value. "None";
  repr = λ text. text;
  unknown_type = λ type. "no plugin registered";
}

abbrev echo : Value
echo = obj (field "cmd" (str "echo hello") end)

abbrev create_mailbox : Value
create_mailbox = obj (field "url" (str "http://nodes/google") (field "method" (str "POST") end))

abbrev nowhere : Context
nowhere = new_context

abbrev printed : Value
printed = captured machine (pos 0) "hello" ""

echo_prints :
    execute (with_machine machine print outside) shell echo nowhere "k" "s" ≡ succeeded printed
unfolding execute with_machine outcome_of execute_shell run_command run_words start finished exited
    captured command config_get get_field dict_of truncate take same_value
echo_prints = refl

shell-HasRun_example : HasRun machine echo "k" printed
shell-HasRun_example = shell-HasRun machine print outside echo nowhere "k" "s" echo_prints

shell_ignores_key_example :
    execute (with_machine machine print outside) shell echo nowhere "k1" "s"
    ≡ execute (with_machine machine print outside) shell echo nowhere "k2" "s"
unfolding config_get get_field
shell_ignores_key_example = shell_ignores_key machine print outside echo nowhere "k1" "k2" "s" refl

abbrev mailbox : Value
mailbox = output_of machine (pos 201) none "created"

mailbox_created :
    execute (with_machine machine print outside) http create_mailbox nowhere "k" "s"
    ≡ succeeded mailbox
unfolding execute with_machine outcome_of execute_http call_method ask_for answered is_accepted
    config_get get_field dict_of
mailbox_created = refl

http-HasAnswer_example : HasAnswer machine create_mailbox "k" mailbox
http-HasAnswer_example =
    http-HasAnswer machine print outside create_mailbox nowhere "k" "s" mailbox_created

known_types_registered_example :
    (contains known_step_types "http" ≡ is_registered "http")
    × (contains registered_types "http" ≡ is_registered "http")
known_types_registered_example = known_types_registered "http"

wait_refused : validate (λ m. m) (λ v. true) wait empty_object ≡ some no_moment
unfolding validate config_get get_field
wait_refused = refl

method_refused :
    validate
      (λ m. m)
      (λ v. true)
      http
      (obj (field "url" (str "u") (field "method" (str "FETCH") end)))
    ≡ some unsupported_method
unfolding validate config_get get_field
method_refused = refl
