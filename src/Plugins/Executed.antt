-- ===== src/Plugins/Executed.antt =====
-- The shell and http plugins as the worker executes them.
use nutanix_hack.Prelude.{◌≡◌, String}
use nutanix_hack.Json.{Value}
use nutanix_hack.Plugins.{Plugin, shell, http, Outside, Outcome, succeeded, failed}
use nutanix_hack.Plugins.Acts.{Unexpected, Acted, returns, step_error, unexpected, Machine}
use nutanix_hack.Plugins.Shell.{execute_shell}
use nutanix_hack.Plugins.Http.{execute_http}

-- `_execute_step` of engine/worker.py on how `execute` ends.
unfoldable pub outcome_of : (Unexpected → String) → Acted → Outcome
outcome_of print (returns out) = succeeded out
outcome_of print (step_error message details) = failed message
outcome_of print (unexpected e) = failed (print e)

abbrev act_with : Machine → (Unexpected → String) → Outside → Plugin → Value → String → Outcome
act_with m print outside shell config key = outcome_of print (execute_shell m config key)
act_with m print outside http config key = outcome_of print (execute_http m config key)
act_with m print outside plugin config key = outside.act plugin config key

-- What the worker takes from outside, with the acts of both plugins.
unfoldable pub with_machine : Machine → (Unexpected → String) → Outside → Outside
with_machine m print outside = record outside { act = act_with m print outside }

pub returned :
    (print : Unexpected → String) (a : Acted) {out : Value}
    → outcome_of print a ≡ succeeded out
    → a ≡ returns out
unfolding outcome_of
returned print (returns v) h = cc h
returned print (step_error message details) h = cc h
returned print (unexpected e) h = cc h
