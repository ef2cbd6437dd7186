-- ===== src/Commands/Examples.antt =====
-- A deployment that starts empty: tests and instances.
use nutanix_hack.Api.Entities.{falsy}
use nutanix_hack.Prelude.{◌≡◌, refl, ℕ, Bool, true, false, concat, none, some, List, [], ◌∷◌}
use nutanix_hack.Prelude.Dict
use nutanix_hack.Json.{Value, str, arr, obj, end, field, nil, cons, empty_object}
use nutanix_hack.Queue.{Env, claim_task, first_by}
use nutanix_hack.Plugins.{Outside, succeeded, rendered, resume_raises}
use nutanix_hack.Service.Exec.{atomic, pure, ◌>>=◌}
use nutanix_hack.Service.Store.{Store, on_queue}
use nutanix_hack.Worker.Visit.{claim, check_owner, run_once, execute_claimed}
use nutanix_hack.Commands.{
  Turn, drained, run_worker, after_round, System, Act, posts_workflow, starts_run, posts_entity,
  works, sweeps,
}
use nutanix_hack.Commands.Drained.{WasIdle, run_worker-WasIdle}

abbrev env : Env
env = record {
  lease = 30;
  max_task_attempts = 5;
  max_task_attempts_text = "5";
  uniform = λ ms. 0;
  digest = λ run sid kind attempt. concat run sid;
}

abbrev outside : Outside
outside = record {
  act = λ plugin config key. succeeded config;
  resume = λ plugin config now. resume_raises;
  render = λ config c. rendered config;
  show = λ value. "None";
  repr = λ text. text;
  unknown_type = λ type. "no plugin registered";
}

abbrev unlocked : ℕ → Bool
unlocked id = false

abbrev nothing : Store
nothing = record { runs = []; queue = record { rows = []; next_id = 1 } }

abbrev turns : List Turn
turns = record { others = λ s. s; locked = unlocked; now = 5; beat = pure false } ∷ []

drains : (run_worker env outside "ann" true turns nothing).0 ≡ drained
unfolding run_worker after_round run_once claim check_owner atomic on_queue claim_task first_by
    execute_claimed ◌>>=◌
drains = refl

run_worker-WasIdle_example : WasIdle turns (run_worker env outside "ann" true turns nothing).1
run_worker-WasIdle_example = run_worker-WasIdle env outside "ann" true turns nothing drains

abbrev empty_system : System
empty_system = record {
  definitions = [];
  headers = [];
  triggers = [];
  graph = record { entities = []; edges = []; changes = []; next_id = 1 };
  store = nothing;
}

abbrev welcome : Value
welcome = obj (
    field "name" (str "welcome") (
      field "steps"
        (arr (cons (obj (field "id" (str "greet") (field "type" (str "noop") end))) nil)) end))

abbrev acts : List Act
acts =
    posts_workflow "acme" (some (welcome, ""))
    ∷ starts_run env 5 "r1" "acme" (
        some
          (record { workflow = "welcome"; version = none; input = empty_object; entity_ref = "" }))
    ∷ works env outside (pure false) unlocked 6 "ann"
    ∷ posts_entity "acme"
        (some (record { type = "person"; external_id = "priya"; attrs = falsy; replace = false }))
    ∷ sweeps 1 env unlocked 50
    ∷ []
