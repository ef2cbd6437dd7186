-- ===== src/Service/Onward/Examples.antt =====
-- A run of a definition of one step, before its first event: an instance.
use nutanix_hack.Prelude.{◌≡◌, ◌⊎◌, refl, true, none, some, [], ◌∷◌}
use nutanix_hack.Prelude.Dict
use nutanix_hack.Json.{Value, str, obj, arr, end, field, nil, cons, get_field}
use nutanix_hack.Spec.Validate.{
  check_steps, check_step, check_dangling, needs_items, id_of, ids_of, unless_in, validate_retry,
  validate_compensate,
}
use nutanix_hack.Spec.Cycle.{
  detect_cycle, edges_of, explore, follow, scan, search_roots, validate_spec,
}
use nutanix_hack.Spec.Read.{
  read_spec, read_steps, read_step, read_needs, read_retry, read_compensation,
}
use nutanix_hack.Replay.Progress.{IsUnderway}
use nutanix_hack.Spec.{Step, Spec, absent}
use nutanix_hack.Replay.State.{RunState, new_context}
use nutanix_hack.Replay.Fold.{apply_all, insert_event, sort_events, replay}
use nutanix_hack.Replay.Queries.{is_complete}
use nutanix_hack.Prelude.{concat}
use nutanix_hack.Json.{empty_object}
use nutanix_hack.Queue.{Env}
use nutanix_hack.Prelude.Texts.{text_length}
use nutanix_hack.Service.Scheduled.{AreShort}
use nutanix_hack.Service.Store.{too_long, Run, Store, put_run}
use nutanix_hack.Service.Gapless.{IsLogged, Keeps-put_run}
use nutanix_hack.Service.Runs.{advance_run}
use nutanix_hack.Service.Returns.{Returns}
use nutanix_hack.Service.Onward.{IsStarted, advance_run_never_stuck}

-- A definition of one step, as it is submitted and as it is read.
abbrev submitted : Value
submitted = obj (
    field "name" (str "short") (
      field "steps"
        (arr (cons (obj (field "id" (str "start") (field "type" (str "noop") end))) nil)) end))

abbrev start : Step
start = record {
  id = "start";
  type = "noop";
  needs = absent;
  config = none;
  on_error = none;
  retry = none;
  compensate = none;
}

abbrev short : Spec
short = record { name = "short"; steps = start ∷ [] }

submitted_valid : validate_spec submitted ≡ none
unfolding validate_spec check_steps check_step check_dangling needs_items id_of ids_of unless_in
    validate_retry validate_compensate get_field edges_of detect_cycle search_roots explore follow
    scan Dict.get Dict.set
submitted_valid = refl

submitted_read : read_spec submitted ≡ some short
unfolding read_spec read_steps read_step read_needs read_retry read_compensation get_field id_of
submitted_read = refl

abbrev env : Env
env = record {
  lease = 30;
  max_task_attempts = 5;
  max_task_attempts_text = "5";
  uniform = λ ms. 0;
  digest = λ run sid kind attempt. concat run sid;
}

abbrev no_store : Store
no_store = record { runs = []; queue = record { rows = []; next_id = 1 } }

abbrev fresh_run : Run
fresh_run = record {
  spec = short;
  input = empty_object;
  events = [];
  last_seq = 0;
  status = RunState.running;
  context = new_context;
  error = "";
}

abbrev store : Store
store = record no_store { runs = ("run", fresh_run) ∷ [] }

no_store-IsLogged : IsLogged no_store
unfolding Dict.get
no_store-IsLogged = record { at = λ rid run h. cc }

store-IsLogged : IsLogged store
unfolding put_run Dict.set
store-IsLogged =
    (Keeps-put_run "run" fresh_run (record { numbered = tt; counted = refl })).at no_store
      no_store-IsLogged

there : Dict.get store.runs "run" ≡ some fresh_run
unfolding Dict.get
there = refl

short_id : AreShort short
unfolding too_long text_length
short_id = (refl, tt)

advance_run_never_stuck_example :
    Returns
      (λ latest s.
        (is_complete short (replay []) ≡ true)
        ⊎ (IsStarted env "run" short (replay []) s ⊎ IsUnderway short (replay [])))
      (advance_run env 5 "run" short store)
unfolding replay sort_events insert_event apply_all new_context get_field read_retry
    read_compensation
advance_run_never_stuck_example =
    advance_run_never_stuck env 5 "run" submitted short store fresh_run submitted_valid
      submitted_read short_id store-IsLogged there refl refl
