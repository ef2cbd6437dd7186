-- ===== src/Worker/Fencing.antt =====
-- About the answer of `finish_task_if_owned` in engine/worker.py.
use nutanix_hack.Prelude.{ℕ, ◌≡◌, refl, ◌∙◌, Bool, true, false, String, if◌then◌else◌}
use nutanix_hack.Spec.{Spec, Step}
use nutanix_hack.Json.{Value}
use nutanix_hack.Plugins.{Plugin, Outside, Outcome, resume_raises}
use nutanix_hack.Queue.{Task, Env, Queue}
use nutanix_hack.Queue
use nutanix_hack.Queue.Rows.{UniqueIds}
use nutanix_hack.Queue.Fencing.{holds, finish_task_if_owned_fenced}
use nutanix_hack.Service.Exec.{ok, err, plugin_error, ◌>>=◌}
use nutanix_hack.Service.Store.{Store, Db, on_queue}
use nutanix_hack.Worker.{
  if_owned, conclude, record_result, handle_deferral, park_until, finish_task_if_owned,
}

finish_lem :
    (task : Task) (worker : String) (s : Store)
    → UniqueIds s.queue.rows
    → finish_task_if_owned task worker s ≡ (
      ok (holds task.id worker s.queue),
      record s {
        queue = if holds task.id worker s.queue then Queue.finish_task task.id s.queue else s.queue;
      },
    )
unfolding finish_task_if_owned on_queue
finish_lem task worker s u =
    let (answer, after, _) = finish_task_if_owned_fenced task.id worker worker s.queue u in
    rw (answer, after) refl

if_owned_held :
    (task : Task) (worker : String) (rest : Db Unit) (s : Store)
    → UniqueIds s.queue.rows
    → holds task.id worker s.queue ≡ true
    → if_owned false task worker rest s
      ≡ rest (record s { queue = Queue.finish_task task.id s.queue })
unfolding if_owned ◌>>=◌
if_owned_held task worker rest s u h = rw (finish_lem task worker s u, h) refl

if_owned_lost :
    (lost : Bool) (task : Task) (worker : String) (rest : Db Unit) (s : Store)
    → UniqueIds s.queue.rows
    → holds task.id worker s.queue ≡ false
    → if_owned lost task worker rest s ≡ (ok tt, s)
unfolding if_owned ◌>>=◌
if_owned_lost true task worker rest s u h = refl
if_owned_lost false task worker rest s u h = rw (finish_lem task worker s u, h) refl

-- If ids are unique and the worker does not hold the lease of its task when its step has run, what
-- it does with the result changes nothing, whatever the result is and whether or not its heartbeat
-- noticed.
pub conclude_fenced :
    (env : Env) (now : ℕ) (spec : Spec) (step : Step) (task : Task) (worker : String) (lost : Bool)
    (outcome : Outcome) (s : Store)
    → UniqueIds s.queue.rows
    → holds task.id worker s.queue ≡ false
    → conclude env now spec step task worker lost outcome s ≡ (ok tt, s)
unfolding conclude
conclude_fenced env now spec step task worker lost outcome s u h =
    if_owned_lost lost task worker (record_result env now spec step task outcome) s u h

-- If ids are unique, the worker holds the lease of its task, and resume_at of the plugin raises,
-- then the deferral raises, and all that it leaves is the task marked done: no event, and no other
-- task.
pub deferral_lost :
    (env : Env) (outside : Outside) (now : ℕ) (spec : Spec) (step : Step) (plugin : Plugin)
    (task : Task) (worker : String) (config : Value) (s : Store)
    → UniqueIds s.queue.rows
    → holds task.id worker s.queue ≡ true
    → outside.resume plugin config now ≡ resume_raises
    → handle_deferral env outside now spec step plugin task worker config s
      ≡ (err plugin_error, record s { queue = Queue.finish_task task.id s.queue })
unfolding handle_deferral park_until ◌>>=◌
deferral_lost env outside now spec step plugin task worker config s u h raises =
    if_owned_held task worker
      (park_until env spec step task config (outside.resume plugin config now)) s u h
    ∙ rw (raises, park_until) refl
