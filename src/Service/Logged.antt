-- ===== src/Service/Logged.antt =====
-- The invariant of the logs and the writes of engine/service.py, and its reaper.
use nutanix_hack.Prelude.{ℕ, zero, suc, refl, Bool, String, Option, none, some, List}
use nutanix_hack.Spec.{Spec}
use nutanix_hack.Queue.{Task, TaskKind, Env}
use nutanix_hack.Queue
use nutanix_hack.Replay.State.{Context}
use nutanix_hack.Service.Exec.{
  Keeps, Keeps-atomic, Keeps-bind, Keeps-pure, Keeps-raise, Keeps-gets, Keeps-if,
}
use nutanix_hack.Service.Store.{Db}
use nutanix_hack.Service.Runs.{enqueue_step, sync_run_projection}
use nutanix_hack.Service.Reaper.{
  saved, requeue, reap_task, or_stop, Outcome, reap_one, reap_expired_leases,
}
use nutanix_hack.Service.Gapless.{
  IsLogged, append_event-IsLogged, Keeps-get_run, Keeps-put_run, Keeps-on_queue,
}
use nutanix_hack.Service.Kept.{Basics}
use nutanix_hack.Service.Kept.Requests.{fail_poisoned_step-Keeps, note_recovery-Keeps}

sync_run_projection-IsLogged :
    (rid : String) (spec : Spec) (c : Context) → Keeps IsLogged (sync_run_projection rid spec c)
unfolding sync_run_projection
sync_run_projection-IsLogged rid spec c =
    Keeps-get_run rid _
      λ run g. Keeps-put_run rid _ (record { numbered = g.numbered; counted = g.counted })

enqueue_step-IsLogged :
    (env : Env) (rid sid : String) (kind : TaskKind) (attempt run_after : ℕ)
    → Keeps IsLogged (enqueue_step env rid sid kind attempt run_after)
unfolding enqueue_step
enqueue_step-IsLogged env rid sid kind attempt run_after =
    Keeps-if _ _ _ (Keeps-raise _) (Keeps-on_queue _)

pub logs : (env : Env) → Basics env IsLogged
logs env = record {
  created = λ rid spec input. Keeps-put_run rid _ (record { numbered = tt; counted = refl });
  appended = append_event-IsLogged;
  synced = sync_run_projection-IsLogged;
  enqueued = enqueue_step-IsLogged env;
  claimed = λ locked worker now. Keeps-on_queue _;
  finished = λ id. Keeps-on_queue _;
  finished_owned = λ id worker. Keeps-on_queue _;
}

saved-IsLogged : (q : Option Queue.Queue) → Keeps IsLogged (saved q)
unfolding saved
saved-IsLogged none = Keeps-raise _
saved-IsLogged (some q) = Keeps-on_queue _

requeue-IsLogged : (env : Env) (now : ℕ) (task : Task) → Keeps IsLogged (requeue env now task)
unfolding requeue
requeue-IsLogged env now task = Keeps-bind _ _ (Keeps-gets _) saved-IsLogged

reap_task-IsLogged :
    (env : Env) (now : ℕ) (found : Option Task) → Keeps IsLogged (reap_task env now found)
unfolding reap_task
reap_task-IsLogged env now none = Keeps-pure _
reap_task-IsLogged env now (some task) =
    Keeps-if _ _ _
      (Keeps-bind _ _ (Keeps-on_queue _) (λ _.
        Keeps-bind _ _ (fail_poisoned_step-Keeps env IsLogged (logs env) task) (λ _. Keeps-pure _)))
      (Keeps-bind _ _ (requeue-IsLogged env now task) (λ _. Keeps-pure _))

reap_one-IsLogged :
    (env : Env) (locked : ℕ → Bool) (now : ℕ) → Keeps IsLogged (reap_one env locked now)
unfolding reap_one
reap_one-IsLogged env locked now =
    Keeps-bind _ _ (Keeps-atomic _ (Keeps-bind _ _ (Keeps-gets _) (reap_task-IsLogged env now)))
      (note_recovery-Keeps env IsLogged (logs env))

or_stop-IsLogged :
    (one : Option (Task × Outcome)) (others : Db (List (Task × Outcome)))
    → Keeps IsLogged others
    → Keeps IsLogged (or_stop one others)
unfolding or_stop
or_stop-IsLogged none others k = Keeps-pure _
or_stop-IsLogged (some result) others k = Keeps-bind _ _ k (λ _. Keeps-pure _)

pub reap_expired_leases-IsLogged :
    (n : ℕ) (env : Env) (locked : ℕ → Bool) (now : ℕ)
    → Keeps IsLogged (reap_expired_leases n env locked now)
unfolding reap_expired_leases
reap_expired_leases-IsLogged zero env locked now = Keeps-pure _
reap_expired_leases-IsLogged (suc n) env locked now =
    Keeps-bind _ _ (reap_one-IsLogged env locked now)
      (λ one. or_stop-IsLogged one _ (reap_expired_leases-IsLogged n env locked now))
