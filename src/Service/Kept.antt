-- ===== src/Service/Kept.antt =====
-- What the calls of engine/service.py keep, if what they write by keeps it.
pub mod Requests
use nutanix_hack.Prelude.{ℕ, Bool, String, Option, none, some, List, [], ◌∷◌}
use nutanix_hack.Json.{Value}
use nutanix_hack.Spec.{Spec}
use nutanix_hack.Queue.{Task, TaskKind, Env, Queue}
use nutanix_hack.Queue
use nutanix_hack.Replay.State.{EventType, Payload, Context}
use nutanix_hack.Replay.Queries.{compensation_order, ready_steps}
use nutanix_hack.Service.Exec.{Keeps, keeps_rules, Keeps-bind, Keeps-pure, Keeps-raise, Keeps-gets}
use nutanix_hack.Service.Store.{Run, Store, Db, get_run, put_run, or_missing, on_queue}
use nutanix_hack.Service.Log.{append_event, load_context}
use nutanix_hack.Service.Reaper.{new_run}
use nutanix_hack.Service.Runs.{
  enqueue_step, note_scheduled, enqueue_all, enqueue_ready_steps, enqueue_next_compensation,
  start_compensation, sync_run_projection, close_run_if_finished, queue_next, advance_run,
  enqueue_first, begin_unwinding,
}

-- The writes of the service and of the worker, of which all their transactions are made.
pub record Basics (env : Env) (P : Store → Type 0) : Type 0 where
  pub created :
      (rid : String) (spec : Spec) (input : Value) → Keeps P (put_run rid (new_run spec input))
  pub appended :
      (rid : String) (type : EventType) (sid : String) (p : Payload)
      → Keeps P (append_event rid type sid p)
  pub synced : (rid : String) (spec : Spec) (c : Context) → Keeps P (sync_run_projection rid spec c)
  pub enqueued :
      (rid sid : String) (kind : TaskKind) (attempt run_after : ℕ)
      → Keeps P (enqueue_step env rid sid kind attempt run_after)
  pub claimed :
      (locked : ℕ → Bool) (worker : String) (now : ℕ)
      → Keeps P (on_queue (Queue.claim_task env locked worker now))
  pub finished : (id : ℕ) → Keeps P (on_queue (λ q. (tt, Queue.finish_task id q)))
  pub finished_owned :
      (id : ℕ) (worker : String) → Keeps P (on_queue (Queue.finish_task_if_owned id worker))

module _ {P : Store → Type 0} where
  or_missing-Keeps : (row : Option Run) → Keeps P (or_missing row)
  unfolding get_run
  or_missing-Keeps none = Keeps-raise _
  or_missing-Keeps (some run) = Keeps-pure run

  pub get_run-Keeps : (rid : String) → Keeps P (get_run rid)
  unfolding get_run
  get_run-Keeps rid = Keeps-bind _ _ (Keeps-gets _) or_missing-Keeps

  pub load_context-Keeps : (rid : String) → Keeps P (load_context rid)
  unfolding load_context
  load_context-Keeps rid = Keeps-bind _ _ (get_run-Keeps rid) (λ run. Keeps-pure _)

module _ (env : Env) (P : Store → Type 0) (b : Basics env P) where
  pub close_run_if_finished-Keeps :
      (rid : String) (spec : Spec) (c : Context) → Keeps P (close_run_if_finished rid spec c)
  unfolding close_run_if_finished
  close_run_if_finished-Keeps rid spec c = search (keeps_rules, b.appended) depth 12

  note_scheduled-Keeps :
      (rid sid : String) (others : Db (List Task)) (task : Option Task)
      → Keeps P others
      → Keeps P (note_scheduled rid sid others task)
  unfolding note_scheduled
  note_scheduled-Keeps rid sid others none k = k
  note_scheduled-Keeps rid sid others (some t) k =
      Keeps-bind _ _ (b.appended _ _ _ _) (λ _. Keeps-bind _ _ k (λ _. Keeps-pure _))

  enqueue_all-Keeps :
      (now : ℕ) (rid : String) (sids : List String) → Keeps P (enqueue_all env now rid sids)
  unfolding enqueue_all
  enqueue_all-Keeps now rid [] = Keeps-pure _
  enqueue_all-Keeps now rid (sid ∷ rest) =
      Keeps-bind _ _ (b.enqueued _ _ _ _ _)
        (λ task. note_scheduled-Keeps rid sid _ task (enqueue_all-Keeps now rid rest))

  pub enqueue_ready_steps-Keeps :
      (now : ℕ) (rid : String) (spec : Spec) (c : Context)
      → Keeps P (enqueue_ready_steps env now rid spec c)
  unfolding enqueue_ready_steps
  enqueue_ready_steps-Keeps now rid spec c = enqueue_all-Keeps now rid (ready_steps spec c)

  enqueue_first-Keeps :
      (now : ℕ) (rid : String) (sids : List String) → Keeps P (enqueue_first env now rid sids)
  unfolding enqueue_first
  enqueue_first-Keeps now rid [] = Keeps-pure _
  enqueue_first-Keeps now rid (sid ∷ rest) = b.enqueued _ _ _ _ _

  begin_unwinding-Keeps :
      (rid failed_step error : String) (sids : List String)
      → Keeps P (begin_unwinding rid failed_step error sids)
  unfolding begin_unwinding
  begin_unwinding-Keeps rid failed_step error [] = Keeps-pure _
  begin_unwinding-Keeps rid failed_step error (sid ∷ rest) =
      Keeps-bind _ _ (b.appended _ _ _ _) (λ _. Keeps-pure _)

  pub start_compensation-Keeps :
      (rid : String) (spec : Spec) (c : Context) (failed_step error : String)
      → Keeps P (start_compensation rid spec c failed_step error)
  unfolding start_compensation
  start_compensation-Keeps rid spec c failed_step error =
      begin_unwinding-Keeps rid failed_step error (compensation_order spec c)

  queue_next-Keeps :
      (now : ℕ) (rid : String) (spec : Spec) (c : Context) → Keeps P (queue_next env now rid spec c)
  unfolding queue_next enqueue_next_compensation
  queue_next-Keeps now rid spec c =
      search (keeps_rules, enqueue_first-Keeps, enqueue_ready_steps-Keeps) depth 12

  pub advance_run-Keeps :
      (now : ℕ) (rid : String) (spec : Spec) → Keeps P (advance_run env now rid spec)
  unfolding advance_run
  advance_run-Keeps now rid spec =
      search
        (keeps_rules, load_context-Keeps, queue_next-Keeps, close_run_if_finished-Keeps, b.synced)
        depth 12
