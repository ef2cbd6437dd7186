-- ===== src/Service/SameQueue.antt =====
-- The code of engine/service.py that works on runs and logs and not on the task table.
use nutanix_hack.Prelude.{ℕ, zero, suc, ◌≡◌, String, Option, none, some}
use nutanix_hack.Queue.{Task, Env, Queue}
use nutanix_hack.Replay.State.{EventType, Payload, Event, Context}
use nutanix_hack.Spec.{Spec}
use nutanix_hack.Service.Exec.{Keeps, keeps_rules, Keeps-bind, Keeps-pure, Keeps-raise, Keeps-gets}
use nutanix_hack.Service.Store.{Run, Store, Db, get_run, put_run, or_missing}
use nutanix_hack.Service.Log.{append_event, append_attempts, try_append, or_again, load_context}
use nutanix_hack.Service.Runs.{sync_run_projection, close_run_if_finished}
use nutanix_hack.Service.Reaper.{Outcome, poisoned, recovered, fail_poisoned_step, note_recovery}

-- What leaves the table as it is.
module _ (q : Queue) where
  abbrev pub Same : Store → Type 0
  Same s = s.queue ≡ q

  pub Keeps-put_run : (rid : String) (run : Run) → Keeps Same (put_run rid run)
  unfolding put_run
  Keeps-put_run rid run = record { at = λ s h. h }

  Keeps-or_missing : (row : Option Run) → Keeps Same (or_missing row)
  unfolding get_run
  Keeps-or_missing none = Keeps-raise _
  Keeps-or_missing (some run) = Keeps-pure run

  pub Keeps-get_run : (rid : String) → Keeps Same (get_run rid)
  unfolding get_run
  Keeps-get_run rid = Keeps-bind _ _ (Keeps-gets _) Keeps-or_missing

  try_append-Same :
      (rid : String) (type : EventType) (sid : String) (p : Payload)
      → Keeps Same (try_append rid type sid p)
  unfolding try_append
  try_append-Same rid type sid p = search (keeps_rules, Keeps-get_run, Keeps-put_run) depth 12

  or_again-Same :
      (tried : Option Event) (again : Db Event)
      → Keeps Same again
      → Keeps Same (or_again tried again)
  unfolding or_again
  or_again-Same none again k = k
  or_again-Same (some event) again k = Keeps-pure event

  append_attempts-Same :
      (n : ℕ) (rid : String) (type : EventType) (sid : String) (p : Payload)
      → Keeps Same (append_attempts n rid type sid p)
  unfolding append_attempts
  append_attempts-Same zero rid type sid p = Keeps-raise _
  append_attempts-Same (suc n) rid type sid p =
      Keeps-bind _ _ (try_append-Same rid type sid p)
        (λ tried. or_again-Same tried _ (append_attempts-Same n rid type sid p))

  pub append_event-Same :
      (rid : String) (type : EventType) (sid : String) (p : Payload)
      → Keeps Same (append_event rid type sid p)
  unfolding append_event
  append_event-Same rid type sid p = append_attempts-Same _ rid type sid p

  pub load_context-Same : (rid : String) → Keeps Same (load_context rid)
  unfolding load_context
  load_context-Same rid = Keeps-bind _ _ (Keeps-get_run rid) (λ run. Keeps-pure _)

  pub close_run_if_finished-Same :
      (rid : String) (spec : Spec) (c : Context) → Keeps Same (close_run_if_finished rid spec c)
  unfolding close_run_if_finished
  close_run_if_finished-Same rid spec c = search (keeps_rules, append_event-Same) depth 12

  pub sync_run_projection-Same :
      (rid : String) (spec : Spec) (c : Context) → Keeps Same (sync_run_projection rid spec c)
  unfolding sync_run_projection
  sync_run_projection-Same rid spec c =
      Keeps-bind _ _ (Keeps-get_run rid) (λ run. Keeps-put_run rid _)

  pub fail_poisoned_step-Same : (env : Env) (task : Task) → Keeps Same (fail_poisoned_step env task)
  unfolding fail_poisoned_step
  fail_poisoned_step-Same env task = Keeps-bind _ _ (Keeps-get_run task.run) (λ run.
      search
        (
          keeps_rules, append_event-Same, load_context-Same, close_run_if_finished-Same,
          sync_run_projection-Same,
        )
        depth 12)

  pub note_recovery-Same : (ending : Option (Task × Outcome)) → Keeps Same (note_recovery ending)
  unfolding note_recovery
  note_recovery-Same none = Keeps-pure _
  note_recovery-Same (some (task, poisoned)) = Keeps-pure _
  note_recovery-Same (some (task, recovered)) =
      Keeps-bind _ _ (append_event-Same _ _ _ _) (λ _. Keeps-pure _)
