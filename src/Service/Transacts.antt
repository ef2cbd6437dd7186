-- ===== src/Service/Transacts.antt =====
-- About engine/service.py and the task table: its writes as the transactions of Queue/Steps.
use nutanix_hack.Prelude.{refl, sym, subst}
use nutanix_hack.Queue.{Env, Queue}
use nutanix_hack.Queue.Steps.{Transaction, History}
use nutanix_hack.Service.Exec.{Keeps, Keeps-if, Keeps-raise}
use nutanix_hack.Service.Store.{Store, Db, on_queue}
use nutanix_hack.Service.Runs.{enqueue_step}
use nutanix_hack.Service.Kept.{Basics}
use nutanix_hack.Service.SameQueue.{
  Same, Keeps-put_run, append_event-Same, sync_run_projection-Same,
}

-- The table is reached from `start` by transactions.
abbrev pub Reaches : Env → Queue → Store → Type 0
Reaches env start s = History env start s.queue

-- What leaves the table as it is reaches it.
pub Same-Reaches :
    {A : Type 0} (env : Env) (start : Queue) (m : Db A)
    → ((q : Queue) → Keeps (Same q) m)
    → Keeps (Reaches env start) m
Same-Reaches env start m k = record {
  at = λ s h. subst (History env start) (sym ((k s.queue).at s refl)) h;
}

-- A query that is one transaction.
pub on_queue-Reaches :
    {A : Type 0} (env : Env) (start : Queue) (f : Queue → A × Queue)
    → ((q : Queue) → Transaction env q (f q).1)
    → Keeps (Reaches env start) (on_queue f)
unfolding on_queue
on_queue-Reaches env start f t = record { at = λ s h. History.next h (t s.queue) }

-- The writes of the service and of the worker are transactions on the table, or leave it.
pub transacts : (env : Env) (start : Queue) → Basics env (Reaches env start)
unfolding enqueue_step
transacts env start = record {
  created = λ rid spec input. Same-Reaches env start _ (λ q. Keeps-put_run q rid _);
  appended = λ rid type sid p. Same-Reaches env start _ (λ q. append_event-Same q rid type sid p);
  synced = λ rid spec c. Same-Reaches env start _ (λ q. sync_run_projection-Same q rid spec c);
  enqueued = λ rid sid kind attempt run_after. Keeps-if _ _ _ (Keeps-raise _) (
      on_queue-Reaches env start _ (λ q. Transaction.enqueues rid sid kind attempt run_after refl));
  claimed = λ locked worker now.
      on_queue-Reaches env start _ (λ q. Transaction.claims locked worker now refl);
  finished = λ id. on_queue-Reaches env start _ (λ q. Transaction.finishes id refl);
  finished_owned =
      λ id worker. on_queue-Reaches env start _ (λ q. Transaction.finishes_owned id worker refl);
}
