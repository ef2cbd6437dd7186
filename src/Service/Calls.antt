-- ===== src/Service/Calls.antt =====
-- The service as a sequence of calls, by the API, the workers and the reaper.
use nutanix_hack.Prelude.{ℕ, Bool, String, Option, List, [], ◌∷◌}
use nutanix_hack.Json.{Value}
use nutanix_hack.Spec.{Spec, RetryConfig}
use nutanix_hack.Queue.{Task, TaskKind, Env}
use nutanix_hack.Replay.State.{EventType, Payload}
use nutanix_hack.Service.Store.{Store}
use nutanix_hack.Service.Log.{append_event}
use nutanix_hack.Service.Runs.{advance_run, enqueue_step}
use nutanix_hack.Service.Approval.{resolve_approval}
use nutanix_hack.Service.Reaper.{schedule_retry, start_run, reap_expired_leases}
use nutanix_hack.Service.Exec.{Keeps}
use nutanix_hack.Service.Gapless.{IsLogged}
use nutanix_hack.Service.Logged.{logs, reap_expired_leases-IsLogged}
use nutanix_hack.Service.Kept.{Basics, advance_run-Keeps}
use nutanix_hack.Service.Kept.Requests.{
  resolve_approval-Keeps, schedule_retry-Keeps, start_run-Keeps,
}
use nutanix_hack.Service.Transacts.{Reaches, transacts}
use nutanix_hack.Service.Recovers.{reap_expired_leases-Reaches}
use nutanix_hack.Service.Stored.{IsStored, stored, reap_expired_leases-IsStored}
use nutanix_hack.Queue.Invariant.{IsSound}
use nutanix_hack.Queue.Steps.{History}

-- A call with its arguments and the clock.
pub data Call : Type 0 where
  starts : (now : ℕ) (rid : String) (spec : Spec) (input : Value) → Call
  appends : (rid : String) (type : EventType) (sid : String) (payload : Payload) → Call
  enqueues : (rid sid : String) (kind : TaskKind) (attempt run_after : ℕ) → Call
  advances : (now : ℕ) (rid : String) (spec : Spec) → Call
  resolves : (now : ℕ) (rid sid decision actor comment : String) → Call
  retries :
      (now : ℕ) (rid : String) (retry : Option RetryConfig) (task : Task) (error : String) → Call
  reaps : (rounds : ℕ) (locked : ℕ → Bool) (now : ℕ) → Call

-- What a call leaves in the database, whether it returned or raised.
unfoldable pub after : Env → Call → Store → Store
after env (starts now rid spec input) s = (start_run env now rid spec input s).1
after env (appends rid type sid payload) s = (append_event rid type sid payload s).1
after env (enqueues rid sid kind attempt run_after) s =
    (enqueue_step env rid sid kind attempt run_after s).1
after env (advances now rid spec) s = (advance_run env now rid spec s).1
after env (resolves now rid sid decision actor comment) s =
    (resolve_approval env now rid sid decision actor comment s).1
after env (retries now rid retry task error) s = (schedule_retry env now rid retry task error s).1
after env (reaps rounds locked now) s = (reap_expired_leases rounds env locked now s).1

unfoldable pub after_all : Env → List Call → Store → Store
after_all env [] s = s
after_all env (call ∷ calls) s = after_all env calls (after env call s)

-- What a call keeps, if the writes and the reaper keep it.
module _ (env : Env) (P : Store → Type 0) (b : Basics env P)
    (reaped : (rounds : ℕ) (locked : ℕ → Bool) (now : ℕ)
      → Keeps P (reap_expired_leases rounds env locked now)) where
  after-Keeps : (call : Call) (s : Store) → P s → P (after env call s)
  unfolding after
  after-Keeps (starts now rid spec input) s h = (start_run-Keeps env P b now rid spec input).at s h
  after-Keeps (appends rid type sid payload) s h = (b.appended rid type sid payload).at s h
  after-Keeps (enqueues rid sid kind attempt run_after) s h =
      (b.enqueued rid sid kind attempt run_after).at s h
  after-Keeps (advances now rid spec) s h = (advance_run-Keeps env P b now rid spec).at s h
  after-Keeps (resolves now rid sid decision actor comment) s h =
      (resolve_approval-Keeps env P b now rid sid decision actor comment).at s h
  after-Keeps (retries now rid retry task error) s h =
      (schedule_retry-Keeps env P b now rid retry task error).at s h
  after-Keeps (reaps rounds locked now) s h = (reaped rounds locked now).at s h

  after_all-Keeps : (calls : List Call) (s : Store) → P s → P (after_all env calls s)
  unfolding after_all
  after_all-Keeps [] s h = h
  after_all-Keeps (call ∷ calls) s h =
      after_all-Keeps calls (after env call s) (after-Keeps call s h)

-- The logs alone: no hypothesis about the table is needed.
pub after_all-IsLogged :
    (env : Env) (calls : List Call) (s : Store) → IsLogged s → IsLogged (after_all env calls s)
after_all-IsLogged env calls s h =
    after_all-Keeps env IsLogged (logs env)
      (λ n locked now. reap_expired_leases-IsLogged n env locked now) calls s h

-- What a sequence of calls does to a sound task table, it does by the transactions of Queue/Steps,
-- the calls that raise included.
pub after_all-History :
    (env : Env) (calls : List Call) (s : Store)
    → IsSound env s.queue
    → History env s.queue (after_all env calls s).queue
after_all-History env calls s sound =
    after_all-Keeps env (Reaches env s.queue) (transacts env s.queue)
      (reap_expired_leases-Reaches env s.queue sound) calls s History.here

-- If every run's log is numbered 1, 2, 3, … without a gap and its last_seq counts it, and the task
-- table is sound (ids and keys are unique, each key is the digest of its row, ids are below the
-- next id, and a row has an expiry exactly if it is LEASED, and no owner if it is not), all this
-- still holds after any sequence of calls: start_run, append_event, enqueue_step, advance_run,
-- resolve_approval, schedule_retry and reap_expired_leases, those that raise included.
pub after_all-IsStored :
    (env : Env) (calls : List Call) (s : Store)
    → IsStored env s
    → IsStored env (after_all env calls s)
after_all-IsStored env calls s h =
    after_all-Keeps env (IsStored env) (stored env)
      (λ n locked now. reap_expired_leases-IsStored n env locked now) calls s h
