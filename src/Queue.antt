-- ===== src/Queue.antt =====
-- engine/models.py (Task) and the task queue of engine/service.py: the rows, and what each query
-- does to them. Times are microseconds. A row that another transaction has locked is skipped by
-- `select_for_update(skip_locked=True)`: `locked` says which rows those are.
pub mod Rows
pub mod Invariant
pub mod Enqueued
pub mod Requeued
pub mod Claims
pub mod Fencing
pub mod Steps
pub mod Heartbeat
pub mod Keys
mod Examples
use nutanix_hack.Prelude.Int.{ℤ}
use nutanix_hack.Prelude.{
  ℕ, suc, ◌+◌, max, Bool, true, false, ◌&&◌, ◌||◌, not, String, Option, none, some, List, [], ◌∷◌,
  ◌++◌, ltb, leb, ◌==◌, str_eq, some_of, or_else, if◌then◌else◌,
}

pub data TaskStatus : Type 0 where
  ready leased done : TaskStatus

pub data TaskKind : Type 0 where
  execute compensate : TaskKind

pub record Task : Type 0 where
  pub id : ℕ
  pub run : String
  pub step_id : String
  pub kind : TaskKind
  pub attempt : ℕ
  pub status : TaskStatus
  pub run_after : ℕ
  pub lease_owner : String
  pub lease_expires_at : Option ℕ
  pub idempotency_key : String

-- What the code takes from outside: TASK_LEASE_SECONDS, MAX_TASK_ATTEMPTS and its decimal text, the
-- hex digest of sha256 over `run_id:step_id:kind:attempt`, as a function of the four parts, and
-- `random.uniform(0, ms)`, in microseconds.
pub record Env : Type 0 where
  pub lease : ℕ
  pub max_task_attempts : ℕ
  pub max_task_attempts_text : String
  pub uniform : ℤ → ℕ
  pub digest : String → String → TaskKind → ℕ → String

-- The table; `next_id` is the primary key that the next row gets.
pub record Queue : Type 0 where
  pub rows : List Task
  pub next_id : ℕ

abbrev pub is_status_ready : TaskStatus → Bool
is_status_ready TaskStatus.ready = true
is_status_ready _ = false

abbrev pub is_status_leased : TaskStatus → Bool
is_status_leased TaskStatus.leased = true
is_status_leased _ = false

abbrev pub same_kind : TaskKind → TaskKind → Bool
same_kind TaskKind.execute TaskKind.execute = true
same_kind TaskKind.compensate TaskKind.compensate = true
same_kind _ _ = false

unfoldable pub idempotency_key : Env → String → String → TaskKind → ℕ → String
idempotency_key env run sid kind attempt = env.digest run sid kind attempt

unfoldable pub has_key : List Task → String → Bool
has_key [] key = false
has_key (t ∷ ts) key = if str_eq t.idempotency_key key then true else has_key ts key

-- The unique index, asked about a row that is there: only another row can violate it.
unfoldable pub key_taken : ℕ → List Task → String → Bool
key_taken id [] key = false
key_taken id (t ∷ ts) key =
    let rest = key_taken id ts key in
    if t.id == id then rest else if str_eq t.idempotency_key key then true else rest

-- `enqueue_step`: the new row, or `none` where the unique key is taken.
unfoldable pub enqueue_step : Env → String → String → TaskKind → ℕ → ℕ → Queue → Option Task × Queue
unfolding idempotency_key
enqueue_step env run sid kind attempt run_after q =
    let key = idempotency_key env run sid kind attempt in
    let task : Task = record {
      id = q.next_id;
      run = run;
      step_id = sid;
      kind = kind;
      attempt = attempt;
      status = TaskStatus.ready;
      run_after = run_after;
      lease_owner = "";
      lease_expires_at = none;
      idempotency_key = key;
    } in
    if has_key q.rows key
    then (none, q)
    else (some task, record { rows = q.rows ++ task ∷ []; next_id = suc q.next_id })

-- `filter(run=run, step_id=step_id, kind=kind)`
unfoldable pub is_for : String → String → TaskKind → Task → Bool
is_for run sid kind t = str_eq t.run run && str_eq t.step_id sid && same_kind t.kind kind

-- `aggregate(Max("attempt"))`, with `or 0` for no row.
unfoldable pub highest_attempt : (Task → Bool) → List Task → ℕ
highest_attempt p [] = 0
highest_attempt p (t ∷ ts) =
    let rest = highest_attempt p ts in if p t then max t.attempt rest else rest

unfoldable pub next_attempt : String → String → TaskKind → Queue → ℕ
unfolding is_for
next_attempt run sid kind q = highest_attempt (is_for run sid kind) q.rows + 1

-- `filter(...).order_by(key).first()`: the first row with the least key.
unfoldable pub earlier : (Task → ℕ) → Task → Option Task → Task
earlier key t none = t
earlier key t (some best) = if leb (key t) (key best) then t else best

unfoldable pub first_by : (Task → ℕ) → (Task → Bool) → List Task → Option Task
unfolding earlier
first_by key p [] = none
first_by key p (t ∷ ts) =
    let best = first_by key p ts in if p t then some (earlier key t best) else best

-- `filter(p).update(f)`: how many rows it wrote, and the table after it.
unfoldable pub count_where : (Task → Bool) → List Task → ℕ
count_where p [] = 0
count_where p (t ∷ ts) = let rest = count_where p ts in if p t then suc rest else rest

unfoldable pub update_where : (Task → Bool) → (Task → Task) → List Task → List Task
update_where p f [] = []
update_where p f (t ∷ ts) = let rest = update_where p f ts in if p t then f t ∷ rest else t ∷ rest

-- `task.save(...)`: writes the row with the task's primary key.
abbrev pub save : ℕ → (Task → Task) → List Task → List Task
save id = update_where (λ t. t.id == id)

unfoldable pub is_due : (ℕ → Bool) → ℕ → Task → Bool
is_due locked now t = is_status_ready t.status && leb t.run_after now && not (locked t.id)

unfoldable pub lease_to : String → ℕ → Task → Task
lease_to worker expiry t = record t {
  status = TaskStatus.leased;
  lease_owner = worker;
  lease_expires_at = some expiry;
}

-- The rest of `claim_task`, once the query has answered.
unfoldable pub take_lease : Env → String → ℕ → Queue → Option Task → Option Task × Queue
unfolding lease_to
take_lease env worker now q none = (none, q)
take_lease env worker now q (some task) = (
  some (lease_to worker (now + env.lease) task),
  record q { rows = save task.id (lease_to worker (now + env.lease)) q.rows },
)

-- `claim_task`: the task as the worker holds it, and the queue.
unfoldable pub claim_task : Env → (ℕ → Bool) → String → ℕ → Queue → Option Task × Queue
unfolding take_lease
claim_task env locked worker now q =
    take_lease env worker now q (first_by (λ t. t.run_after) (is_due locked now) q.rows)

unfoldable pub close : Task → Task
close t = record t { status = TaskStatus.done; lease_owner = ""; lease_expires_at = none }

-- `finish_task`, which asks nobody.
unfoldable pub finish_task : ℕ → Queue → Queue
unfolding close
finish_task id q = record q { rows = save id close q.rows }

-- `filter(pk=task.pk, lease_owner=worker_id, status=LEASED)`
unfoldable pub is_held : ℕ → String → Task → Bool
is_held id worker t = t.id == id && str_eq t.lease_owner worker && is_status_leased t.status

unfoldable pub renew_lease : Env → ℕ → String → ℕ → Queue → Bool × Queue
renew_lease env id worker now q = (
  count_where (is_held id worker) q.rows == 1,
  record q {
    rows =
        update_where (is_held id worker)
          (λ t. record t { lease_expires_at = some (now + env.lease) }) q.rows;
  },
)

unfoldable pub finish_task_if_owned : ℕ → String → Queue → Bool × Queue
unfolding close
finish_task_if_owned id worker q = (
  count_where (is_held id worker) q.rows == 1,
  record q { rows = update_where (is_held id worker) close q.rows },
)

-- The reaper's query; a row with no expiry (NULL) is not less than anything.
unfoldable pub is_expired : (ℕ → Bool) → ℕ → Task → Bool
is_expired locked now t =
    is_status_leased t.status
    && elim t.lease_expires_at [ none ↦ false | some expiry ↦ ltb expiry now ]
    && not (locked t.id)

unfoldable pub next_expired : (ℕ → Bool) → ℕ → Queue → Option Task
next_expired locked now q =
    first_by (λ t. or_else t.lease_expires_at 0) (is_expired locked now) q.rows

-- What the reaper writes to a task that it gives back.
unfoldable pub requeued : Env → ℕ → Task → Task
unfolding idempotency_key
requeued env now t = record t {
  attempt = suc t.attempt;
  status = TaskStatus.ready;
  lease_owner = "";
  lease_expires_at = none;
  run_after = now;
  idempotency_key = idempotency_key env t.run t.step_id t.kind (suc t.attempt);
}

-- The save of a recovered task. `none` is the IntegrityError of a key that another row has.
unfoldable pub requeue : Env → ℕ → Task → Queue → Option Queue
unfolding requeued
requeue env now task q =
    if key_taken task.id q.rows
      (idempotency_key env task.run task.step_id task.kind (suc task.attempt))
    then none
    else some (record q { rows = save task.id (requeued env now) q.rows })
