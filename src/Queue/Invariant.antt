-- ===== src/Queue/Invariant.antt =====
-- The invariant of the task table between two transactions, and the updates of engine/service.py.
use nutanix_hack.Prelude.{
  ℕ, ◌+◌, ◌<◌, ◌≡◌, refl, Bool, true, false, String, Option, none, some, List, [], ◌∷◌, arith, ◌==◌,
  All, Bool-cases, inl, inr,
}
use nutanix_hack.Queue.{
  Task, Env, Queue, is_status_leased, has_key, idempotency_key, claim_task, finish_task,
  renew_lease, finish_task_if_owned, update_where, lease_to, take_lease, close, is_held,
}
use nutanix_hack.Queue.Rows.{UniqueIds, update_where-UniqueIds}

-- The UNIQUE index on the key.
abbrev pub UniqueKeys : List Task → Type 0
UniqueKeys [] = Unit {0}
UniqueKeys (t ∷ ts) = (has_key ts t.idempotency_key ≡ false) × UniqueKeys ts

-- Each row carries the digest of its own run, step, kind and attempt, an id below the counter, and
-- a lease, with its owner and its expiry, exactly while it is LEASED.
pub record RowOk (env : Env) (next_id : ℕ) (t : Task) : Type 0 where
  pub below : t.id < next_id
  pub keyed : t.idempotency_key ≡ idempotency_key env t.run t.step_id t.kind t.attempt
  pub leased : is_status_leased t.status ≡ true → (e : ℕ) × (t.lease_expires_at ≡ some e)
  pub unleased :
      is_status_leased t.status ≡ false → (t.lease_owner ≡ "") × (t.lease_expires_at ≡ none)

pub record IsSound (env : Env) (q : Queue) : Type 0 where
  pub ids : UniqueIds q.rows
  pub keys : UniqueKeys q.rows
  pub rows_ok : All (RowOk env q.next_id) q.rows

pub All-update_where :
    (env : Env) (n : ℕ) (p : Task → Bool) (f : Task → Task)
    → ((t : Task) → p t ≡ true → RowOk env n t → RowOk env n (f t))
    → (rows : List Task) → All (RowOk env n) rows
    → All (RowOk env n) (update_where p f rows)
unfolding update_where
All-update_where env n p f ok [] h = tt
All-update_where env n p f ok (t ∷ ts) h = elim (Bool-cases (p t)) [
  | inl e ↦ rw (e, update_where) (ok t e h.0, All-update_where env n p f ok ts h.1)
  | inr e ↦ rw (e, update_where) (h.0, All-update_where env n p f ok ts h.1)
]

has_key-update_where :
    (p : Task → Bool) (f : Task → Task)
    → ((t : Task) → (f t).idempotency_key ≡ t.idempotency_key)
    → (rows : List Task) (key : String) → has_key (update_where p f rows) key ≡ has_key rows key
unfolding has_key update_where
has_key-update_where p f same [] key = refl
has_key-update_where p f same (t ∷ ts) key =
    ground (arith, same t, has_key-update_where p f same ts key)

update_where-UniqueKeys :
    (p : Task → Bool) (f : Task → Task)
    → ((t : Task) → (f t).idempotency_key ≡ t.idempotency_key)
    → (rows : List Task) → UniqueKeys rows
    → UniqueKeys (update_where p f rows)
unfolding update_where
update_where-UniqueKeys p f same [] u = tt
update_where-UniqueKeys p f same (t ∷ ts) u = ground (
  arith,
  same t,
  has_key-update_where p f same ts t.idempotency_key,
  update_where-UniqueKeys p f same ts u.1,
)

-- An update that keeps ids and keys keeps the invariant, if it keeps each row that it writes right.
update_where-IsSound :
    (env : Env) (q : Queue) (p : Task → Bool) (f : Task → Task)
    → ((t : Task) → (f t).id ≡ t.id)
    → ((t : Task) → (f t).idempotency_key ≡ t.idempotency_key)
    → ((t : Task) → p t ≡ true → RowOk env q.next_id t → RowOk env q.next_id (f t))
    → IsSound env q
    → IsSound env (record q { rows = update_where p f q.rows })
update_where-IsSound env q p f same_id same_key ok s = record {
  ids = update_where-UniqueIds p f same_id q.rows s.ids;
  keys = update_where-UniqueKeys p f same_key q.rows s.keys;
  rows_ok = All-update_where env q.next_id p f ok q.rows s.rows_ok;
}

lease_to-RowOk :
    (env : Env) (n : ℕ) (worker : String) (expiry : ℕ) (t : Task)
    → RowOk env n t
    → RowOk env n (lease_to worker expiry t)
unfolding lease_to
lease_to-RowOk env n worker expiry t r = record {
  below = r.below;
  keyed = r.keyed;
  leased = λ _. (expiry, refl);
  unleased = λ h. cc;
}

close-RowOk : (env : Env) (n : ℕ) (t : Task) → RowOk env n t → RowOk env n (close t)
unfolding close
close-RowOk env n t r = record {
  below = r.below;
  keyed = r.keyed;
  leased = λ h. cc;
  unleased = λ _. (refl, refl);
}

take_lease-IsSound :
    (env : Env) (worker : String) (now : ℕ) (q : Queue) (found : Option Task)
    → IsSound env q
    → IsSound env (take_lease env worker now q found).1
unfolding take_lease
take_lease-IsSound env worker now q none s = s
take_lease-IsSound env worker now q (some task) s =
    update_where-IsSound env q (λ t. t.id == task.id) (lease_to worker (now + env.lease))
      (λ t. refl) (λ t. refl) (λ t _. lease_to-RowOk env q.next_id worker (now + env.lease) t) s

pub claim_task-IsSound :
    (env : Env) (locked : ℕ → Bool) (worker : String) (now : ℕ) (q : Queue)
    → IsSound env q
    → IsSound env (claim_task env locked worker now q).1
unfolding claim_task
claim_task-IsSound env locked worker now q s = take_lease-IsSound env worker now q _ s

pub finish_task-IsSound :
    (env : Env) (id : ℕ) (q : Queue) → IsSound env q → IsSound env (finish_task id q)
unfolding finish_task
finish_task-IsSound env id q s =
    update_where-IsSound env q _ close (λ t. refl) (λ t. refl) (λ t _. close-RowOk env q.next_id t)
      s

pub finish_task_if_owned-IsSound :
    (env : Env) (id : ℕ) (worker : String) (q : Queue)
    → IsSound env q
    → IsSound env (finish_task_if_owned id worker q).1
unfolding finish_task_if_owned
finish_task_if_owned-IsSound env id worker q s =
    update_where-IsSound env q _ close (λ t. refl) (λ t. refl) (λ t _. close-RowOk env q.next_id t)
      s

renew-RowOk :
    (env : Env) (n id : ℕ) (worker : String) (expiry : ℕ) (t : Task)
    → is_held id worker t ≡ true
    → RowOk env n t
    → RowOk env n (record t { lease_expires_at = some expiry })
unfolding is_held
renew-RowOk env n id worker expiry t h r = record {
  below = r.below;
  keyed = r.keyed;
  leased = λ _. (expiry, refl);
  unleased = λ e. ground arith;
}

pub renew_lease-IsSound :
    (env : Env) (id : ℕ) (worker : String) (now : ℕ) (q : Queue)
    → IsSound env q
    → IsSound env (renew_lease env id worker now q).1
unfolding renew_lease
renew_lease-IsSound env id worker now q s =
    update_where-IsSound env q (is_held id worker)
      (λ t. record t { lease_expires_at = some (now + env.lease) }) (λ t. refl) (λ t. refl)
      (λ t. renew-RowOk env q.next_id id worker (now + env.lease) t) s
