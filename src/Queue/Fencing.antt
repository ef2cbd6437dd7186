-- ===== src/Queue/Fencing.antt =====
-- About `renew_lease` and `finish_task_if_owned` of engine/service.py: who holds a lease.
use mathlib.Core.Option
use nutanix_hack.Prelude.{
  ℕ, ◌+◌, ◌≡◌, refl, sym, ap, ◌∙◌, Bool, true, false, String, Option, none, some, List, [], ◌∷◌,
  arith, if◌then◌else◌, if◌then◌else◌, ◌==◌,
}
use nutanix_hack.Queue.{
  Task, Env, Queue, update_where, count_where, is_held, renew_lease, finish_task_if_owned, close,
  save, finish_task,
}
use nutanix_hack.Queue.Rows.{
  find_task, UniqueIds, if_matches, find_task-update_where, update_where_none, find_task-save,
}

-- Whether the worker is the recorded owner of the task's lease.
abbrev held_row : ℕ → String → Option Task → Bool
held_row id worker none = false
held_row id worker (some t) = is_held id worker t

unfoldable pub holds : ℕ → String → Queue → Bool
holds id worker q = held_row id worker (find_task id q.rows)

count_absent :
    (id : ℕ) (worker : String) (rows : List Task)
    → find_task id rows ≡ none
    → count_where (is_held id worker) rows ≡ 0
unfolding find_task count_where is_held
count_absent id worker [] h = refl
count_absent id worker (t ∷ ts) h = ground (arith, count_absent id worker ts)

count-holds :
    (id : ℕ) (worker : String) (rows : List Task)
    → UniqueIds rows
    → count_where (is_held id worker) rows
      ≡ (if held_row id worker (find_task id rows) then 1 else 0)
unfolding find_task count_where is_held
count-holds id worker [] u = refl
count-holds id worker (t ∷ ts) u =
    ground (arith, count_absent id worker ts, count-holds id worker ts u.1)

-- A row that is not held stays so under an update that leases it to nobody new.
pub holds-update :
    (p : Task → Bool) (f : Task → Task) (id : ℕ) (worker : String) (q : Queue)
    → ((t : Task) → (f t).id ≡ t.id)
    → ((t : Task) → p t ≡ true → is_held id worker (f t) ≡ true → is_held id worker t ≡ true)
    → holds id worker (record q { rows = update_where p f q.rows }) ≡ true
    → holds id worker q ≡ true
unfolding holds
holds-update p f id worker q same keeps h =
    go (find_task id q.rows)
      (ap (held_row id worker) (sym (find_task-update_where p f same id q.rows)) ∙ h)
  where
    go :
        (o : Option Task)
        → held_row id worker (Option.map (if_matches p f) o) ≡ true
        → held_row id worker o ≡ true
    go none e = e
    go (some t) e = ground (arith, keeps t)

pub closed_not_held : (id : ℕ) (worker : String) (t : Task) → is_held id worker (close t) ≡ false
unfolding is_held close
closed_not_held id worker t = ground arith

update_absent :
    (id : ℕ) (f : Task → Task) (rows : List Task)
    → find_task id rows ≡ none
    → update_where (λ t. t.id == id) f rows ≡ rows
unfolding find_task update_where
update_absent id f [] h = refl
update_absent id f (t ∷ ts) h = ground (arith, update_absent id f ts)

update_held :
    (id : ℕ) (worker : String) (f : Task → Task) (rows : List Task)
    → UniqueIds rows
    → update_where (is_held id worker) f rows ≡ (
        if held_row id worker (find_task id rows)
        then update_where (λ t. t.id == id) f rows
        else rows)
unfolding find_task update_where is_held
update_held id worker f [] u = refl
update_held id worker f (t ∷ ts) u = ground (
  arith,
  count_absent id worker ts,
  update_where_none (is_held id worker) f ts,
  update_absent id f ts,
  update_held id worker f ts u.1,
)

-- The table after an update of the row that the worker holds.
written_if_held :
    (id : ℕ) (worker : String) (f : Task → Task) (q : Queue)
    → UniqueIds q.rows
    → (record q { rows = update_where (is_held id worker) f q.rows })
      ≡ (if holds id worker q then record q { rows = save id f q.rows } else q)
unfolding holds
written_if_held id worker f q u =
    ap (λ (rows : List Task). record q { rows = rows }) (update_held id worker f q.rows u)
    ∙ ground arith

nobody_holds :
    (id : ℕ) (any : String) (q : Queue) → UniqueIds q.rows → holds id any (finish_task id q) ≡ false
unfolding holds finish_task
nobody_holds id any q u =
    ap (held_row id any) (find_task-save id id close q.rows (λ t. refl))
    ∙ closed (find_task id q.rows)
  where
    closed :
        (o : Option Task) → held_row id any (if id == id then Option.map close o else o) ≡ false
    closed none = ground arith
    closed (some t) = ground (arith, closed_not_held id any t)

-- If ids are unique, finish_task_if_owned answers whether the worker holds the lease of the task;
-- if so it does to the table what finish_task does, after which nobody holds that lease, and if
-- not, the table is as before.
pub finish_task_if_owned_fenced :
    (id : ℕ) (worker any : String) (q : Queue)
    → UniqueIds q.rows
    → ((finish_task_if_owned id worker q).0 ≡ holds id worker q)
      × ((finish_task_if_owned id worker q).1 ≡ (if holds id worker q then finish_task id q else q))
      × (holds id any (finish_task id q) ≡ false)
unfolding finish_task_if_owned finish_task holds
finish_task_if_owned_fenced id worker any q u = (
  ground (arith, count-holds id worker q.rows u),
  written_if_held id worker close q u,
  nobody_holds id any q u,
)

-- If ids are unique, renew_lease answers whether the worker holds the lease of the task; if so it
-- saves the row with the expiry moved to now plus the lease time, and if not, the table is as
-- before.
pub renew_lease_fenced :
    (env : Env) (id : ℕ) (worker : String) (now : ℕ) (q : Queue)
    → UniqueIds q.rows
    → ((renew_lease env id worker now q).0 ≡ holds id worker q)
      × ((renew_lease env id worker now q).1 ≡ (
          if holds id worker q
          then record q {
            rows = save id (λ t. record t { lease_expires_at = some (now + env.lease) }) q.rows;
          }
          else q))
unfolding renew_lease holds
renew_lease_fenced env id worker now q u = (
  ground (arith, count-holds id worker q.rows u),
  written_if_held id worker (λ t. record t { lease_expires_at = some (now + env.lease) }) q u,
)
