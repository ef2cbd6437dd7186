-- ===== src/Queue/Claims.antt =====
-- About `claim_task` of engine/service.py.
use mathlib.Core.Option
use mathlib.Core.Option.{some-injective}
use nutanix_hack.Prelude.{
  ℕ, ◌+◌, ◌≤◌, ◌≡◌, ◌≢◌, refl, subst, Bool, true, false, String, Option, none, some, arith, ◌==◌,
  All, if◌then◌else◌,
}
use nutanix_hack.Queue.{
  Task, TaskStatus, Env, Queue, claim_task, take_lease, lease_to, is_due, first_by, update_where,
}
use nutanix_hack.Queue.Rows.{
  find_task, UniqueIds, find_task-save, find_task-Memᴰ, first_by-some, first_by-none, NoneBelow,
}

-- The row is READY, due and not locked by another transaction.
pub record IsDue (locked : ℕ → Bool) (now : ℕ) (t : Task) : Type 0 where
  pub waiting : t.status ≡ TaskStatus.ready
  pub due : t.run_after ≤ now
  pub free : locked t.id ≡ false

is_due-IsDue :
    (locked : ℕ → Bool) (now : ℕ) (t : Task) → is_due locked now t ≡ true → IsDue locked now t
unfolding is_due
is_due-IsDue locked now t h = record {
  waiting = ground arith;
  due = ground arith;
  free = ground arith;
}

-- What a claim that answers with a task has done: it leased the row, which was due and had the
-- least `run_after` of the due rows, to the worker for the lease time, and touched no other row.
pub record Claimed (env : Env) (locked : ℕ → Bool) (worker : String) (now : ℕ) (q q' : Queue)
    (t : Task) : Type 0 where
  pub row : Task
  pub there : find_task row.id q.rows ≡ some row
  pub was_due : IsDue locked now row
  pub longest : NoneBelow (λ s. s.run_after) (is_due locked now) row.run_after q.rows
  pub leased : t ≡ lease_to worker (now + env.lease) row
  pub now_there : find_task t.id q'.rows ≡ some t
  pub others : (id : ℕ) → id ≢ t.id → find_task id q'.rows ≡ find_task id q.rows

take_lease-Claimed :
    (env : Env) (locked : ℕ → Bool) (worker : String) (now : ℕ) (q : Queue) (row : Task)
    → UniqueIds q.rows
    → first_by (λ t. t.run_after) (is_due locked now) q.rows ≡ some row
    → Claimed env locked worker now q
        (take_lease env worker now q (some row)).1
        (lease_to worker (now + env.lease) row)
unfolding take_lease lease_to
take_lease-Claimed env locked worker now q row u h =
    let (m, pass, least) = first_by-some _ _ q.rows row h in
    let there : find_task row.id q.rows ≡ some row = find_task-Memᴰ q.rows row u m in
    record {
      row = row;
      there = there;
      was_due = is_due-IsDue locked now row pass;
      longest = least;
      leased = refl;
      now_there = ground (arith, there, saved row.id);
      others = λ id other. ground (arith, saved id);
    }
  where
    saved :
        (id : ℕ)
        → find_task id
            (update_where (λ t. t.id == row.id) (lease_to worker (now + env.lease)) q.rows)
          ≡ (if id == row.id
              then Option.map (lease_to worker (now + env.lease)) (find_task row.id q.rows)
              else find_task id q.rows)
    saved id = find_task-save row.id id (lease_to worker (now + env.lease)) q.rows (λ t. refl)

taken :
    (env : Env) (locked : ℕ → Bool) (worker : String) (now : ℕ) (q : Queue) (found : Option Task)
    (t : Task)
    → UniqueIds q.rows
    → first_by (λ t. t.run_after) (is_due locked now) q.rows ≡ found
    → (take_lease env worker now q found).0 ≡ some t
    → Claimed env locked worker now q (take_lease env worker now q found).1 t
unfolding take_lease
taken env locked worker now q none t u e h = cc
taken env locked worker now q (some row) t u e h =
    subst (Claimed env locked worker now q (take_lease env worker now q (some row)).1)
      (some-injective _ _ h) (take_lease-Claimed env locked worker now q row u e)

-- If ids are unique and claim_task answers with a task, then the row was READY, due and not locked,
-- no such row had a smaller run_after, the answer is the row leased to the worker for the lease
-- time and is now in the table, and each other row is as before.
pub claim_task-some :
    (env : Env) (locked : ℕ → Bool) (worker : String) (now : ℕ) (q : Queue) (t : Task)
    → UniqueIds q.rows
    → (claim_task env locked worker now q).0 ≡ some t
    → Claimed env locked worker now q (claim_task env locked worker now q).1 t
unfolding claim_task
claim_task-some env locked worker now q t u h = taken env locked worker now q _ t u refl h

not_taken :
    (env : Env) (locked : ℕ → Bool) (worker : String) (now : ℕ) (q : Queue) (found : Option Task)
    → first_by (λ t. t.run_after) (is_due locked now) q.rows ≡ found
    → (take_lease env worker now q found).0 ≡ none
    → All (λ s. is_due locked now s ≡ false) q.rows × ((take_lease env worker now q found).1 ≡ q)
unfolding take_lease
not_taken env locked worker now q none e h = (first_by-none _ _ q.rows e, refl)
not_taken env locked worker now q (some row) e h = cc

-- If claim_task answers with none, no row is READY, due and not locked, and the table is as before.
pub claim_task-none :
    (env : Env) (locked : ℕ → Bool) (worker : String) (now : ℕ) (q : Queue)
    → (claim_task env locked worker now q).0 ≡ none
    → All (λ s. is_due locked now s ≡ false) q.rows × ((claim_task env locked worker now q).1 ≡ q)
unfolding claim_task
claim_task-none env locked worker now q h = not_taken env locked worker now q _ refl h

-- If ids are unique before and after the first of two consecutive claims, by any workers at any
-- times, and both answer with a task, the two tasks have different ids.
pub claims_differ :
    (env : Env) (locked locked' : ℕ → Bool) (worker worker' : String) (now now' : ℕ) (q : Queue)
    (t t' : Task)
    → UniqueIds q.rows
    → UniqueIds (claim_task env locked worker now q).1.rows
    → (claim_task env locked worker now q).0 ≡ some t
    → (claim_task env locked' worker' now' (claim_task env locked worker now q).1).0 ≡ some t'
    → t'.id ≢ t.id
unfolding lease_to
claims_differ env locked locked' worker worker' now now' q t t' u u' h h' same =
    let first = claim_task-some env locked worker now q t u h in
    let second =
      claim_task-some env locked' worker' now' (claim_task env locked worker now q).1 t' u' h' in
    grind
      (arith, first.now_there, first.leased, second.there, second.was_due.waiting, second.leased)
