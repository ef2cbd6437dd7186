-- ===== src/Queue/Requeued.antt =====
-- The table's invariant and a task that the reaper of engine/service.py gives back.
use nutanix_hack.Prelude.{
  ℕ, suc, ◌≡◌, refl, subst, false, String, none, some, List, [], ◌∷◌, arith, ◌==◌, eq_iff, str_eq,
  Bool-cases, inl, inr,
}
use nutanix_hack.Queue.{
  Task, Env, Queue, has_key, key_taken, idempotency_key, requeue, requeued, update_where,
}
use nutanix_hack.Queue.Rows.{find_task, UniqueIds, update_where-UniqueIds}
use nutanix_hack.Queue.Invariant.{UniqueKeys, RowOk, IsSound, All-update_where}

key_taken_of_absent :
    (id : ℕ) (rows : List Task) (key : String)
    → find_task id rows ≡ none
    → key_taken id rows key ≡ has_key rows key
unfolding find_task key_taken has_key
key_taken_of_absent id [] key h = refl
key_taken_of_absent id (t ∷ ts) key h = ground (arith, key_taken_of_absent id ts key)

module _ (id : ℕ) (f : Task → Task) where
  save_absent :
      (rows : List Task) → find_task id rows ≡ none → update_where (λ t. t.id == id) f rows ≡ rows
  unfolding find_task update_where
  save_absent [] h = refl
  save_absent (t ∷ ts) h = ground (arith, save_absent ts)

  has_key-save :
      (rows : List Task) (task : Task) (key : String)
      → find_task id rows ≡ some task
      → has_key rows key ≡ false
      → str_eq (f task).idempotency_key key ≡ false
      → UniqueIds rows
      → has_key (update_where (λ t. t.id == id) f rows) key ≡ false
  unfolding find_task update_where has_key
  has_key-save [] task key e h n u = refl
  has_key-save (t ∷ ts) task key e h n u = ground (arith, has_key-save ts task key, save_absent ts)

  save-UniqueKeys :
      (rows : List Task) (task : Task)
      → find_task id rows ≡ some task
      → key_taken id rows (f task).idempotency_key ≡ false
      → UniqueIds rows
      → UniqueKeys rows
      → UniqueKeys (update_where (λ t. t.id == id) f rows)
  unfolding find_task update_where key_taken
  save-UniqueKeys [] task e h u k = tt
  save-UniqueKeys (t ∷ ts) task e h u k = ground (
    arith,
    save-UniqueKeys ts task,
    save_absent ts,
    key_taken_of_absent id ts (f task).idempotency_key,
    has_key-save ts task t.idempotency_key,
    eq_iff (f task).idempotency_key t.idempotency_key,
    eq_iff t.idempotency_key (f task).idempotency_key,
  )

requeued-RowOk :
    (env : Env) (n now : ℕ) (t : Task) → RowOk env n t → RowOk env n (requeued env now t)
unfolding requeued
requeued-RowOk env n now t r = record {
  below = r.below;
  keyed = refl;
  leased = λ h. cc;
  unleased = λ _. (refl, refl);
}

pub requeue-IsSound :
    (env : Env) (now : ℕ) (task : Task) (q : Queue) {q' : Queue}
    → IsSound env q
    → find_task task.id q.rows ≡ some task
    → requeue env now task q ≡ some q'
    → IsSound env q'
unfolding requeue
requeue-IsSound env now task q {q'} s held h =
    elim (Bool-cases (
      key_taken task.id q.rows
        (idempotency_key env task.run task.step_id task.kind (suc task.attempt)))) [
          | inl taken ↦ ground arith
          | inr free ↦
              let e : record q {
                rows = update_where (λ t. t.id == task.id) (requeued env now) q.rows;
              }
                  ≡ q' =
                ground arith in
              subst (IsSound env) e (record {
                ids = update_where-UniqueIds _ (requeued env now) (λ t. refl) q.rows s.ids;
                keys =
                    save-UniqueKeys task.id (requeued env now) q.rows task held free s.ids s.keys;
                rows_ok =
                    All-update_where env q.next_id _ (requeued env now)
                      (λ t _. requeued-RowOk env q.next_id now t) q.rows s.rows_ok;
              })
        ]
