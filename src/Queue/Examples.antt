-- ===== src/Queue/Examples.antt =====
-- Two queued steps and two workers: tests and instances.
use nutanix_hack.Prelude.{
  ℕ, ◌≡◌, ◌≢◌, refl, Bool, true, false, String, concat, none, some, [], ◌∷◌, str_eq, eq_iff, ◌==◌,
  if◌then◌else◌,
}
use nutanix_hack.Queue.{
  Task, TaskStatus, TaskKind, Env, Queue, enqueue_step, claim_task, first_by, is_due,
  finish_task_if_owned, requeue, requeued, key_taken, has_key, next_attempt, highest_attempt,
  update_where, is_held, renew_lease, count_where,
}
use nutanix_hack.Queue.Rows.{find_task}
use nutanix_hack.Queue.Invariant.{IsSound, claim_task-IsSound}
use nutanix_hack.Queue.Enqueued.{enqueue_step-IsSound}
use nutanix_hack.Queue.Claims.{Claimed, claim_task-some}
use nutanix_hack.Queue.Fencing.{holds}
use nutanix_hack.Queue.Steps.{
  History, claims, requeues, here, next, History-IsSound, lost_lease_stays_lost,
}
use nutanix_hack.Queue.Keys.{NoCollision}
use nutanix_hack.Queue.Heartbeat.{Tick, beat, lost_heartbeat_is_final}

abbrev attempt_text : ℕ → String
attempt_text n = if n == 1 then "1" else if n == 2 then "2" else "later"

-- A stand-in for the digest that tells the rows here apart.
abbrev env : Env
env = record {
  lease = 30;
  max_task_attempts = 5;
  max_task_attempts_text = "5";
  uniform = λ ms. 0;
  digest = λ run sid kind attempt. concat run (concat sid (attempt_text attempt));
}

abbrev empty_queue : Queue
empty_queue = record { rows = []; next_id = 1 }

abbrev unlocked : ℕ → Bool
unlocked id = false

abbrev one_queued : Queue
one_queued = (enqueue_step env "run" "drain" TaskKind.execute 1 5 empty_queue).1

abbrev both_queued : Queue
both_queued = (enqueue_step env "run" "upgrade" TaskKind.execute 1 3 one_queued).1

empty_queue-IsSound : IsSound env empty_queue
empty_queue-IsSound = record { ids = tt; keys = tt; rows_ok = tt }

both_queued-IsSound : IsSound env both_queued
both_queued-IsSound =
    enqueue_step-IsSound env "run" "upgrade" TaskKind.execute 1 3 one_queued
      (enqueue_step-IsSound env "run" "drain" TaskKind.execute 1 5 empty_queue empty_queue-IsSound)

-- `upgrade` has waited longer.
abbrev first_task : Task
first_task = record {
  id = 2;
  run = "run";
  step_id = "upgrade";
  kind = TaskKind.execute;
  attempt = 1;
  status = TaskStatus.leased;
  run_after = 3;
  lease_owner = "ann";
  lease_expires_at = some 40;
  idempotency_key = "runupgrade1";
}

abbrev second_task : Task
second_task = record {
  id = 1;
  run = "run";
  step_id = "drain";
  kind = TaskKind.execute;
  attempt = 1;
  status = TaskStatus.leased;
  run_after = 5;
  lease_owner = "bob";
  lease_expires_at = some 41;
  idempotency_key = "rundrain1";
}

abbrev one_claimed : Queue
one_claimed = (claim_task env unlocked "ann" 10 both_queued).1

one_claimed-IsSound : IsSound env one_claimed
one_claimed-IsSound = claim_task-IsSound env unlocked "ann" 10 both_queued both_queued-IsSound

claims_upgrade : (claim_task env unlocked "ann" 10 both_queued).0 ≡ some first_task
unfolding claim_task enqueue_step first_by has_key is_due
claims_upgrade = refl

claims_drain : (claim_task env unlocked "bob" 11 one_claimed).0 ≡ some second_task
unfolding claim_task enqueue_step first_by has_key is_due update_where
claims_drain = refl

claim_task-some_example : Claimed env unlocked "ann" 10 both_queued one_claimed first_task
claim_task-some_example =
    claim_task-some env unlocked "ann" 10 both_queued first_task both_queued-IsSound.ids
      claims_upgrade

nothing_due : (claim_task env unlocked "ann" 2 both_queued).0 ≡ none
unfolding claim_task enqueue_step first_by has_key is_due
nothing_due = refl

ann_holds : holds 2 "ann" one_claimed ≡ true
unfolding holds claim_task enqueue_step find_task first_by has_key is_due update_where is_held
ann_holds = refl

-- `ann` claims, her lease runs out, and the reaper gives the task back.
abbrev given_back : Queue
given_back = record {
  rows = update_where (λ t. t.id == first_task.id) (requeued env 50) one_claimed.rows;
  next_id = 3;
}

reaps_upgrade : requeue env 50 first_task one_claimed ≡ some given_back
unfolding requeue claim_task enqueue_step key_taken first_by has_key is_due update_where
reaps_upgrade = refl

ann_there : find_task 2 one_claimed.rows ≡ some first_task
unfolding find_task claim_task enqueue_step first_by has_key is_due update_where
ann_there = refl

abbrev claim_and_reap : History env both_queued given_back
claim_and_reap =
    next (next here (claims unlocked "ann" 10 refl))
      (requeues 50 first_task ann_there reaps_upgrade)

History-IsSound_example : IsSound env given_back
History-IsSound_example = History-IsSound env both_queued both_queued-IsSound claim_and_reap

-- Then `bob` claims another task; `ann` cannot finish hers.
abbrev bob_claimed : Queue
bob_claimed = (claim_task env unlocked "bob" 60 given_back).1

abbrev bob_claims : History env given_back bob_claimed
bob_claims = next here (claims unlocked "bob" 60 refl)

ann_lost : holds 2 "ann" given_back ≡ false
unfolding holds claim_task enqueue_step requeued find_task update_where first_by has_key is_due
    is_held
ann_lost = refl

lost_lease_stays_lost_example : (finish_task_if_owned 2 "ann" bob_claimed).0 ≡ false
lost_lease_stays_lost_example =
    lost_lease_stays_lost env 2 "ann" given_back bob_claims History-IsSound_example (tt, refl)
      ann_lost

-- The heartbeat of `ann` finds out at its next renewal.
abbrev after_beat : Queue
after_beat = (beat env 2 "ann" (Tick.renews (λ q. q) 50 ∷ []) given_back).1

beat_finds_out : (beat env 2 "ann" (Tick.renews (λ q. q) 50 ∷ []) given_back).0 ≡ true
unfolding beat renew_lease claim_task enqueue_step requeued count_where update_where first_by
    has_key is_due is_held
beat_finds_out = refl

lost_heartbeat_is_final_example :
    (finish_task_if_owned 2 "ann" (claim_task env unlocked "bob" 60 after_beat).1).0 ≡ false
lost_heartbeat_is_final_example =
    lost_heartbeat_is_final env 2 "ann" (Tick.renews (λ q. q) 50 ∷ []) given_back
      (next here (claims unlocked "bob" 60 refl)) History-IsSound_example ((λ q s. s), tt)
      (tt, refl) beat_finds_out

texts_differ : (a b : String) → str_eq a b ≡ false → a ≢ b
texts_differ a b h e = cc (h, (eq_iff a b).1 e)

keys_apart : NoCollision env "run" "drain" TaskKind.execute 2 both_queued.rows
unfolding enqueue_step has_key
keys_apart = record {
  apart = (
    λ e. absurd (texts_differ "rundrain1" "rundrain2" refl e),
    (λ e. absurd (texts_differ "runupgrade1" "rundrain2" refl e), tt),
  );
}

next_is_two : next_attempt "run" "drain" TaskKind.execute both_queued ≡ 2
unfolding next_attempt enqueue_step highest_attempt has_key
next_is_two = refl
