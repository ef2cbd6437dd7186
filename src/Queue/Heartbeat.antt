-- ===== src/Queue/Heartbeat.antt =====
-- engine/heartbeat.py: the thread that renews a worker's lease while its step runs.
use nutanix_hack.Prelude.{
  ℕ, ◌≡◌, refl, sym, subst, ◌∙◌, Bool, true, false, String, List, [], ◌∷◌, All, Bool-cases, inl,
  inr,
}
use nutanix_hack.Queue.{Env, Queue, renew_lease, finish_task_if_owned}
use nutanix_hack.Queue.Invariant.{IsSound, renew_lease-IsSound}
use nutanix_hack.Queue.Fencing.{holds, renew_lease_fenced}
use nutanix_hack.Queue.Steps.{History, NoClaimBy, lost_lease_stays_lost}

-- A wait of the thread that ends without the stop signal: what others do to the table meanwhile, and
-- the moment of the renewal, or an exception that ends the thread.
pub data Tick : Type 0 where
  renews : (others : Queue → Queue) (now : ℕ) → Tick
  fails : Tick

abbrev continue_if : Bool → (Queue → Bool × Queue) → Queue → Bool × Queue
continue_if true rest q = rest q
continue_if false rest q = (true, q)

-- `_loop`: whether it sets `lost`, and the table. The ticks end where the stop signal comes.
unfoldable pub beat : Env → ℕ → String → List Tick → Queue → Bool × Queue
beat env id worker [] q = (false, q)
beat env id worker (fails ∷ ticks) q = (false, q)
beat env id worker (renews others now ∷ ticks) q =
    let (kept, renewed) = renew_lease env id worker now (others q) in
    continue_if kept (beat env id worker ticks) renewed

-- What others do keeps the invariant of the table.
abbrev pub LeavesSound : Env → Tick → Type 0
LeavesSound env fails = Unit {0}
LeavesSound env (renews others now) = (q : Queue) → IsSound env q → IsSound env (others q)

-- The table has the invariant, and the worker does not hold the lease.
pub record IsLost (env : Env) (id : ℕ) (worker : String) (q : Queue) : Type 0 where
  pub sound : IsSound env q
  pub free : holds id worker q ≡ false

not_renewed :
    (env : Env) (id : ℕ) (worker : String) (now : ℕ) (q : Queue)
    → IsSound env q
    → (renew_lease env id worker now q).0 ≡ false
    → IsLost env id worker (renew_lease env id worker now q).1
not_renewed env id worker now q s h =
    let (answers, leaves) = renew_lease_fenced env id worker now q s.ids in
    let free : holds id worker q ≡ false = sym answers ∙ h in
    let same : (renew_lease env id worker now q).1 ≡ q = leaves ∙ rw free refl in
    subst (IsLost env id worker) (sym same) (record { sound = s; free = free })

beat-IsLost :
    (env : Env) (id : ℕ) (worker : String) (ticks : List Tick) (q : Queue)
    → IsSound env q
    → All (LeavesSound env) ticks
    → (beat env id worker ticks q).0 ≡ true
    → IsLost env id worker (beat env id worker ticks q).1
unfolding beat
beat-IsLost env id worker [] q s k h = cc h
beat-IsLost env id worker (fails ∷ ticks) q s k h = cc h
beat-IsLost env id worker (renews others now ∷ ticks) q s k h =
    let before = others q in
    let kept = k.0 q s in
    elim (Bool-cases ((renew_lease env id worker now before).0)) [
      | inl e ↦ rw e (
          beat-IsLost env id worker ticks (renew_lease env id worker now before).1
            (renew_lease-IsSound env id worker now before kept) k.1 (rw e at h))
      | inr e ↦ rw e (not_renewed env id worker now before kept e)
    ]

-- If a heartbeat finds its lease lost, on a table with the invariant that what the others do
-- meanwhile keeps, then after any interleaving of transactions without a claim by that worker,
-- finish_task_if_owned answers false to it and so does not close the task.
pub lost_heartbeat_is_final :
    (env : Env) (id : ℕ) (worker : String) (ticks : List Tick) (q : Queue) {q' : Queue}
    (h : History env (beat env id worker ticks q).1 q')
    → IsSound env q
    → All (LeavesSound env) ticks
    → NoClaimBy env worker (beat env id worker ticks q).1 h
    → (beat env id worker ticks q).0 ≡ true
    → (finish_task_if_owned id worker q').0 ≡ false
lost_heartbeat_is_final env id worker ticks q h s k n lost =
    let gone = beat-IsLost env id worker ticks q s k lost in
    lost_lease_stays_lost env id worker (beat env id worker ticks q).1 h gone.sound n gone.free
