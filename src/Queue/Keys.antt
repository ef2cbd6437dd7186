-- ===== src/Queue/Keys.antt =====
-- About the unique key of engine/models.py (Task) and `next_attempt` of engine/service.py.
use nutanix_hack.Prelude.{
  ℕ, ◌+◌, ◌<◌, ◌≡◌, ◌≢◌, refl, false, String, none, List, [], ◌∷◌, arith, All, eq_iff,
}
use nutanix_hack.Queue.{
  Task, TaskKind, Env, Queue, has_key, idempotency_key, enqueue_step, next_attempt, is_for,
  highest_attempt,
}
use nutanix_hack.Queue.Invariant.{IsSound, RowOk}

-- The digest of these parts is that of no row with other parts: sha256 does not collide here.
pub record NoCollision (env : Env) (run sid : String) (kind : TaskKind) (attempt : ℕ)
    (rows : List Task) : Type 0 where
  pub apart :
      All
        (λ t.
          env.digest t.run t.step_id t.kind t.attempt ≡ env.digest run sid kind attempt
          → (t.run ≡ run) × (t.step_id ≡ sid) × (t.kind ≡ kind) × (t.attempt ≡ attempt))
        rows

has_key_above :
    (env : Env) (n : ℕ) (run sid : String) (kind : TaskKind) (rows : List Task) (m : ℕ)
    → NoCollision env run sid kind m rows
    → All (RowOk env n) rows
    → highest_attempt (is_for run sid kind) rows < m
    → has_key rows (idempotency_key env run sid kind m) ≡ false
unfolding has_key highest_attempt is_for idempotency_key
has_key_above env n run sid kind [] m inj ok h = refl
has_key_above env n run sid kind (t ∷ ts) m inj ok h = ground (
  arith,
  ok.0.keyed,
  inj.apart.0,
  has_key_above env n run sid kind ts m (record { apart = inj.apart.1 }) ok.1,
  eq_iff t.idempotency_key (env.digest run sid kind m),
  eq_iff t.run run,
  eq_iff t.step_id sid,
)

-- On a table with the invariant, if no row with other parts has the digest of the step's next
-- attempt, enqueue_step of next_attempt does not answer with none.
pub enqueue_step-next_attempt :
    (env : Env) (run sid : String) (kind : TaskKind) (run_after : ℕ) (q : Queue)
    → NoCollision env run sid kind (next_attempt run sid kind q) q.rows
    → IsSound env q
    → (enqueue_step env run sid kind (next_attempt run sid kind q) run_after q).0 ≢ none
unfolding enqueue_step next_attempt
enqueue_step-next_attempt env run sid kind run_after q inj s h =
    let free : has_key q.rows
          (idempotency_key env run sid kind (highest_attempt (is_for run sid kind) q.rows + 1))
        ≡ false =
      has_key_above env q.next_id run sid kind q.rows
        (highest_attempt (is_for run sid kind) q.rows + 1) inj s.rows_ok (omega arith) in
    cc (simp free at h)
