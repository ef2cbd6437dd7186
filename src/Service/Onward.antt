-- ===== src/Service/Onward.antt =====
-- A run of a definition that engine/spec.py has passed, and `advance_run` of engine/service.py.
mod Examples
use mathlib.Core.List.{Memᴰ}
use mathlib.Core.List.Memᴰ
use nutanix_hack.Prelude.{
  ℕ, ◌≡◌, sym, ap, subst, Bool, true, false, String, ◌⊎◌, none, some, List, [], ◌∷◌, All, map, inl,
  inr,
}
use nutanix_hack.Prelude.Dict
use nutanix_hack.Json.{Value}
use nutanix_hack.Spec.{Spec}
use nutanix_hack.Spec.Cycle.{validate_spec}
use nutanix_hack.Spec.Read.{read_spec}
use nutanix_hack.Queue.{Task, TaskKind, Env, has_key, idempotency_key}
use nutanix_hack.Replay.State.{Context, is_terminal}
use nutanix_hack.Replay.Fold.{replay}
use nutanix_hack.Replay.Queries.{ready_steps, is_complete}
use nutanix_hack.Replay.Progress.{IsUnderway, never_stuck}
use nutanix_hack.Service.Store.{Run, Store}
use nutanix_hack.Service.Gapless.{IsLogged}
use nutanix_hack.Service.Runs.{advance_run}
use nutanix_hack.Service.Returns.{Returns, Returns-weaken}
use nutanix_hack.Service.Scheduled.{AreShort, wanted, IsAdvanced, advance_run-IsAdvanced}

-- A ready step for which the table has a task.
abbrev pub IsStarted : Env → String → Spec → Context → Store → Type 0
IsStarted env rid spec c s =
    (sid : String) × Memᴰ sid (ready_steps spec c)
    × (has_key s.queue.rows (idempotency_key env rid sid TaskKind.execute 1) ≡ true)

queued_member :
    (rows : List Task) (key : String → String) (sids : List String) (sid : String)
    → All (λ k. has_key rows k ≡ true) (map key sids)
    → Memᴰ sid sids
    → has_key rows (key sid) ≡ true
queued_member rows key [] sid h m = absurd (Memᴰ.not-nil m)
queued_member rows key (x ∷ sids) sid h (Memᴰ.head e) =
    subst (λ y. has_key rows (key y) ≡ true) (sym e) h.0
queued_member rows key (x ∷ sids) sid h (Memᴰ.tail m) = queued_member rows key sids sid h.1 m

-- If validate_spec passes a value, the engine reads it as the definition spec, the ids of its steps
-- have at most 200 characters, the logs have no gaps, the run is there, and the context that its
-- log gives is neither compensating nor ended, then advance_run returns, and for that context all
-- steps have SUCCEEDED, or the task table that it leaves has a task for a ready step, or some step
-- is claimed and has not SUCCEEDED.
pub advance_run_never_stuck :
    (env : Env) (now : ℕ) (rid : String) (v : Value) (spec : Spec) (s : Store) (run : Run)
    → validate_spec v ≡ none
    → read_spec v ≡ some spec
    → AreShort spec
    → IsLogged s
    → Dict.get s.runs rid ≡ some run
    → (replay run.events).compensating ≡ false
    → is_terminal (replay run.events).status ≡ false
    → let c = replay run.events in
      Returns
        (λ latest s'.
          (is_complete spec c ≡ true) ⊎ (IsStarted env rid spec c s' ⊎ IsUnderway spec c))
        (advance_run env now rid spec s)
advance_run_never_stuck env now rid v spec s run valid reads short logged there forward unended =
    let c = replay run.events in
    Returns-weaken _ (advance_run-IsAdvanced env now rid spec s run short logged there)
      (λ latest left h.
        let queued =
          subst (λ b. All (λ k. has_key left.queue.rows k ≡ true) (wanted env rid spec c b)) forward
            h.queued in
        elim (never_stuck v spec c valid reads forward unended) [
          | inl complete ↦ inl complete
          | inr (inl (sid, m)) ↦
              inr (inl (sid, m, queued_member left.queue.rows _ (ready_steps spec c) sid queued m))
          | inr (inr underway) ↦ inr (inr underway)
        ])
