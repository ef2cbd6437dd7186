-- ===== src/Service/Projection.antt =====
-- About `sync_run_projection` of engine/service.py: the columns of a run that cache its log.
use nutanix_hack.Prelude.{ℕ, ◌≡◌, refl, ap, String, Option, none, some, eq_refl, subst}
use nutanix_hack.Prelude.Dict
use nutanix_hack.Spec.{Spec}
use nutanix_hack.Queue.{Env}
use nutanix_hack.Replay.State.{Context}
use nutanix_hack.Replay.Queries.{next_run_state}
use nutanix_hack.Service.Exec.{Result, ok, Ensures, Ensures-bind, pure, ◌>>=◌, ◌>>◌}
use nutanix_hack.Service.Store.{Run, Store, get_run, put_run}
use nutanix_hack.Service.Runs.{sync_run_projection, advance_run}

-- The row caches the context: its status is the one derived from it.
pub record Caches (rid : String) (spec : Spec) (c : Context) (s : Store) : Type 0 where
  pub row : Run
  pub there : Dict.get s.runs rid ≡ some row
  pub context : row.context ≡ c
  pub status : row.status ≡ next_run_state spec c
  pub error : row.error ≡ c.error

written : String → Spec → Context → Run → Store → Store
written rid spec c run s = record s {
  runs =
      Dict.set s.runs rid
        (record run { status = next_run_state spec c; context = c; error = c.error });
}

written-Caches :
    (rid : String) (spec : Spec) (c : Context) (run : Run) (s : Store)
    → Caches rid spec c (written rid spec c run s)
unfolding written
written-Caches rid spec c run s = record {
  row = record run { status = next_run_state spec c; context = c; error = c.error };
  there = simp (Dict.get-set, eq_refl);
  context = refl;
  status = refl;
  error = refl;
}

synced :
    (rid : String) (spec : Spec) (c d : Context) (s s' : Store) (o : Option Run)
    → Dict.get s.runs rid ≡ o
    → (sync_run_projection rid spec c >> pure c) s ≡ (ok d, s')
    → Caches rid spec d s'
unfolding sync_run_projection get_run put_run written ◌>>=◌
synced rid spec c d s s' none e h = cc (ap (λ (r : Result Context × Store). r.0) (simp e at h))
synced rid spec c d s s' (some run) e h =
    let returned : (ok c, written rid spec c run s) ≡ (ok d, s') = simp e at h in
    let same : c ≡ d = cc (ap (λ (r : Result Context × Store). r.0) returned) in
    subst (Caches rid spec d) (ap (λ (r : Result Context × Store). r.1) returned) (
      subst (λ x. Caches rid spec x (written rid spec c run s)) same
        (written-Caches rid spec c run s))

sync_run_projection-Caches :
    (rid : String) (spec : Spec) (c : Context)
    → Ensures (Caches rid spec) (sync_run_projection rid spec c >> pure c)
sync_run_projection-Caches rid spec c = record {
  at = λ s s' d h. synced rid spec c d s s' _ refl h;
}

advance_run-Ensures :
    (env : Env) (now : ℕ) (rid : String) (spec : Spec)
    → Ensures (Caches rid spec) (advance_run env now rid spec)
unfolding advance_run
advance_run-Ensures env now rid spec = Ensures-bind _ _ λ context. Ensures-bind _ _ λ queued.
    Ensures-bind _ _ λ closed. Ensures-bind _ _ λ latest. sync_run_projection-Caches rid spec latest

-- If advance_run returns a context, then afterwards the row of the run is there and holds that
-- context, the error of the context, and the status that next_run_state derives from it.
pub advance_run-Caches :
    (env : Env) (now : ℕ) (rid : String) (spec : Spec) (s s' : Store) (c : Context)
    → advance_run env now rid spec s ≡ (ok c, s')
    → Caches rid spec c s'
advance_run-Caches env now rid spec s s' c h = (advance_run-Ensures env now rid spec).at s s' c h
