-- ===== src/Service/Scheduled.antt =====
-- About `advance_run` of engine/service.py: the tasks that it queues.
use nutanix_hack.Prelude.{
  ℕ, ◌≡◌, refl, subst, Bool, true, false, String, Option, none, some, List, [], ◌∷◌, All, map,
  Bool-cases, inl, inr, str_eq, eq_iff, ◌||◌, if◌then◌else◌,
}
use nutanix_hack.Prelude.Dict
use nutanix_hack.Spec.{Step, Spec, find_step}
use nutanix_hack.Queue.{Task, TaskKind, Env, Queue, has_key, idempotency_key}
use nutanix_hack.Queue
use nutanix_hack.Replay.State.{Context, is_terminal}
use nutanix_hack.Replay.Fold.{replay}
use nutanix_hack.Replay.Queries.{
  ids_where, is_ready, keep_where, must_unwind, has_compensation, ready_steps, compensation_order,
}
use nutanix_hack.Service.Exec.{pure, ◌>>=◌, ◌>>◌}
use nutanix_hack.Service.Store.{Run, Store, on_queue, too_long}
use nutanix_hack.Service.Log.{load_context}
use nutanix_hack.Service.Gapless.{IsLogged}
use nutanix_hack.Service.Runs.{
  enqueue_step, note_scheduled, enqueue_all, enqueue_ready_steps, enqueue_first,
  enqueue_next_compensation, queue_next, close_run_if_finished, sync_run_projection, advance_run,
}
use nutanix_hack.Service.Returns.{
  Returns, Completes, Returns-bind, Returns-pure, Returns-weaken, completes_rules,
}
use nutanix_hack.Service.Projection.{Caches, advance_run-Caches}
use nutanix_hack.Service.Live.{
  IsLive, taken_still, enqueued-taken, append_event-Completes, load_context-Returns,
  load_context-Completes, sync_run_projection-Completes, close_run_if_finished-Completes,
}

module _ (env : Env) (rid : String) (kind : TaskKind) (run_after : ℕ) where
  abbrev key_for : String → String
  key_for sid = idempotency_key env rid sid kind 1

  -- The run is live, and there is a row for each of the steps.
  pub record AreQueued (sids keys : List String) (s : Store) : Type 0 where
    pub live : IsLive rid keys s
    pub queued : All (λ sid. has_key s.queue.rows (key_for sid) ≡ true) sids

  enqueue_step-Returns :
      (sid : String) (keys : List String) (s : Store)
      → too_long sid ≡ false
      → IsLive rid keys s
      → Returns
          (λ task. IsLive rid (key_for sid ∷ keys))
          (enqueue_step env rid sid kind 1 run_after s)
  unfolding enqueue_step on_queue
  enqueue_step-Returns sid keys s fits h =
      let (task, q) = Queue.enqueue_step env rid sid kind 1 run_after s.queue in
      record {
        answer = task;
        left = record s { queue = q };
        returned = rw fits refl;
        holds = record {
          logged = record { at = h.logged.at };
          row = h.row;
          there = h.there;
          taken = (
            enqueued-taken env rid sid kind run_after s.queue,
            taken_still env rid sid kind run_after s.queue keys h.taken,
          );
        };
      }

  note_scheduled-Returns :
      (sid : String) (sids keys : List String) (o : Option Task) (s : Store)
      → too_long sid ≡ false
      → IsLive rid keys s
      → ((s' : Store)
          → IsLive rid keys s'
          → Returns (λ tasks. AreQueued sids keys) (enqueue_all env run_after rid sids s'))
      → Returns
          (λ tasks. AreQueued sids keys)
          (note_scheduled rid sid (enqueue_all env run_after rid sids) o s)
  unfolding note_scheduled
  note_scheduled-Returns sid sids keys none s fits h k = k s h
  note_scheduled-Returns sid sids keys (some task) s fits h k =
      Returns-bind _ _ s ((append_event-Completes rid keys _ sid _ fits).at s h)
        (λ e s' live. Returns-bind _ _ s' (k s' live) (λ tasks s'' done. Returns-pure _ s'' done))

fewer :
    (rid key : String) (keys : List String) (s : Store)
    → IsLive rid (key ∷ keys) s
    → IsLive rid keys s
fewer rid key keys s h = record {
  logged = h.logged;
  row = h.row;
  there = h.there;
  taken = h.taken.1;
}

pub enqueue_all-Returns :
    (env : Env) (now : ℕ) (rid : String) (sids keys : List String) (s : Store)
    → All (λ sid. too_long sid ≡ false) sids
    → IsLive rid keys s
    → Returns
        (λ tasks. AreQueued env rid TaskKind.execute now sids keys)
        (enqueue_all env now rid sids s)
unfolding enqueue_all
enqueue_all-Returns env now rid [] keys s fits h =
    Returns-pure _ s (record { live = h; queued = tt })
enqueue_all-Returns env now rid (sid ∷ sids) keys s fits h =
    Returns-bind _ _ s (enqueue_step-Returns env rid TaskKind.execute now sid keys s fits.0 h)
      (λ o s' live.
        Returns-weaken _
          (note_scheduled-Returns env rid TaskKind.execute now sid sids
            (idempotency_key env rid sid TaskKind.execute 1 ∷ keys) o s' fits.0 live
            (λ s'' live'. enqueue_all-Returns env now rid sids _ s'' fits.1 live'))
          (λ tasks s'' done. record {
            live = fewer rid _ keys s'' done.live;
            queued = (done.live.taken.0, done.queued);
          }))

-- The ids of the steps fit the column.
abbrev pub AreShort : Spec → Type 0
AreShort spec = All (λ step. too_long step.id ≡ false) spec.steps

ids_where-short :
    (p : Step → Bool) (steps : List Step)
    → All (λ step. too_long step.id ≡ false) steps
    → All (λ sid. too_long sid ≡ false) (ids_where p steps)
unfolding ids_where
ids_where-short p [] h = tt
ids_where-short p (s ∷ steps) h = elim (Bool-cases (p s)) [
  | inl e ↦ rw e (h.0, ids_where-short p steps h.1)
  | inr e ↦ rw e (ids_where-short p steps h.1)
]

pub ready_steps-short :
    (spec : Spec) (c : Context)
    → AreShort spec
    → All (λ sid. too_long sid ≡ false) (ready_steps spec c)
unfolding ready_steps
ready_steps-short spec c h = elim (Bool-cases (c.compensating || is_terminal c.status)) [
  | inl e ↦ rw (e, ready_steps) tt
  | inr e ↦ rw (e, ready_steps) (ids_where-short (is_ready c) spec.steps h)
]

-- A step that is found has an id that fits.
found-short :
    (steps : List Step) (sid : String)
    → All (λ step. too_long step.id ≡ false) steps
    → too_long sid ≡ true
    → find_step steps sid ≡ none
unfolding find_step
found-short [] sid h long = refl
found-short (s ∷ steps) sid h long = elim (Bool-cases (str_eq s.id sid)) [
  | inl e ↦ let same : s.id ≡ sid = (eq_iff s.id sid).0 e in absurd (cc (same, h.0, long))
  | inr e ↦ rw (found-short steps sid h.1 long, e) refl
]

must_unwind-short :
    (spec : Spec) (c : Context) (sid : String)
    → AreShort spec
    → must_unwind spec c sid ≡ true
    → too_long sid ≡ false
unfolding must_unwind has_compensation
must_unwind-short spec c sid h e = elim (Bool-cases (too_long sid)) [
  | inr fits ↦ fits
  | inl long ↦
      absurd
        (cc (rw (found-short spec.steps sid h long, must_unwind, has_compensation, find_step) at e))
]

kept-short :
    (spec : Spec) (c : Context) (sids : List String)
    → AreShort spec
    → All (λ sid. too_long sid ≡ false) (keep_where (must_unwind spec c) sids)
unfolding keep_where
kept-short spec c [] h = tt
kept-short spec c (sid ∷ sids) h = elim (Bool-cases (must_unwind spec c sid)) [
  | inr e ↦ rw e (kept-short spec c sids h)
  | inl e ↦ rw e (must_unwind-short spec c sid h e, kept-short spec c sids h)
]

-- The keys of the tasks that a context asks for: of the step to unwind next, or of the ready steps.
abbrev pub first_of : List String → List String
first_of [] = []
first_of (sid ∷ rest) = sid ∷ []

abbrev pub wanted : Env → String → Spec → Context → Bool → List String
wanted env rid spec c true =
    map (λ sid. idempotency_key env rid sid TaskKind.compensate 1)
      (first_of (compensation_order spec c))
wanted env rid spec c false =
    map (λ sid. idempotency_key env rid sid TaskKind.execute 1) (ready_steps spec c)

keys_taken :
    (rows : List Task) (key : String → String) (sids : List String)
    → All (λ sid. has_key rows (key sid) ≡ true) sids
    → All (λ k. has_key rows k ≡ true) (map key sids)
keys_taken rows key [] h = tt
keys_taken rows key (sid ∷ sids) h = (h.0, keys_taken rows key sids h.1)

pub queued-IsLive :
    (env : Env) (rid : String) (kind : TaskKind) (now : ℕ) (sids : List String) (s : Store)
    → AreQueued env rid kind now sids [] s
    → IsLive rid (map (λ sid. idempotency_key env rid sid kind 1) sids) s
queued-IsLive env rid kind now sids s q = record {
  logged = q.live.logged;
  row = q.live.row;
  there = q.live.there;
  taken = keys_taken s.queue.rows _ sids q.queued;
}

enqueue_first-Returns :
    (env : Env) (now : ℕ) (rid : String) (sids : List String) (s : Store)
    → All (λ sid. too_long sid ≡ false) sids
    → IsLive rid [] s
    → Returns
        (λ task.
          IsLive rid
            (map (λ sid. idempotency_key env rid sid TaskKind.compensate 1) (first_of sids)))
        (enqueue_first env now rid sids s)
unfolding enqueue_first
enqueue_first-Returns env now rid [] s fits h = Returns-pure _ s h
enqueue_first-Returns env now rid (sid ∷ sids) s fits h =
    enqueue_step-Returns env rid TaskKind.compensate now sid [] s fits.0 h

-- The two branches of `queue_next`, whichever is taken.
queued_by-Returns :
    (env : Env) (now : ℕ) (rid : String) (spec : Spec) (c : Context) (compensating : Bool)
    (s : Store)
    → AreShort spec
    → IsLive rid [] s
    → Returns
        (λ _. IsLive rid (wanted env rid spec c compensating))
        ((if compensating
            then (enqueue_next_compensation env now rid spec c >> pure tt)
            else (enqueue_ready_steps env now rid spec c >> pure tt))
          s)
unfolding enqueue_next_compensation enqueue_ready_steps
queued_by-Returns env now rid spec c true s short h =
    Returns-bind _ _ s
      (enqueue_first-Returns env now rid (compensation_order spec c) s
        (unfold compensation_order in kept-short spec c _ short) h)
      (λ task s' live. Returns-pure _ s' live)
queued_by-Returns env now rid spec c false s short h =
    Returns-bind _ _ s
      (enqueue_all-Returns env now rid (ready_steps spec c) [] s (ready_steps-short spec c short) h)
      (λ tasks s' done.
        Returns-pure _ s' (queued-IsLive env rid TaskKind.execute now (ready_steps spec c) s' done))

queue_next-Returns :
    (env : Env) (now : ℕ) (rid : String) (spec : Spec) (c : Context) (s : Store)
    → AreShort spec
    → IsLive rid [] s
    → Returns
        (λ _. IsLive rid (wanted env rid spec c c.compensating))
        (queue_next env now rid spec c s)
unfolding queue_next
queue_next-Returns env now rid spec c s short h =
    queued_by-Returns env now rid spec c c.compensating s short h

-- What `advance_run` does once it has queued its tasks.
settled-Completes :
    (rid : String) (keys : List String) (spec : Spec) (c : Context)
    → Completes (IsLive rid keys) (
        close_run_if_finished rid spec c >>= λ closed.
        (if closed then load_context rid else pure c) >>= λ latest.
        sync_run_projection rid spec latest >> pure latest)
settled-Completes rid keys spec c =
    search
      (
        completes_rules, close_run_if_finished-Completes, load_context-Completes,
        sync_run_projection-Completes,
      )
      depth 12

-- The row of the run caches the context, and the table has a row for each task asked for.
pub record IsAdvanced (env : Env) (rid : String) (spec : Spec) (c latest : Context) (s : Store)
    : Type 0 where
  pub cached : Caches rid spec latest s
  pub queued : All (λ key. has_key s.queue.rows key ≡ true) (wanted env rid spec c c.compensating)

advance_run-Returns :
    (env : Env) (now : ℕ) (rid : String) (spec : Spec) (s : Store) (run : Run)
    → AreShort spec
    → IsLogged s
    → Dict.get s.runs rid ≡ some run
    → let c = replay run.events in
      Returns
        (λ latest s'.
          All (λ key. has_key s'.queue.rows key ≡ true) (wanted env rid spec c c.compensating))
        (advance_run env now rid spec s)
unfolding advance_run
advance_run-Returns env now rid spec s run short h there =
    Returns-bind _ _ s (load_context-Returns rid s run h there) (λ c s1 found.
      Returns-bind _ _ s1 (queue_next-Returns env now rid spec c s1 short found.1) (λ _ s2 live.
        Returns-weaken _
          ((settled-Completes rid (wanted env rid spec c c.compensating) spec c).at s2 live)
          (λ latest left kept.
            subst
              (λ (x : Context).
                All (λ key. has_key left.queue.rows key ≡ true)
                  (wanted env rid spec x x.compensating))
              found.0 kept.taken)))

-- If the ids of the steps have at most 200 characters, the logs have no gaps and the run is there,
-- advance_run returns. Afterwards the row of the run holds the context that it returns, the error
-- of that context, and the status that next_run_state derives from it; and, for the context that
-- the log gave before the call, the task table has a row with the key of attempt 1 of each ready
-- step, or, if that context is compensating, of the first step of compensation_order.
pub advance_run-IsAdvanced :
    (env : Env) (now : ℕ) (rid : String) (spec : Spec) (s : Store) (run : Run)
    → AreShort spec
    → IsLogged s
    → Dict.get s.runs rid ≡ some run
    → Returns (IsAdvanced env rid spec (replay run.events)) (advance_run env now rid spec s)
advance_run-IsAdvanced env now rid spec s run short h there =
    let r = advance_run-Returns env now rid spec s run short h there in
    record {
      answer = r.answer;
      left = r.left;
      returned = r.returned;
      holds = record {
        cached = advance_run-Caches env now rid spec s r.left r.answer r.returned;
        queued = r.holds;
      };
    }
