-- ===== src/Service/Live.antt =====
-- About the code of engine/service.py on a run whose log has no gaps, and the keys of the task table.
use nutanix_hack.Prelude.{
  false, ℕ, suc, ◌≡◌, refl, subst, true, ◌||◌, String, some, List, [], ◌∷◌, ◌++◌, arith, All,
  eq_iff, eq_refl, str_eq, Bool-cases, inl, inr,
}
use nutanix_hack.Prelude.Dict
use nutanix_hack.Spec.{Spec}
use nutanix_hack.Queue.{Task, TaskKind, Env, Queue, has_key, idempotency_key}
use nutanix_hack.Queue
use nutanix_hack.Queue.Enqueued.{has_key-append}
use nutanix_hack.Replay.State.{EventType, Payload, Event, Context}
use nutanix_hack.Replay.Fold.{replay}
use nutanix_hack.Service.Exec.{Result, ◌>>=◌}
use nutanix_hack.Prelude.Texts.{text_length}
use nutanix_hack.Service.Store.{too_long, Run, Store, get_run, put_run}
use nutanix_hack.Service.Log.{append_event, load_context}
use nutanix_hack.Service.Gapless.{
  IsGapless, IsLogged, append_event_lem, append_event-IsLogged, Keeps-put_run,
}
use nutanix_hack.Service.Runs.{close_run_if_finished, sync_run_projection}
use nutanix_hack.Service.Returns.{Returns, Returns-weaken, Completes, completes_rules}

-- The run is there, the logs have no gaps, and the table has a row with each of the keys.
pub record IsLive (rid : String) (keys : List String) (s : Store) : Type 0 where
  pub logged : IsLogged s
  pub row : Run
  pub there : Dict.get s.runs rid ≡ some row
  pub taken : All (λ key. has_key s.queue.rows key ≡ true) keys

-- Whether it is new or not, afterwards there is a row with the key, and no key is lost.
has_key-enqueue_step :
    (env : Env) (rid sid : String) (kind : TaskKind) (attempt run_after : ℕ) (q : Queue)
    (key : String)
    → has_key (Queue.enqueue_step env rid sid kind attempt run_after q).1.rows key
      ≡ (has_key q.rows key || str_eq (idempotency_key env rid sid kind attempt) key)
unfolding nutanix_hack.Queue.enqueue_step
has_key-enqueue_step env rid sid kind attempt run_after q key =
    let own = idempotency_key env rid sid kind attempt in
    elim (Bool-cases (has_key q.rows own)) [
      | inl old ↦ simp old (ground (arith, eq_iff own key, old))
      | inr new ↦ simp (new, has_key-append) (ground arith)
    ]

pub taken_still :
    (env : Env) (rid sid : String) (kind : TaskKind) (run_after : ℕ) (q : Queue)
    (keys : List String)
    → All (λ key. has_key q.rows key ≡ true) keys
    → All
        (λ key. has_key (Queue.enqueue_step env rid sid kind 1 run_after q).1.rows key ≡ true)
        keys
taken_still env rid sid kind run_after q [] h = tt
taken_still env rid sid kind run_after q (key ∷ keys) h = (
  rw (has_key-enqueue_step env rid sid kind 1 run_after q key, h.0) refl,
  taken_still env rid sid kind run_after q keys h.1,
)

pub enqueued-taken :
    (env : Env) (rid sid : String) (kind : TaskKind) (run_after : ℕ) (q : Queue)
    → has_key
        (Queue.enqueue_step env rid sid kind 1 run_after q).1.rows
        (idempotency_key env rid sid kind 1)
      ≡ true
enqueued-taken env rid sid kind run_after q =
    let key = idempotency_key env rid sid kind 1 in
    let same = eq_refl key in
    let e = has_key-enqueue_step env rid sid kind 1 run_after q key in ground (arith, same, e)

put_run-Completes :
    (rid : String) (keys : List String) (run : Run)
    → IsGapless run
    → Completes (IsLive rid keys) (put_run rid run)
unfolding put_run
put_run-Completes rid keys run g = record {
  at = λ s h. record {
    answer = tt;
    left = record s { runs = Dict.set s.runs rid run };
    returned = refl;
    holds = record {
      logged = (Keeps-put_run rid run g).at s h.logged;
      row = run;
      there = rw (Dict.get-set s.runs rid rid run, eq_refl rid) refl;
      taken = h.taken;
    };
  };
}

-- The event that append_event writes, and the row that it leaves.
abbrev pub next_event : Run → EventType → String → Payload → Event
next_event run type sid p = record {
  seq = suc run.last_seq;
  type = type;
  step_id = sid;
  payload = p;
}

abbrev pub with_event : Run → Event → Run
with_event run e = record run { events = run.events ++ e ∷ []; last_seq = e.seq }

pub append_event-Returns :
    (rid : String) (keys : List String) (type : EventType) (sid : String) (p : Payload) (s : Store)
    → too_long sid ≡ false
    → (h : IsLive rid keys s)
    → Returns
        (λ e s'.
          (live : IsLive rid keys s') × (live.row ≡ with_event h.row (next_event h.row type sid p)))
        (append_event rid type sid p s)
append_event-Returns rid keys type sid p s fits h =
    let e = next_event h.row type sid p in
    let done = append_event_lem rid type sid p s h.row fits h.logged h.there in
    record {
      answer = e;
      left = record s { runs = Dict.set s.runs rid (with_event h.row e) };
      returned = done;
      holds = (
        record {
          logged =
              subst (λ (r : Result Event × Store). IsLogged r.1) done
                ((append_event-IsLogged rid type sid p).at s h.logged);
          row = with_event h.row e;
          there = rw (Dict.get-set s.runs rid rid (with_event h.row e), eq_refl rid) refl;
          taken = h.taken;
        },
        refl,
      );
    }

pub append_event-Completes :
    (rid : String) (keys : List String) (type : EventType) (sid : String) (p : Payload)
    → too_long sid ≡ false
    → Completes (IsLive rid keys) (append_event rid type sid p)
append_event-Completes rid keys type sid p fits = record {
  at = λ s h.
      Returns-weaken _ (append_event-Returns rid keys type sid p s fits h) (λ e s' live. live.0);
}

pub load_context-Returns :
    (rid : String) (s : Store) (run : Run)
    → IsLogged s
    → Dict.get s.runs rid ≡ some run
    → Returns (λ c s'. (c ≡ replay run.events) × IsLive rid [] s') (load_context rid s)
unfolding load_context get_run ◌>>=◌
load_context-Returns rid s run h there = record {
  answer = replay run.events;
  left = s;
  returned = rw there refl;
  holds = (refl, record { logged = h; row = run; there = there; taken = tt });
}

pub load_context-Completes :
    (rid : String) (keys : List String) → Completes (IsLive rid keys) (load_context rid)
unfolding load_context get_run ◌>>=◌
load_context-Completes rid keys = record {
  at = λ s h. record {
    answer = replay h.row.events;
    left = s;
    returned = rw h.there refl;
    holds = h;
  };
}

pub sync_run_projection-Completes :
    (rid : String) (keys : List String) (spec : Spec) (c : Context)
    → Completes (IsLive rid keys) (sync_run_projection rid spec c)
unfolding sync_run_projection get_run ◌>>=◌
sync_run_projection-Completes rid keys spec c = record {
  at = λ s h.
      let g = h.logged.at rid h.row h.there in
      rw h.there (
        (put_run-Completes rid keys _ (record { numbered = g.numbered; counted = g.counted })).at s
          h);
}

pub blank_fits : too_long "" ≡ false
unfolding too_long text_length
blank_fits = refl

run_event-Completes :
    (rid : String) (keys : List String) (type : EventType) (p : Payload)
    → Completes (IsLive rid keys) (append_event rid type "" p)
run_event-Completes rid keys type p = append_event-Completes rid keys type "" p blank_fits

pub close_run_if_finished-Completes :
    (rid : String) (keys : List String) (spec : Spec) (c : Context)
    → Completes (IsLive rid keys) (close_run_if_finished rid spec c)
unfolding close_run_if_finished
close_run_if_finished-Completes rid keys spec c =
    search (completes_rules, run_event-Completes) depth 12
