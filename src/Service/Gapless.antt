-- ===== src/Service/Gapless.antt =====
-- The invariant of the logs, and `append_event` of engine/service.py.
use nutanix_hack.Prelude.{
  ℕ, zero, suc, ◌+◌, ◌<◌, ◌≡◌, refl, false, String, Option, none, some, List, [], ◌∷◌, ◌++◌, arith,
  length, length-append,
}
use nutanix_hack.Prelude.Dict
use nutanix_hack.Replay.State.{EventType, Payload, Event}
use nutanix_hack.Service.Exec.{ok, Keeps, keeps_rules, ◌>>=◌}
use nutanix_hack.Service.Store.{Run, Store, Db, get_run, put_run, on_queue, too_long}
use nutanix_hack.Service.Log.{has_seq, try_append, or_again, append_attempts, append_event}
use nutanix_hack.Queue.{Queue}

-- The events that follow `n` others count on from `suc n`.
abbrev pub Numbered : ℕ → List Event → Type 0
Numbered n [] = Unit {0}
Numbered n (e ∷ es) = (e.seq ≡ suc n) × Numbered (suc n) es

pub record IsGapless (run : Run) : Type 0 where
  pub numbered : Numbered 0 run.events
  pub counted : run.last_seq ≡ length run.events

pub record IsLogged (s : Store) : Type 0 where
  pub at : (rid : String) (run : Run) → Dict.get s.runs rid ≡ some run → IsGapless run

Numbered-append :
    (n : ℕ) (es : List Event) (e : Event)
    → Numbered n es
    → e.seq ≡ suc (n + length es)
    → Numbered n (es ++ e ∷ [])
Numbered-append n [] e h s = (omega arith, tt)
Numbered-append n (f ∷ es) e h s = (h.0, Numbered-append (suc n) es e h.1 (omega arith))

-- A write of a gapless row.
pub Keeps-put_run : (rid : String) (run : Run) → IsGapless run → Keeps IsLogged (put_run rid run)
unfolding put_run
Keeps-put_run rid run g = record {
  at = λ s h. record { at = λ j row. simp Dict.get-set (ground (arith, h.at j row)) };
}

pub Keeps-on_queue : {A : Type 0} (f : Queue → A × Queue) → Keeps IsLogged (on_queue f)
unfolding on_queue
Keeps-on_queue f = record { at = λ s h. record { at = h.at } }

module _ {B : Type 0} where
  continue_with_run :
      (s : Store) (rid : String) (f : Run → Db B) (o : Option Run)
      → Dict.get s.runs rid ≡ o
      → IsLogged s
      → ((run : Run) → IsGapless run → Keeps IsLogged (f run))
      → IsLogged ((get_run rid >>= f) s).1
  unfolding get_run ◌>>=◌
  continue_with_run s rid f none e h k = rw (e, get_run) h
  continue_with_run s rid f (some run) e h k = rw (e, get_run) ((k run (h.at rid run e)).at s h)

  -- What follows a read of a run may use that its log is gapless.
  pub Keeps-get_run :
      (rid : String) (f : Run → Db B)
      → ((run : Run) → IsGapless run → Keeps IsLogged (f run))
      → Keeps IsLogged (get_run rid >>= f)
  Keeps-get_run rid f k = record { at = λ s h. continue_with_run s rid f _ refl h k }

append-IsGapless :
    (run : Run) (e : Event)
    → IsGapless run
    → e.seq ≡ suc run.last_seq
    → IsGapless (record run { events = run.events ++ e ∷ []; last_seq = suc run.last_seq })
append-IsGapless run e g s = record {
  numbered = Numbered-append 0 run.events e g.numbered (omega (arith, g.counted));
  counted = omega (arith, g.counted, length-append run.events (e ∷ []));
}

try_append-IsLogged :
    (rid : String) (type : EventType) (sid : String) (p : Payload)
    → Keeps IsLogged (try_append rid type sid p)
unfolding try_append
try_append-IsLogged rid type sid p =
    Keeps-get_run rid _ λ run g. search (keeps_rules, Keeps-put_run, append-IsGapless run _ g refl)

or_again-IsLogged :
    (tried : Option Event) (again : Db Event)
    → Keeps IsLogged again
    → Keeps IsLogged (or_again tried again)
unfolding or_again
or_again-IsLogged none again k = k
or_again-IsLogged (some event) again k = search keeps_rules

append_attempts-IsLogged :
    (n : ℕ) (rid : String) (type : EventType) (sid : String) (p : Payload)
    → Keeps IsLogged (append_attempts n rid type sid p)
unfolding append_attempts
append_attempts-IsLogged zero rid type sid p = search keeps_rules
append_attempts-IsLogged (suc n) rid type sid p = search (
  keeps_rules,
  try_append-IsLogged rid type sid p,
  or_again-IsLogged,
  append_attempts-IsLogged n rid type sid p,
)

pub append_event-IsLogged :
    (rid : String) (type : EventType) (sid : String) (p : Payload)
    → Keeps IsLogged (append_event rid type sid p)
unfolding append_event
append_event-IsLogged rid type sid p = append_attempts-IsLogged _ rid type sid p

has_seq_above :
    (n m : ℕ) (es : List Event) → Numbered n es → n + length es < m → has_seq es m ≡ false
unfolding has_seq
has_seq_above n m [] h lt = refl
has_seq_above n m (e ∷ es) h lt = ground (arith, has_seq_above (suc n) m es h.1)

try_append_lem :
    (rid : String) (type : EventType) (sid : String) (p : Payload) (s : Store) (run : Run)
    → too_long sid ≡ false
    → IsGapless run
    → Dict.get s.runs rid ≡ some run
    → let e : Event = record { seq = suc run.last_seq; type = type; step_id = sid; payload = p } in
      try_append rid type sid p s ≡ (
        ok (some e),
        record s {
          runs =
              Dict.set s.runs rid
                (record run { events = run.events ++ e ∷ []; last_seq = suc run.last_seq });
        },
      )
unfolding try_append get_run put_run ◌>>=◌
try_append_lem rid type sid p s run fits g there =
    let free : has_seq run.events (suc run.last_seq) ≡ false =
      has_seq_above 0 (suc run.last_seq) run.events g.numbered (omega (arith, g.counted)) in
    simp (there, fits, free)

-- On a store with gapless logs, append_event to a run that is there, with an id that fits its column, returns the event with the next
-- seq, and changes only that run: the event goes to the end of its log and last_seq goes up by one.
pub append_event_lem :
    (rid : String) (type : EventType) (sid : String) (p : Payload) (s : Store) (run : Run)
    → too_long sid ≡ false
    → IsLogged s
    → Dict.get s.runs rid ≡ some run
    → let e : Event = record { seq = suc run.last_seq; type = type; step_id = sid; payload = p } in
      append_event rid type sid p s ≡ (
        ok e,
        record s {
          runs =
              Dict.set s.runs rid
                (record run { events = run.events ++ e ∷ []; last_seq = suc run.last_seq });
        },
      )
unfolding append_event append_attempts or_again ◌>>=◌
append_event_lem rid type sid p s run fits h there =
    rw (try_append_lem rid type sid p s run fits (h.at rid run there) there)
