-- ===== src/Stream.antt =====
-- engine/streaming.py: the events of a run as frames, for a client that watches it.
pub mod Above
pub mod Complete
mod Examples
use nutanix_hack.Prelude.{
  String, str_eq, ℕ, ◌+◌, ◌-◌, ◌*◌, ◌==◌, Bool, true, false, Option, none, some, List, [], ◌∷◌,
  ◌++◌, map, is_empty, ltb, if◌then◌else◌,
}
use nutanix_hack.Replay.State.{RunState, Event, is_terminal}
use nutanix_hack.Replay.Fold.{sort_events}
use nutanix_hack.Service.Exec.{Error, Result, ok, err}
use nutanix_hack.Tenancy.{Scope, unset, unscoped_scope, tenant, rows_in}

-- Times are in microseconds.
abbrev pub stream_timeout_seconds : ℕ
stream_timeout_seconds = 600 * 1000000

abbrev pub heartbeat_seconds : ℕ
heartbeat_seconds = 15 * 1000000

pub data Frame : Type 0 where
  run_event : Event → Frame
  status : RunState → Frame
  finished : RunState → ℕ → Frame
  run_not_found keepalive : Frame
  timeout : ℕ → Frame

-- What one round of the loop reads: the clock at each place that reads it, the log, and then the
-- status of the run's row, `none` where there is no row.
pub record Poll : Type 0 where
  pub at_test : ℕ
  pub log : List Event
  pub at_events : ℕ
  pub row : Option RunState
  pub at_status : ℕ
  pub at_check : ℕ
  pub at_keepalive : ℕ

-- `seq__gt=last_seq`
unfoldable pub above : ℕ → List Event → List Event
above n [] = []
above n (e ∷ es) = let rest = above n es in if ltb n e.seq then e ∷ rest else rest

unfoldable pub events_since : ℕ → List Event → List Event
events_since n log = sort_events (above n log)

-- `last_seq = event["seq"]` for each event.
unfoldable pub last_of : ℕ → List Event → ℕ
last_of n [] = n
last_of n (e ∷ es) = last_of e.seq es

abbrev run_code : RunState → ℕ
run_code RunState.pending = 0
run_code RunState.running = 1
run_code RunState.waiting = 2
run_code RunState.compensating = 3
run_code RunState.succeeded = 4
run_code RunState.failed = 5
run_code RunState.cancelled = 6

-- `==` on statuses, which are texts that differ.
abbrev same_state : RunState → RunState → Bool
same_state r s = run_code r == run_code s

abbrev pub is_status : Option RunState → RunState → Bool
is_status none s = false
is_status (some r) s = same_state r s

-- The locals of the generator.
pub record Stream : Type 0 where
  pub last_seq : ℕ
  pub last_status : Option RunState
  pub last_beat : ℕ

abbrev pub keep_alive : Stream → Poll → List Frame
keep_alive v p = if ltb heartbeat_seconds (p.at_check - v.last_beat) then keepalive ∷ [] else []

abbrev pub beaten : Stream → Poll → Stream
beaten v p =
    if ltb heartbeat_seconds (p.at_check - v.last_beat)
    then record v { last_beat = p.at_keepalive }
    else v

abbrev pub after_events : Stream → Poll → Stream
after_events v p =
    let es = events_since v.last_seq p.log in
    record v {
      last_seq = last_of v.last_seq es;
      last_beat = if is_empty es then v.last_beat else p.at_events;
    }

abbrev pub after_status : Stream → Poll → RunState → Stream
after_status v p s =
    if is_status v.last_status s
    then v
    else record v { last_status = some s; last_beat = p.at_status }

abbrev pub status_frames : Stream → RunState → List Frame
status_frames v s = if is_status v.last_status s then [] else status s ∷ []

-- The rest of a round, after its events; `rest` is the rounds after it.
abbrev pub after_row : Stream → Poll → Option RunState → (Stream → List Frame) → List Frame
after_row v p none rest = run_not_found ∷ []
after_row v p (some s) rest =
    status_frames v s
    ++ (if is_terminal s
        then finished s v.last_seq ∷ []
        else keep_alive (after_status v p s) p ++ rest (beaten (after_status v p s) p))

-- The loop. Where the polls end before the deadline, the client has hung up.
unfoldable pub stream_from : ℕ → Stream → List Poll → List Frame
stream_from deadline v [] = []
stream_from deadline v (p ∷ ps) =
    if ltb p.at_test deadline
    then map run_event (events_since v.last_seq p.log)
      ++ after_row (after_events v p) p p.row (λ u. stream_from deadline u ps)
    else timeout v.last_seq ∷ []

-- What the scoped managers let a round read of the run's log and row; `owner` is the run's tenant.
abbrev pub row_in : Scope → String → Option RunState → Option RunState
row_in unset owner row = none
row_in unscoped_scope owner row = row
row_in (tenant slug) owner row = if str_eq owner slug then row else none

unfoldable pub poll_in : Scope → String → Poll → Result Poll
poll_in scope owner p = elim (rows_in scope (λ e. owner) p.log) [
  | err e ↦ err e
  | ok log ↦ ok (record p { log = log; row = row_in scope owner p.row })
]

-- The rounds as the generator reads them, and the exception of the first query that raises. The
-- scope stays the same while the generator runs, so the first round raises or none does.
unfoldable pub polls_in : Scope → String → ℕ → List Poll → List Poll × Option Error
polls_in scope owner deadline [] = ([], none)
polls_in scope owner deadline (p ∷ ps) =
    let (later, raised) = polls_in scope owner deadline ps in
    if ltb p.at_test deadline
    then elim (poll_in scope owner p) [ err e ↦ ([], some e) | ok q ↦ (q ∷ later, raised) ]
    else (p ∷ [], none)

-- `started` and `opened` are the two readings of the clock before the loop. `scope` is the context
-- variable while the response is sent, which is after the middleware has reset it.
unfoldable pub stream_run : Scope → String → ℕ → ℕ → ℕ → List Poll → List Frame × Option Error
stream_run scope owner since started opened ps =
    let deadline = opened + stream_timeout_seconds in
    let (read, raised) = polls_in scope owner deadline ps in
    (
      stream_from deadline (record { last_seq = since; last_status = none; last_beat = started })
          read,
      raised,
    )
