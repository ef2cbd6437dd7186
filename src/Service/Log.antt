-- ===== src/Service/Log.antt =====
-- engine/service.py: `append_event` and `load_context`.
use nutanix_hack.Prelude.{
  ℕ, zero, suc, Bool, false, true, String, Option, none, some, List, [], ◌∷◌, ◌++◌, ◌==◌,
  if◌then◌else◌,
}
use nutanix_hack.Replay.State.{EventType, Payload, Event, Context}
use nutanix_hack.Replay.Fold.{replay}
use nutanix_hack.Service.Exec.{contention, data_error, pure, raise, ◌>>=◌, ◌>>◌}
use nutanix_hack.Service.Store.{Db, get_run, put_run, too_long}

abbrev pub max_seq_contention_retries : ℕ
max_seq_contention_retries = 8

-- UNIQUE(run, seq)
unfoldable pub has_seq : List Event → ℕ → Bool
has_seq [] seq = false
has_seq (e ∷ es) seq = if e.seq == seq then true else has_seq es seq

-- One round of the loop: `none` is the IntegrityError of a seq that is taken.
unfoldable pub try_append : String → EventType → String → Payload → Db (Option Event)
try_append rid type sid payload = do
  run ← get_run rid
  let seq = suc run.last_seq
  let event : Event = record { seq = seq; type = type; step_id = sid; payload = payload }
  if too_long sid then raise data_error else if has_seq run.events seq then pure none else (do
    put_run rid (record run { events = run.events ++ event ∷ []; last_seq = seq })
    pure (some event))

-- The round was won, or the loop goes on.
unfoldable pub or_again : Option Event → Db Event → Db Event
or_again (some event) again = pure event
or_again none again = again

unfoldable pub append_attempts : ℕ → String → EventType → String → Payload → Db Event
append_attempts zero rid type sid payload = raise contention
append_attempts (suc n) rid type sid payload = do
  tried ← try_append rid type sid payload
  or_again tried (append_attempts n rid type sid payload)

unfoldable pub append_event : String → EventType → String → Payload → Db Event
append_event = append_attempts max_seq_contention_retries

unfoldable pub load_context : String → Db Context
load_context rid = do run ← get_run rid; pure (replay run.events)
