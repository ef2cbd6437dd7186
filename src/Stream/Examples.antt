-- ===== src/Stream/Examples.antt =====
-- Two polls of a run that ends: tests and instances.
use nutanix_hack.Prelude.{◌≡◌, refl, ◌+◌, some, List, [], ◌∷◌}
use nutanix_hack.Replay.State.{RunState, EventType, Event, no_payload}
use nutanix_hack.Replay.Fold.{sort_events, insert_event}
use nutanix_hack.Stream.{
  run_event, status, finished, Poll, stream_run, poll_in, polls_in, stream_from, above,
  events_since, last_of, stream_timeout_seconds,
}
use nutanix_hack.Service.Exec.{no_tenant_context}
use nutanix_hack.Tenancy.{unset, unscoped_scope, tenant, of_tenant}
use nutanix_hack.Stream.Complete.{events_of, Tells, stream_complete}

abbrev started : Event
started = record { seq = 1; type = EventType.run_started; step_id = ""; payload = no_payload }

abbrev succeeded : Event
succeeded = record { seq = 2; type = EventType.run_succeeded; step_id = ""; payload = no_payload }

abbrev poll : List Event → RunState → Poll
poll log row = record {
  at_test = 1;
  log = log;
  at_events = 1;
  row = some row;
  at_status = 1;
  at_check = 1;
  at_keepalive = 1;
}

abbrev polls : List Poll
polls =
    poll (started ∷ []) RunState.running ∷ poll (started ∷ succeeded ∷ []) RunState.succeeded ∷ []

frames : (stream_run (tenant "acme") "acme" 0 0 0 polls).0 ≡ (
    run_event started
    ∷ status RunState.running
    ∷ run_event succeeded
    ∷ status RunState.succeeded
    ∷ finished RunState.succeeded 2
    ∷ [])
unfolding stream_run polls_in poll_in of_tenant stream_from above events_since last_of sort_events
    insert_event
frames = refl

-- Where the run ends between the two queries of a round, the last event is not sent.
missed_ending :
    events_of
      (stream_run unscoped_scope "acme" 0 0 0 (poll (started ∷ []) RunState.succeeded ∷ polls)).0
    ≡ (started ∷ [])
unfolding stream_run polls_in poll_in of_tenant stream_from above events_since last_of sort_events
    insert_event
missed_ending = refl

-- Behind the middleware the scope is not set while the response is sent.
without_tenant : stream_run unset "acme" 0 0 0 polls ≡ ([], some no_tenant_context)
unfolding stream_run polls_in poll_in stream_from
without_tenant = refl

stream_complete_example :
    Tells
      (tenant "acme")
      "acme"
      1
      (0 + stream_timeout_seconds)
      polls
      (stream_run (tenant "acme") "acme" 1 0 0 polls)
stream_complete_example =
    stream_complete (tenant "acme") "acme" 1 0 0 polls
      ((refl, tt), (started ∷ [], refl), ((refl, (refl, tt)), (succeeded ∷ [], refl), tt))
