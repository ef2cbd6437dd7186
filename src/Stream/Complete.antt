-- ===== src/Stream/Complete.antt =====
-- Which events the stream of engine/streaming.py sends.
use mathlib.Core.List.{append-nil, append_assoc}
use nutanix_hack.Prelude.{
  String, str_eq, ℕ, ◌+◌, ◌-◌, ◌≡◌, refl, sym, ap, subst, ◌∙◌, Bool, true, false, Option, none,
  some, List, [], ◌∷◌, ◌++◌, map, ltb, if◌then◌else◌, Bool-cases, inl, inr,
}
use nutanix_hack.Replay.State.{RunState, Event, is_terminal}
use nutanix_hack.Service.Gapless.{Numbered}
use nutanix_hack.Stream.{
  Frame, run_event, status, finished, run_not_found, keepalive, timeout, Poll, above, events_since,
  last_of, Stream, keep_alive, beaten, after_events, after_status, status_frames, after_row,
  is_status, stream_from, stream_run, poll_in, polls_in, stream_timeout_seconds, heartbeat_seconds,
}
use nutanix_hack.Replay.Fold.{sort_events}
use nutanix_hack.Service.Exec.{Error, ok, no_tenant_context}
use nutanix_hack.Tenancy.{Scope, unset, unscoped_scope, tenant, of_tenant}
use nutanix_hack.Stream.Above.{sort_events-above, none_above, above-append}

-- The events that a client receives.
abbrev pub events_of : List Frame → List Event
events_of [] = []
events_of (run_event e ∷ fs) = e ∷ events_of fs
events_of (status s ∷ fs) = events_of fs
events_of (finished s n ∷ fs) = events_of fs
events_of (run_not_found ∷ fs) = events_of fs
events_of (keepalive ∷ fs) = events_of fs
events_of (timeout n ∷ fs) = events_of fs

abbrev ends : Option RunState → Bool
ends none = true
ends (some s) = is_terminal s

-- The log that the last round of the loop reads, `log` where there is no round.
unfoldable pub last_log : ℕ → List Event → List Poll → List Event
last_log deadline log [] = log
last_log deadline log (p ∷ ps) =
    let rest = last_log deadline p.log ps in
    if ltb p.at_test deadline then if ends p.row then p.log else rest else log

-- Each poll reads a gapless log that goes on from the one read before it.
abbrev pub Grows : List Event → List Poll → Type 0
Grows log [] = Unit {0}
Grows log (p ∷ ps) =
    Numbered 0 p.log × ((more : List Event) × (p.log ≡ log ++ more)) × Grows p.log ps

events_of-map :
    (es : List Event) (fs : List Frame) → events_of (map run_event es ++ fs) ≡ es ++ events_of fs
events_of-map [] fs = refl
events_of-map (e ∷ es) fs = rw (events_of-map es fs) refl

events_of-append : (fs gs : List Frame) → events_of (fs ++ gs) ≡ events_of fs ++ events_of gs
events_of-append [] gs = refl
events_of-append (run_event e ∷ fs) gs = rw (events_of-append fs gs) refl
events_of-append (status s ∷ fs) gs = events_of-append fs gs
events_of-append (finished s n ∷ fs) gs = events_of-append fs gs
events_of-append (run_not_found ∷ fs) gs = events_of-append fs gs
events_of-append (keepalive ∷ fs) gs = events_of-append fs gs
events_of-append (timeout n ∷ fs) gs = events_of-append fs gs

last_log-Grows :
    (deadline : ℕ) (log : List Event) (ps : List Poll)
    → Numbered 0 log
    → Grows log ps
    → Numbered 0 (last_log deadline log ps)
      × ((more : List Event) × (last_log deadline log ps ≡ log ++ more))
unfolding last_log
last_log-Grows deadline log [] n g = (n, ([], sym (append-nil log)))
last_log-Grows deadline log (p ∷ ps) n (numbered, (more, grown), g) =
    let (later_numbered, (later, grows)) = last_log-Grows deadline p.log ps numbered g in
    elim (Bool-cases (ltb p.at_test deadline)) [
      | inr t ↦ rw t (n, ([], sym (append-nil log)))
      | inl t ↦ elim (Bool-cases (ends p.row)) [
        | inl e ↦ rw (t, e) (numbered, (more, grown))
        | inr e ↦
            rw (t, e)
              (
                later_numbered,
                (more ++ later, grows ∙ ap (λ l. l ++ later) grown ∙ append_assoc log more later),
              )
      ]
    ]

events_since-Numbered :
    (n : ℕ) (log : List Event) → Numbered 0 log → events_since n log ≡ above n log
unfolding events_since
events_since-Numbered n log h = sort_events-above 0 n log h

status_silent :
    (v : Stream) (s : RunState) (fs : List Frame)
    → events_of (status_frames v s ++ fs) ≡ events_of fs
status_silent v s fs = elim (Bool-cases (is_status v.last_status s)) [
  | inl e ↦ rw e refl
  | inr e ↦ rw e refl
]

keep_silent :
    (v : Stream) (p : Poll) (fs : List Frame) → events_of (keep_alive v p ++ fs) ≡ events_of fs
keep_silent v p fs = elim (Bool-cases (ltb heartbeat_seconds (p.at_check - v.last_beat))) [
  | inl e ↦ rw e refl
  | inr e ↦ rw e refl
]

same_beaten : (v : Stream) (p : Poll) → (beaten v p).last_seq ≡ v.last_seq
same_beaten v p = elim (Bool-cases (ltb heartbeat_seconds (p.at_check - v.last_beat))) [
  | inl e ↦ rw e refl
  | inr e ↦ rw e refl
]

same_seq :
    (v : Stream) (p : Poll) (s : RunState) → (beaten (after_status v p s) p).last_seq ≡ v.last_seq
same_seq v p s = elim (Bool-cases (is_status v.last_status s)) [
  | inl e ↦ rw e (same_beaten v p)
  | inr e ↦ rw e (same_beaten (record v { last_status = some s; last_beat = p.at_status }) p)
]

-- The events of a round, and those of the rounds after it.
round_complete :
    (v : Stream) (p : Poll) (row : Option RunState) (rest : Stream → List Frame)
    (final : List Event)
    → Numbered 0 p.log
    → (ends row ≡ true → final ≡ p.log)
    → (ends row ≡ false
        → (u : Stream) → u.last_seq ≡ (after_events v p).last_seq
        → events_of (rest u) ≡ above u.last_seq final)
    → ((more : List Event) × (final ≡ p.log ++ more))
    → Numbered 0 final
    → events_of
        (map run_event (events_since v.last_seq p.log) ++ after_row (after_events v p) p row rest)
      ≡ above v.last_seq final
round_complete v p none rest final numbered stops goes (more, grown) n =
    events_of-map (events_since v.last_seq p.log) (run_not_found ∷ [])
    ∙ append-nil (events_since v.last_seq p.log)
    ∙ events_since-Numbered v.last_seq p.log numbered
    ∙ ap (above v.last_seq) (sym (stops refl))
round_complete v p (some s) rest final numbered stops goes (more, grown) n =
    let es = events_since v.last_seq p.log in
    let same : es ≡ above v.last_seq p.log = events_since-Numbered v.last_seq p.log numbered in
    elim (Bool-cases (is_terminal s)) [
      | inl t ↦ rw t (
          events_of-map es _
          ∙ ap (λ xs. es ++ xs) (status_silent (after_events v p) s _)
          ∙ append-nil es
          ∙ same
          ∙ ap (above v.last_seq) (sym (stops t)))
      | inr t ↦
          let u = beaten (after_status (after_events v p) p s) p in
          let later : events_of (rest u) ≡ above (last_of v.last_seq es) final =
            goes t u (same_seq (after_events v p) p s)
            ∙ ap (λ m. above m final) (same_seq (after_events v p) p s) in
          let before = v.last_seq in
          let first = above before p.log in
          let step = above-append 0 before p.log more (subst (Numbered 0) grown n) in
          let joined : first ++ above (last_of before first) final ≡ above before final =
            subst (λ f. first ++ above (last_of before first) f ≡ above before f) (sym grown)
              (sym step) in
          let sent : es ++ above (last_of before es) final
              ≡ first ++ above (last_of before first) final =
            λ i. same i ++ above (last_of before (same i)) final in
          rw t (
            events_of-map es _
            ∙ ap (λ xs. es ++ xs)
                (status_silent (after_events v p) s _
                  ∙ keep_silent (after_status (after_events v p) p s) p _
                  ∙ later)
            ∙ sent
            ∙ joined)
    ]

-- The log that the last round reads goes on from the one that this round reads.
final_log :
    (b : Bool) (deadline : ℕ) (log : List Event) (ps : List Poll)
    → Numbered 0 log
    → Grows log ps
    → Numbered 0 (if b then log else last_log deadline log ps)
      × ((more : List Event) × ((if b then log else last_log deadline log ps) ≡ log ++ more))
final_log true deadline log ps n g = (n, ([], sym (append-nil log)))
final_log false deadline log ps n g = last_log-Grows deadline log ps n g

stream_from_complete :
    (deadline : ℕ) (v : Stream) (log : List Event) (ps : List Poll)
    → Numbered 0 log
    → Grows log ps
    → above v.last_seq log ≡ []
    → events_of (stream_from deadline v ps) ≡ above v.last_seq (last_log deadline log ps)
unfolding stream_from last_log events_since
stream_from_complete deadline v log [] n g h = sym h
stream_from_complete deadline v log (p ∷ ps) n (numbered, (more, grown), g) h =
    elim (Bool-cases (ltb p.at_test deadline)) [
      | inr t ↦ rw t (sym h)
      | inl t ↦
          let (final_numbered, extends) = final_log (ends p.row) deadline p.log ps numbered g in
          let sent = events_since-Numbered v.last_seq p.log numbered in
          let none_left : above (after_events v p).last_seq p.log ≡ [] =
            ap (λ es. above (last_of v.last_seq es) p.log) sent
            ∙ none_above 0 v.last_seq p.log numbered in
          rw t (
            round_complete v p p.row (λ u. stream_from deadline u ps) _ numbered (λ e. rw e refl)
              (λ e u same. rw e (
                stream_from_complete deadline u p.log ps numbered g
                  (ap (λ m. above m p.log) same ∙ none_left)))
              extends final_numbered)
    ]

of_tenant-own :
    (owner slug : String) (log : List Event)
    → str_eq owner slug ≡ true
    → of_tenant (λ e. owner) slug log ≡ log
unfolding of_tenant
of_tenant-own owner slug [] h = refl
of_tenant-own owner slug (e ∷ es) h = rw (h, of_tenant-own owner slug es h) refl

of_tenant-other :
    (owner slug : String) (log : List Event)
    → str_eq owner slug ≡ false
    → of_tenant (λ e. owner) slug log ≡ []
unfolding of_tenant
of_tenant-other owner slug [] h = refl
of_tenant-other owner slug (e ∷ es) h = rw (h, of_tenant-other owner slug es h) refl

-- The scope shows the rows of the run.
abbrev pub shows : Scope → String → Bool
shows unset owner = false
shows unscoped_scope owner = true
shows (tenant slug) owner = str_eq owner slug

shown_poll :
    (scope : Scope) (owner : String) (p : Poll)
    → shows scope owner ≡ true
    → poll_in scope owner p ≡ ok p
unfolding poll_in
shown_poll unset owner p h = cc h
shown_poll unscoped_scope owner p h = refl
shown_poll (tenant slug) owner p h = rw (of_tenant-own owner slug p.log h, h) refl

-- A scope that shows the run leaves what is streamed as it is.
stream_from-shown :
    (scope : Scope) (owner : String) (deadline : ℕ) (v : Stream) (ps : List Poll)
    → shows scope owner ≡ true
    → stream_from deadline v (polls_in scope owner deadline ps).0 ≡ stream_from deadline v ps
unfolding stream_from polls_in
stream_from-shown scope owner deadline v [] h = refl
stream_from-shown scope owner deadline v (p ∷ ps) h = elim (Bool-cases (ltb p.at_test deadline)) [
  | inr late ↦
      let first : (polls_in scope owner deadline (p ∷ ps)).0 ≡ p ∷ [] = rw late refl in
      let same : stream_from deadline v (p ∷ []) ≡ stream_from deadline v (p ∷ ps) = rw late refl in
      ap (stream_from deadline v) first ∙ same
  | inl t ↦
      let first : (polls_in scope owner deadline (p ∷ ps)).0
          ≡ p ∷ (polls_in scope owner deadline ps).0 =
        rw (t, shown_poll scope owner p h) refl in
      ap (stream_from deadline v) first ∙ (λ i.
        if ltb p.at_test deadline
        then map run_event (events_since v.last_seq p.log)
          ++ after_row (after_events v p) p p.row
              (λ u. stream_from-shown scope owner deadline u ps h i)
        else timeout v.last_seq ∷ [])
]

-- The exception of the first query of a generator that runs without a tenant.
abbrev pub raised_in : Scope → ℕ → List Poll → Option Error
raised_in unset deadline (p ∷ ps) = if ltb p.at_test deadline then some no_tenant_context else none
raised_in _ deadline ps = none

raises_at :
    (scope : Scope) (owner : String) (deadline : ℕ) (ps : List Poll)
    → (polls_in scope owner deadline ps).1 ≡ raised_in scope deadline ps
unfolding polls_in poll_in
raises_at unset owner deadline [] = refl
raises_at unset owner deadline (p ∷ ps) = elim (Bool-cases (ltb p.at_test deadline)) [
  | inr late ↦ rw late refl
  | inl t ↦ rw t refl
]
raises_at unscoped_scope owner deadline [] = refl
raises_at unscoped_scope owner deadline (p ∷ ps) = elim (Bool-cases (ltb p.at_test deadline)) [
  | inr late ↦ rw late refl
  | inl t ↦ rw t (raises_at unscoped_scope owner deadline ps)
]
raises_at (tenant slug) owner deadline [] = refl
raises_at (tenant slug) owner deadline (p ∷ ps) = elim (Bool-cases (ltb p.at_test deadline)) [
  | inr late ↦ rw late refl
  | inl t ↦ rw t (raises_at (tenant slug) owner deadline ps)
]

-- A scope that hides the run sends no event.
hidden_sends :
    (scope : Scope) (owner : String) (deadline : ℕ) (v : Stream) (ps : List Poll)
    → shows scope owner ≡ false
    → events_of (stream_from deadline v (polls_in scope owner deadline ps).0) ≡ []
unfolding stream_from polls_in poll_in events_since above sort_events
hidden_sends scope owner deadline v [] h = refl
hidden_sends unset owner deadline v (p ∷ ps) h = elim (Bool-cases (ltb p.at_test deadline)) [
  | inr late ↦
      let first : (polls_in unset owner deadline (p ∷ ps)).0 ≡ p ∷ [] = rw late refl in
      let nothing : events_of (stream_from deadline v (p ∷ [])) ≡ [] = rw late refl in
      ap (λ read. events_of (stream_from deadline v read)) first ∙ nothing
  | inl t ↦
      let none_read : (polls_in unset owner deadline (p ∷ ps)).0 ≡ [] = rw t refl in
      ap (λ read. events_of (stream_from deadline v read)) none_read
]
hidden_sends unscoped_scope owner deadline v (p ∷ ps) h = cc h
hidden_sends (tenant slug) owner deadline v (p ∷ ps) h =
    elim (Bool-cases (ltb p.at_test deadline)) [
      | inr late ↦
          let first : (polls_in (tenant slug) owner deadline (p ∷ ps)).0 ≡ p ∷ [] = rw late refl in
          let nothing : events_of (stream_from deadline v (p ∷ [])) ≡ [] = rw late refl in
          ap (λ read. events_of (stream_from deadline v read)) first ∙ nothing
      | inl t ↦
          let q : Poll = record p { log = []; row = none } in
          let first : (polls_in (tenant slug) owner deadline (p ∷ ps)).0
              ≡ q ∷ (polls_in (tenant slug) owner deadline ps).0 =
            rw (t, of_tenant-other owner slug p.log h, h) refl in
          let nothing : events_of
                (stream_from deadline v (q ∷ (polls_in (tenant slug) owner deadline ps).0))
              ≡ [] =
            rw t refl in
          ap (λ read. events_of (stream_from deadline v read)) first ∙ nothing
    ]

-- What a stream sends, and the exception that ends it, if one does.
pub record Tells (scope : Scope) (owner : String) (since deadline : ℕ) (ps : List Poll)
    (out : List Frame × Option Error) : Type 0 where
  pub sent :
      events_of out.0 ≡ (if shows scope owner then above since (last_log deadline [] ps) else [])
  pub raised : out.1 ≡ raised_in scope deadline ps

-- If each round of a stream reads a log without gaps that goes on from the one that the round
-- before it read, then: where the context variable is not set, the first query raises
-- NoTenantContext and no event is sent; under another tenant than that of the run no event is sent;
-- and under its tenant or unscoped, the events sent are those above `since` in the log that the
-- last round reads, each once and in order, and no query raises NoTenantContext.
pub stream_complete :
    (scope : Scope) (owner : String) (since started opened : ℕ) (ps : List Poll)
    → Grows [] ps
    → Tells scope owner since
        (opened + stream_timeout_seconds)
        ps
        (stream_run scope owner since started opened ps)
unfolding stream_run above
stream_complete scope owner since started opened ps g =
    let deadline = opened + stream_timeout_seconds in
    let v : Stream = record { last_seq = since; last_status = none; last_beat = started } in
    record {
      sent = elim (Bool-cases (shows scope owner)) [
        | inr h ↦ rw h (hidden_sends scope owner deadline v ps h)
        | inl h ↦ rw h (
            ap events_of (stream_from-shown scope owner deadline v ps h)
            ∙ stream_from_complete deadline v [] ps tt g refl)
      ];
      raised = raises_at scope owner deadline ps;
    }
