-- ===== src/Replay/Order.antt =====
-- About the order of the events in `replay` of engine/replay.py.
use mathlib.Core.Logic.{∥∥₁_elim}
use mathlib.Core.List.{Perm, Permᴰ, Nodup, Nodup-cons, mem-cons_self}
use mathlib.Core.List.Perm
use text.Mathlib.TextEquality.{IsScalar-prop}
use nutanix_hack.Prelude.{
  ℕ, String, ◌≤◌, max, ◌≡◌, ◌≢◌, refl, ap, ◌∙◌, List, [], ◌∷◌, ◌++◌, map, arith, All,
}
use nutanix_hack.Replay.State.{Event, Payload, Context, EventType, new_context}
use nutanix_hack.Replay.Fold.{apply_event, insert_event, sort_events, apply_all, replay, transition}

abbrev pub seqs : List Event → List ℕ
seqs = map (λ e. e.seq)

Event-set : IsSet Event
Event-set = hlevel IsScalar-prop

List-Event-set : IsSet (List Event)
List-Event-set = hlevel IsScalar-prop

insert_event_comm :
    (a b : Event) (es : List Event)
    → a.seq ≢ b.seq
    → insert_event a (insert_event b es) ≡ insert_event b (insert_event a es)
unfolding insert_event
insert_event_comm a b [] h = ground arith
insert_event_comm a b (e ∷ es) h = ground (arith, insert_event_comm a b es h)

sort_events-Permᴰ :
    {es fs : List Event} → Permᴰ es fs → Nodup (seqs es) → sort_events es ≡ sort_events fs
unfolding sort_events
sort_events-Permᴰ Permᴰ.nil d = refl
sort_events-Permᴰ (Permᴰ.cons e p) d = cc (e, sort_events-Permᴰ p (Nodup-cons.0 d).1)
sort_events-Permᴰ (Permᴰ.swap {a} {b} {l = l} e f) d =
    cc (e, f, insert_event_comm a b (sort_events l) (λ s. (Nodup-cons.0 d).0 (rw s mem-cons_self)))
sort_events-Permᴰ (Permᴰ.trans p q) d =
    sort_events-Permᴰ p d ∙ sort_events-Permᴰ q (Perm.nodup (Perm.map (λ e. e.seq) ∣ p ∣₁) d)

-- If the seqs of a log are pairwise different, any two orders of its rows fold into the same
-- context.
pub replay-perm : (es fs : List Event) → Perm es fs → Nodup (seqs es) → replay es ≡ replay fs
unfolding replay
replay-perm es fs p d =
    ap (apply_all new_context) (∥∥₁_elim p (List-Event-set _ _) (λ q. sort_events-Permᴰ q d))

insert_event-append :
    (a e : Event) (es : List Event)
    → a.seq ≤ e.seq
    → insert_event a (es ++ e ∷ []) ≡ insert_event a es ++ e ∷ []
unfolding insert_event
insert_event-append a e [] h = ground arith
insert_event-append a e (f ∷ es) h = ground (arith, insert_event-append a e es h)

sort_events-append :
    (es : List Event) (e : Event)
    → All (λ f. f.seq ≤ e.seq) es
    → sort_events (es ++ e ∷ []) ≡ sort_events es ++ e ∷ []
unfolding sort_events insert_event
sort_events-append [] e h = refl
sort_events-append (f ∷ es) e h =
    ap (insert_event f) (sort_events-append es e h.1) ∙ insert_event-append f e (sort_events es) h.0

apply_all-append :
    (c : Context) (es : List Event) (e : Event)
    → apply_all c (es ++ e ∷ []) ≡ apply_event (apply_all c es) e
unfolding apply_all
apply_all-append c [] e = refl
apply_all-append c (f ∷ es) e = apply_all-append (apply_event c f) es e

-- If no seq of a log is above that of one more event, the context of the longer log is that of the
-- log with the event applied.
pub replay-append :
    (es : List Event) (e : Event)
    → All (λ f. f.seq ≤ e.seq) es
    → replay (es ++ e ∷ []) ≡ apply_event (replay es) e
unfolding replay
replay-append es e h =
    ap (apply_all new_context) (sort_events-append es e h)
    ∙ apply_all-append new_context (sort_events es) e

-- The largest seq of a log, 0 for the empty one.
abbrev pub top_seq : List Event → ℕ
top_seq [] = 0
top_seq (e ∷ es) = max e.seq (top_seq es)

top_seq-insert_event :
    (e : Event) (es : List Event) → top_seq (insert_event e es) ≡ top_seq (e ∷ es)
unfolding insert_event
top_seq-insert_event e [] = refl
top_seq-insert_event e (f ∷ es) = ground (arith, top_seq-insert_event e es)

top_seq-sort_events : (es : List Event) → top_seq (sort_events es) ≡ top_seq es
unfolding sort_events
top_seq-sort_events [] = refl
top_seq-sort_events (e ∷ es) =
    omega (arith, top_seq-insert_event e (sort_events es), top_seq-sort_events es)

transition-last_seq :
    (t : EventType) (c : Context) (sid : String) (p : Payload)
    → (transition t c sid p).last_seq ≡ c.last_seq
unfolding transition
transition-last_seq EventType.run_started c sid p = refl
transition-last_seq _ c sid p = refl

last_seq-apply_all :
    (c : Context) (es : List Event) → (apply_all c es).last_seq ≡ max c.last_seq (top_seq es)
unfolding apply_all apply_event
last_seq-apply_all c [] = omega arith
last_seq-apply_all c (e ∷ es) = omega (arith, last_seq-apply_all (apply_event c e) es)

-- The last_seq of a replayed context is the largest seq of the log, 0 for the empty log.
pub last_seq-replay : (es : List Event) → (replay es).last_seq ≡ top_seq es
unfolding replay new_context
last_seq-replay es =
    omega (arith, last_seq-apply_all new_context (sort_events es), top_seq-sort_events es)
