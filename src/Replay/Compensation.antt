-- ===== src/Replay/Compensation.antt =====
-- About `compensation_order` of engine/replay.py: the order of rollback.
use nutanix_hack.Prelude.{
  ◌≡◌, refl, ap, ◌∙◌, Bool, true, false, ◌&&◌, ◌||◌, not, ◌⊎◌, inl, inr, String, List, [], ◌∷◌,
  reverse, arith, eq_iff, str_eq, contains, contains-reverse, reverse-Distinct, Distinct, is_empty,
  if◌then◌else◌,
}
use nutanix_hack.Prelude.Dict
use nutanix_hack.Spec.{Spec}
use nutanix_hack.Replay.State.{RunState, EventType, Payload, Event, Context, is_terminal}
use nutanix_hack.Replay.Fold.{transition, apply_event, apply_all}
use nutanix_hack.Replay.Queries.{
  is_unwound, must_unwind, keep_where, compensation_order, next_run_state,
}
use nutanix_hack.Replay.Invariant.{IsSound, apply_event-IsSound}

contains-keep_where :
    (p : String → Bool) (xs : List String) (k : String)
    → contains (keep_where p xs) k ≡ (contains xs k && p k)
unfolding keep_where
contains-keep_where p [] k = refl
contains-keep_where p (x ∷ xs) k = ground (arith, contains-keep_where p xs k, eq_iff x k)

keep_where-Distinct :
    (p : String → Bool) (xs : List String) → Distinct xs → Distinct (keep_where p xs)
unfolding keep_where
keep_where-Distinct p [] d = tt
keep_where-Distinct p (x ∷ xs) d =
    ground (arith, keep_where-Distinct p xs d.1, contains-keep_where p xs x)

-- A step is in the compensation order exactly if it has completed, its definition declares a
-- compensation, and it is marked neither compensated nor compensation_failed.
pub contains-compensation_order :
    (spec : Spec) (c : Context) (sid : String)
    → contains (compensation_order spec c) sid
      ≡ (contains c.completion_order sid && must_unwind spec c sid)
unfolding compensation_order
contains-compensation_order spec c sid =
    contains-keep_where (must_unwind spec c) (reverse c.completion_order) sid
    ∙ ap (λ b. b && must_unwind spec c sid) (contains-reverse c.completion_order sid)

-- In a sound context no step is twice in the compensation order.
pub compensation_order-Distinct :
    (spec : Spec) (c : Context) → IsSound c → Distinct (compensation_order spec c)
unfolding compensation_order
compensation_order-Distinct spec c s =
    keep_where-Distinct _ _ (reverse-Distinct c.completion_order s.distinct)

-- `q` is `p` with one id left out.
abbrev Without : (String → Bool) → (String → Bool) → String → Type 0
Without p q sid = (k : String) → q k ≡ (p k && not (str_eq sid k))

keep_where_absent :
    (p q : String → Bool) (xs : List String) (sid : String)
    → Without p q sid
    → contains xs sid ≡ false
    → keep_where q xs ≡ keep_where p xs
unfolding keep_where
keep_where_absent p q [] sid w h = refl
keep_where_absent p q (x ∷ xs) sid w h =
    ground (arith, w x, eq_iff sid x, eq_iff x sid, keep_where_absent p q xs sid w)

-- Once the head is left out, the tail is what is left.
keep_where_rest :
    (p q : String → Bool) (xs : List String) (sid : String) (rest : List String)
    → Without p q sid
    → Distinct xs
    → keep_where p xs ≡ sid ∷ rest
    → keep_where q xs ≡ rest
unfolding keep_where
keep_where_rest p q [] sid rest w d h = cc
keep_where_rest p q (x ∷ xs) sid rest w d h = ground (
  arith,
  w x,
  eq_iff sid x,
  keep_where_absent p q xs sid w,
  keep_where_rest p q xs sid rest w d.1,
)

-- An event that ends the unwinding of a step: STEP_COMPENSATED or COMPENSATION_FAILED.
abbrev pub Unwinds : Event → String → Type 0
Unwinds e sid =
    ((e.type ≡ EventType.step_compensated) ⊎ (e.type ≡ EventType.compensation_failed))
    × (e.step_id ≡ sid)

is_unwound-compensated :
    (c : Context) (sid k : String) (p : Payload)
    → is_unwound (transition EventType.step_compensated c sid p) k
      ≡ (is_unwound c k || str_eq sid k)
unfolding transition is_unwound
is_unwound-compensated c sid k p = simp Dict.get-set (ground (arith, eq_iff sid k))

is_unwound-failed :
    (c : Context) (sid k : String) (p : Payload)
    → is_unwound (transition EventType.compensation_failed c sid p) k
      ≡ (is_unwound c k || str_eq sid k)
unfolding transition is_unwound
is_unwound-failed c sid k p = simp Dict.get-set (ground (arith, eq_iff sid k))

is_unwound-apply_event :
    (c : Context) (e : Event) (sid k : String)
    → Unwinds e sid
    → is_unwound (apply_event c e) k ≡ (is_unwound c k || str_eq sid k)
unfolding apply_event is_unwound
is_unwound-apply_event c e sid k (inl t, s) = rw (t, s) (is_unwound-compensated c sid k e.payload)
is_unwound-apply_event c e sid k (inr t, s) = rw (t, s) (is_unwound-failed c sid k e.payload)

must_unwind-apply_event :
    (spec : Spec) (c : Context) (e : Event) (sid : String)
    → Unwinds e sid
    → Without (must_unwind spec c) (must_unwind spec (apply_event c e)) sid
unfolding must_unwind
must_unwind-apply_event spec c e sid u k = ground (arith, is_unwound-apply_event c e sid k u)

completion_order-Unwinds :
    (c : Context) (e : Event) (sid : String)
    → Unwinds e sid
    → (apply_event c e).completion_order ≡ c.completion_order
unfolding apply_event transition
completion_order-Unwinds c e sid (inl t, s) = rw (t, transition)
completion_order-Unwinds c e sid (inr t, s) = rw (t, transition)

-- In a sound context whose compensation order has a first step, STEP_COMPENSATED or
-- COMPENSATION_FAILED of that step leaves the rest of the order as the order.
pub compensation_order-apply_event :
    (spec : Spec) (c : Context) (e : Event) (sid : String) (rest : List String)
    → IsSound c
    → compensation_order spec c ≡ sid ∷ rest
    → Unwinds e sid
    → compensation_order spec (apply_event c e) ≡ rest
unfolding compensation_order
compensation_order-apply_event spec c e sid rest s h u = simp (completion_order-Unwinds c e sid u) (
    keep_where_rest (must_unwind spec c) (must_unwind spec (apply_event c e))
      (reverse c.completion_order) sid rest (must_unwind-apply_event spec c e sid u)
      (reverse-Distinct c.completion_order s.distinct) h)

-- The events unwind the steps of the list, one each, in its order.
abbrev pub UnwindsAll : List Event → List String → Type 0
UnwindsAll [] [] = Unit {0}
UnwindsAll [] (sid ∷ sids) = ⊥
UnwindsAll (e ∷ es) [] = ⊥
UnwindsAll (e ∷ es) (sid ∷ sids) = Unwinds e sid × UnwindsAll es sids

-- Events that unwind the whole order leave nothing to unwind.
pub compensation_order-apply_all :
    (spec : Spec) (sids : List String) (c : Context) (es : List Event)
    → IsSound c
    → compensation_order spec c ≡ sids
    → UnwindsAll es sids
    → compensation_order spec (apply_all c es) ≡ []
unfolding apply_all
compensation_order-apply_all spec [] c [] s h u = h
compensation_order-apply_all spec [] c (e ∷ es) s h u = absurd u
compensation_order-apply_all spec (sid ∷ sids) c [] s h u = absurd u
compensation_order-apply_all spec (sid ∷ sids) c (e ∷ es) s h u =
    compensation_order-apply_all spec sids (apply_event c e) es (apply_event-IsSound c e s)
      (compensation_order-apply_event spec c e sid sids s h u.0) u.1

status-Unwinds :
    (c : Context) (e : Event) (sid : String)
    → Unwinds e sid
    → ((apply_event c e).status ≡ c.status) × ((apply_event c e).compensating ≡ c.compensating)
unfolding apply_event transition
status-Unwinds c e sid (inl t, s) = (rw (t, transition), rw (t, transition))
status-Unwinds c e sid (inr t, s) = (rw (t, transition), rw (t, transition))

status-UnwindsAll :
    (sids : List String) (c : Context) (es : List Event)
    → UnwindsAll es sids
    → ((apply_all c es).status ≡ c.status) × ((apply_all c es).compensating ≡ c.compensating)
unfolding apply_all
status-UnwindsAll [] c [] u = (refl, refl)
status-UnwindsAll [] c (e ∷ es) u = absurd u
status-UnwindsAll (sid ∷ sids) c [] u = absurd u
status-UnwindsAll (sid ∷ sids) c (e ∷ es) u =
    let (s, f) = status-Unwinds c e sid u.0 in
    let (s', f') = status-UnwindsAll sids (apply_event c e) es u.1 in (s' ∙ s, f' ∙ f)

-- For a sound context of an unended run that is compensating: its derived state is FAILED if the
-- compensation order is empty and COMPENSATING if not, and after events that end the unwinding of
-- each step of the order, one each and in that order, it is FAILED.
pub next_run_state-unwound :
    (spec : Spec) (c : Context) (es : List Event)
    → IsSound c
    → is_terminal c.status ≡ false
    → c.compensating ≡ true
    → UnwindsAll es (compensation_order spec c)
    → (next_run_state spec c
        ≡ (if is_empty (compensation_order spec c) then RunState.failed else RunState.compensating))
      × (next_run_state spec (apply_all c es) ≡ RunState.failed)
unfolding next_run_state
next_run_state-unwound spec c es s unended unwinding u =
    let (same, still) = status-UnwindsAll (compensation_order spec c) c es u in
    let done = compensation_order-apply_all spec (compensation_order spec c) c es s refl u in
    (simp (unended, unwinding), simp (same, unended, still, unwinding, done))
