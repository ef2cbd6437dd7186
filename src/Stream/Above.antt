-- ===== src/Stream/Above.antt =====
-- The events above a seq in a log without gaps, for engine/streaming.py.
use nutanix_hack.Prelude.{
  ℕ, suc, ◌≤◌, ◌≡◌, refl, sym, ap, ◌∙◌, false, List, [], ◌∷◌, ◌++◌, arith, ltb, Bool-cases, inl,
  inr,
}
use nutanix_hack.Replay.State.{Event}
use nutanix_hack.Replay.Fold.{sort_events, insert_event}
use nutanix_hack.Service.Gapless.{Numbered}
use nutanix_hack.Stream.{above, last_of}

above-all : (k n : ℕ) (es : List Event) → Numbered k es → n ≤ k → above n es ≡ es
unfolding above
above-all k n [] h le = refl
above-all k n (e ∷ es) h le = ground (arith, h.0, above-all (suc k) n es h.1)

insert_event-above :
    (e : Event) (k n : ℕ) (es : List Event)
    → Numbered k es
    → e.seq ≤ k
    → insert_event e (above n es) ≡ e ∷ above n es
unfolding above insert_event
insert_event-above e k n [] h le = refl
insert_event-above e k n (f ∷ es) h le =
    ground (arith, h.0, insert_event-above e (suc k) n es h.1 (omega arith))

pub sort_events-above :
    (k n : ℕ) (es : List Event) → Numbered k es → sort_events (above n es) ≡ above n es
unfolding above sort_events
sort_events-above k n [] h = refl
sort_events-above k n (e ∷ es) h = ground (
  arith,
  sort_events-above (suc k) n es h.1,
  insert_event-above e (suc k) n es h.1 (omega (arith, h.0)),
)

last_of_grows : (k n : ℕ) (es : List Event) → Numbered k es → n ≤ last_of n (above n es)
unfolding above last_of
last_of_grows k n [] h = omega arith
last_of_grows k n (e ∷ es) h = elim (Bool-cases (ltb n e.seq)) [
  | inl l ↦
      let all : above n es ≡ es = above-all (suc k) n es h.1 (ground (arith, h.0)) in
      let same : above e.seq es ≡ es = above-all (suc k) e.seq es h.1 (omega (arith, h.0)) in
      let more : e.seq ≤ last_of e.seq es = rw same at (last_of_grows (suc k) e.seq es h.1) in
      rw (l, all) (ground arith)
  | inr l ↦ rw l (last_of_grows (suc k) n es h.1)
]

pub none_above :
    (k n : ℕ) (es : List Event) → Numbered k es → above (last_of n (above n es)) es ≡ []
unfolding above last_of
none_above k n [] h = refl
none_above k n (e ∷ es) h = elim (Bool-cases (ltb n e.seq)) [
  | inl l ↦
      let all : above n es ≡ es = above-all (suc k) n es h.1 (ground (arith, h.0)) in
      let same : above e.seq es ≡ es = above-all (suc k) e.seq es h.1 (omega (arith, h.0)) in
      let more : e.seq ≤ last_of e.seq es = rw same at (last_of_grows (suc k) e.seq es h.1) in
      let done : above (last_of e.seq es) es ≡ [] = rw same at (none_above (suc k) e.seq es h.1) in
      let stop : last_of n (above n (e ∷ es)) ≡ last_of e.seq es = rw (l, all) refl in
      let rest : above (last_of e.seq es) (e ∷ es) ≡ [] = ground (arith, more, done) in
      ap (λ m. above m (e ∷ es)) stop ∙ rest
  | inr l ↦
      let skip : above n (e ∷ es) ≡ above n es = rw l refl in
      let rest : above (last_of n (above n es)) (e ∷ es) ≡ [] =
        ground (arith, l, last_of_grows (suc k) n es h.1, none_above (suc k) n es h.1) in
      ap (λ xs. above (last_of n xs) (e ∷ es)) skip ∙ rest
]

Numbered-left : (k : ℕ) (es more : List Event) → Numbered k (es ++ more) → Numbered k es
Numbered-left k [] more h = tt
Numbered-left k (e ∷ es) more h = (h.0, Numbered-left (suc k) es more h.1)

pub above-append :
    (k n : ℕ) (es more : List Event)
    → Numbered k (es ++ more)
    → above n (es ++ more) ≡ above n es ++ above (last_of n (above n es)) (es ++ more)
unfolding above last_of
above-append k n [] more h = refl
above-append k n (e ∷ es) more h =
    let left = Numbered-left (suc k) es more h.1 in
    elim (Bool-cases (ltb n e.seq)) [
      | inl l ↦
          let all : above n es ≡ es = above-all (suc k) n es left (ground (arith, h.0)) in
          let both : above n (es ++ more) ≡ es ++ more =
            above-all (suc k) n (es ++ more) h.1 (ground (arith, h.0)) in
          let same : above e.seq es ≡ es = above-all (suc k) e.seq es left (omega (arith, h.0)) in
          let same_both : above e.seq (es ++ more) ≡ es ++ more =
            above-all (suc k) e.seq (es ++ more) h.1 (omega (arith, h.0)) in
          let past : e.seq ≤ last_of e.seq es = rw same at (last_of_grows (suc k) e.seq es left) in
          let split_at : es ++ more ≡ es ++ above (last_of e.seq es) (es ++ more) =
            rw (same_both, same) at (above-append (suc k) e.seq es more h.1) in
          let passed : ltb (last_of e.seq es) e.seq ≡ false = ground (arith, past) in
          let stop : last_of n (above n (e ∷ es)) ≡ last_of e.seq es = rw (l, all) refl in
          let here : above n (e ∷ es) ≡ e ∷ es = rw (l, all) refl in
          let whole : above n (e ∷ es ++ more) ≡ e ∷ es ++ more = rw (l, both) refl in
          let skipped : above (last_of e.seq es) (e ∷ es ++ more)
              ≡ above (last_of e.seq es) (es ++ more) =
            rw passed refl in
          let ends : above (last_of n (above n (e ∷ es))) (e ∷ es ++ more)
              ≡ above (last_of e.seq es) (es ++ more) =
            ap (λ m. above m (e ∷ es ++ more)) stop ∙ skipped in
          whole ∙ ap (λ xs. e ∷ xs) split_at ∙ sym (λ i. here i ++ ends i)
      | inr l ↦
          let passed : ltb (last_of n (above n es)) e.seq ≡ false =
            ground (arith, l, last_of_grows (suc k) n es left) in
          let skip : above n (e ∷ es) ≡ above n es = rw l refl in
          let skip_both : above n (e ∷ es ++ more) ≡ above n (es ++ more) = rw l refl in
          let skipped : above (last_of n (above n es)) (e ∷ es ++ more)
              ≡ above (last_of n (above n es)) (es ++ more) =
            rw passed refl in
          let ends : above (last_of n (above n (e ∷ es))) (e ∷ es ++ more)
              ≡ above (last_of n (above n es)) (es ++ more) =
            ap (λ xs. above (last_of n xs) (e ∷ es ++ more)) skip ∙ skipped in
          skip_both ∙ above-append (suc k) n es more h.1 ∙ sym (λ i. skip i ++ ends i)
    ]
