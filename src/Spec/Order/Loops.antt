-- ===== src/Spec/Order/Loops.antt =====
-- The order of `topological_order` is not complete, where the needs go round in a circle.
use nutanix_hack.Prelude.{
  ◌≡◌, ◌∙◌, refl, true, ◌==◌, String, Option, some, List, [], ◌∷◌, arith, length, contains, str_eq,
  eq_iff, All, Bool-cases, Option-cases, inl, inr,
}
use nutanix_hack.Prelude.Dict
use nutanix_hack.Prelude.Dict.{Dict}
use nutanix_hack.Spec.Cycle.{Edges, ids_in, needs_in}
use nutanix_hack.Spec.Cycle.Places.{AllPlaced, ArePlaced}
use nutanix_hack.Spec.Cycle.Acyclic.{Placed}
use nutanix_hack.Spec.Cycle.Decides.{IsLoop, no-IsLoop}
use nutanix_hack.Spec.Order.{in_order, cycle_found, if_complete}
use nutanix_hack.Spec.Order.Round.{Follows}
use nutanix_hack.Spec.Order.Open.{Distinct-length}
use nutanix_hack.Spec.Order.Drains.{Drained, length-ids_in}
use nutanix_hack.Spec.Order.Follows.{IsSorted}

All-contains :
    (placed needs : List String)
    → All (λ n. contains placed n ≡ true) needs
    → (n : String) → contains needs n ≡ true
    → contains placed n ≡ true
All-contains placed [] h n m = cc m
All-contains placed (k ∷ needs) h n m = elim (Bool-cases (str_eq k n)) [
  | inl e ↦ let same : k ≡ n = (eq_iff k n).0 e in cc (same, h.0)
  | inr e ↦ All-contains placed needs h.1 n (rw e at m)
]

placed_next :
    (edges : Edges) (placed : List String) (k : String)
    → ((needs : List String)
        → Dict.get edges k ≡ some needs
        → All (λ n. contains placed n ≡ true) needs)
    → AllPlaced edges k placed
placed_next edges placed k met n need = elim (Option-cases (Dict.get edges k)) [
  | inl e ↦ absurd (cc (rw (e, needs_in) at need))
  | inr (needs, e) ↦ All-contains placed needs (met needs e) n (rw (e, needs_in) at need)
]

-- What an order places, each id before its needs.
Follows-Placed :
    (edges : Edges) (placed ks : List String)
    → ArePlaced edges placed
    → Follows edges placed ks
    → Placed edges placed ks
Follows-Placed edges placed [] p f = record {
  placed = placed;
  ordered = p;
  keeps = λ d m. m;
  covers = λ d m. cc m;
}
Follows-Placed edges placed (k ∷ ks) p (new, met, rest) =
    let later = Follows-Placed edges (k ∷ placed) ks (placed_next edges placed k met, p) rest in
    record {
      placed = later.placed;
      ordered = later.ordered;
      keeps = λ d m. later.keeps d (ground (arith, m));
      covers = λ d m. elim (Bool-cases (str_eq k d)) [
        | inl e ↦ later.keeps d (rw e refl)
        | inr e ↦ later.covers d (rw e at m)
      ];
    }

-- As many ids as the definition has are all of them.
all_covered :
    (edges : Edges) (answer : Option (List String)) (q : Drained edges answer)
    → length q.ids ≡ length edges
    → (k : String) → contains (ids_in edges) k ≡ true
    → contains q.ids k ≡ true
all_covered edges answer q size k m = elim (Bool-cases (contains q.placed k)) [
  | inl e ↦ q.ordered.same k ∙ e
  | inr e ↦
      let more =
        Distinct-length (k ∷ q.placed) (ids_in edges) (e, q.ordered.once)
          (λ j h. elim (Bool-cases (str_eq k j)) [
            | inl s ↦ let same : k ≡ j = (eq_iff k j).0 s in cc (same, m)
            | inr s ↦ q.ordered.ids j (rw s at h)
          ]) in
      let no : ⊥ = omega (arith, more, size, q.ordered.size, length-ids_in edges) in absurd no
]

-- Where there is a cycle, the order is not complete.
pub Drained-loop :
    (edges : Edges) (answer : Option (List String)) (xs : List String) (q : Drained edges answer)
    → ((ids : List String) → if_complete (length edges) answer ≡ in_order ids → IsSorted edges ids)
    → IsLoop edges xs
    → if_complete (length edges) answer ≡ cycle_found
Drained-loop edges answer xs q sorted loops = elim (Bool-cases (length q.ids == length edges)) [
  | inl e ↦
      let size : length q.ids ≡ length edges = ground (arith, e) in
      let (all, follows) = sorted q.ids (rw (q.answered, e) refl) in
      let p = Follows-Placed edges [] q.ids tt follows in
      let every : Placed edges [] (ids_in edges) = record {
        placed = p.placed;
        ordered = p.ordered;
        keeps = p.keeps;
        covers = λ d m. p.covers d (all_covered edges answer q size d m);
      } in
      absurd (no-IsLoop edges xs every loops)
  | inr e ↦ rw (q.answered, e) refl
]
