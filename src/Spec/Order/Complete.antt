-- ===== src/Spec/Order/Complete.antt =====
-- The order of `topological_order` is complete, where the ids can be listed before their needs.
use nutanix_hack.Prelude.{
  ◌≡◌, refl, sym, subst, true, ◌==◌, String, Option, List, [], ◌∷◌, arith, length, contains,
  Distinct, str_eq, eq_iff, eq_refl, Bool-cases, inl, inr,
}
use nutanix_hack.Prelude.Int.{ℤ}
use nutanix_hack.Prelude.Dict.{Dict}
use nutanix_hack.Spec.Cycle.{Edges, ids_in, needs_in}
use nutanix_hack.Spec.Cycle.Places.{ArePlaced}
use nutanix_hack.Spec.Cycle.Acyclic.{Placed}
use nutanix_hack.Spec.Cycle.Reports.{AllAreIds}
use nutanix_hack.Spec.Order.{in_order, if_complete}
use nutanix_hack.Spec.Order.Release.{Counted, count, missing}
use nutanix_hack.Spec.Order.Open.{Open, Distinct-length}
use nutanix_hack.Spec.Order.Drains.{Drained, bounded, length-ids_in}
use nutanix_hack.Spec.Order.Starts.{get_id, needs-AreIds}

none-missing :
    (order needs : List String)
    → ((n : String) → contains needs n ≡ true → contains order n ≡ true)
    → missing order needs ≡ 0
unfolding missing
none-missing order [] h = refl
none-missing order (n ∷ needs) h =
    let here = h n (rw (eq_refl n) refl) in
    rw here (none-missing order needs (λ k m. h k (ground (arith, m))))

-- Ids that can be listed so that each comes before its needs are all in order in the end.
all_placed :
    (edges : Edges) (placed : List String) (indegree : Dict ℤ) (listed : List String)
    → AllAreIds edges
    → Counted edges placed [] indegree
    → Open edges placed [] indegree
    → ArePlaced edges listed
    → (k : String) → contains listed k ≡ true
    → contains (ids_in edges) k ≡ true
    → contains placed k ≡ true
unfolding count
all_placed edges placed indegree [] all c o p k l m = cc l
all_placed edges placed indegree (a ∷ listed) all c o p k l m = elim (Bool-cases (str_eq a k)) [
  | inl e ↦
      let same : a ≡ k = (eq_iff a k).0 e in
      let (needs, there) = get_id edges k m in
      let below = all_placed edges placed indegree listed all c o p.1 in
      let met = λ (n : String) (need : contains needs n ≡ true).
        let asked : contains (needs_in edges k) n ≡ true = rw (there, needs_in) need in
        below n (p.0 n (subst (λ x. contains (needs_in edges x) n ≡ true) (sym same) asked))
          (needs-AreIds edges k needs all there n need) in
      let left = rw (none-missing placed needs met) at (c.left k needs there) in
      ground (arith, o.ready k left)
  | inr e ↦ all_placed edges placed indegree listed all c o p.1 k (rw e at l) m
]

-- Where the ids can be listed, the order is complete.
pub Drained-complete :
    (edges : Edges) (answer : Option (List String))
    → AllAreIds edges
    → Distinct (ids_in edges)
    → Placed edges [] (ids_in edges)
    → Drained edges answer
    → (ids : List String) × (if_complete (length edges) answer ≡ in_order ids)
Drained-complete edges answer all d p q =
    let every = λ (k : String) (m : contains (ids_in edges) k ≡ true).
      all_placed edges q.placed q.indegree p.placed all q.counted q.done p.ordered k (p.covers k m)
        m in
    let enough = Distinct-length (ids_in edges) q.placed d every in
    let few = bounded edges q.placed q.ids q.ordered in
    let size : length q.ids ≡ length edges =
      omega (arith, enough, few, length-ids_in edges, q.ordered.size) in
    let complete : (length q.ids == length edges) ≡ true = ground (arith, size) in
    (q.ids, rw (q.answered, complete) refl)
