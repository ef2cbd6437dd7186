-- ===== src/Spec/Order/Sorts.antt =====
-- `topological_order` decides, as `detect_cycle` does, whether a definition can be put in order.
use nutanix_hack.Prelude.{
  ◌≡◌, ◌∙◌, ◌⊎◌, refl, ap, true, String, Option, none, some, List, [], ◌∷◌, arith, length, contains,
  Distinct, inl, inr,
}
use nutanix_hack.Prelude.Int.{ℤ}
use nutanix_hack.Prelude.Dict
use nutanix_hack.Prelude.Dict.{Dict}
use nutanix_hack.Spec.Validate.{cycle}
use nutanix_hack.Spec.Cycle.{Edges, ids_in, detect_cycle}
use nutanix_hack.Spec.Cycle.Acyclic.{detect_cycle-Placed}
use nutanix_hack.Spec.Cycle.Reports.{AllAreIds}
use nutanix_hack.Spec.Cycle.Decides.{detect_cycle_decides}
use nutanix_hack.Spec.Order.{
  Waits, in_order, cycle_found, no_waits, count_all, roots, sort_ids, sort_queue, topological_order,
}
use nutanix_hack.Spec.Order.Needs.{keys}
use nutanix_hack.Spec.Order.Round.{contains-sort_ids}
use nutanix_hack.Spec.Order.Drains.{Drained, sort_queue-Drained}
use nutanix_hack.Spec.Order.Starts.{
  count_all-Counts, AllAreIds-PartIds, no_waits-HasKeys, no_waits-known, roots-get,
}
use nutanix_hack.Spec.Order.Complete.{Drained-complete}
use nutanix_hack.Spec.Order.Loops.{Drained-loop}
use nutanix_hack.Spec.Order.Follows.{
  IsSorted, topological_order-IsSorted, started-Dependents, started-Counted, started-Settled,
  count_all-Distinct, keys-no_waits,
}

-- The loop as `topological_order` starts it.
abbrev loop : Edges → Waits → Option (List String)
loop edges w = sort_queue (length edges) w.dependents w.indegree (sort_ids (roots w.indegree)) []

started-Drained :
    (edges : Edges) (w : Waits)
    → Distinct (keys edges)
    → count_all edges (no_waits edges) ≡ some w
    → ((k : String) (v : ℤ) → Dict.get w.indegree k ≡ some v → contains (ids_in edges) k ≡ true)
    → Drained edges (loop edges w)
started-Drained edges w d e known =
    let ks : Distinct (keys w.indegree) =
      count_all-Distinct edges (no_waits edges) w e (rw (keys-no_waits edges) d) in
    sort_queue-Drained (length edges) edges w.dependents w.indegree (sort_ids (roots w.indegree)) []
      [] (started-Dependents edges w d e) (started-Counted edges w d e) (started-Settled w ks)
      (record {
        ready = λ k z. contains-sort_ids (roots w.indegree) k ∙ roots-get w.indegree k z;
        known = known;
      })
      (record { once = tt; ids = λ k m. cc m; size = refl; same = λ k. refl }) (omega arith)

keys-ids_in : (edges : Edges) → keys edges ≡ ids_in edges
keys-ids_in [] = refl
keys-ids_in ((sid, needs) ∷ edges) = ap (λ ks. sid ∷ ks) (keys-ids_in edges)

-- If the ids of the steps are distinct and each need is the id of a step, then either detect_cycle
-- reports nothing, and topological_order answers with an order that has as many ids as there are
-- steps, no id twice, and each id after all that its step needs; or detect_cycle reports a cycle,
-- and topological_order raises its error for a cycle. The loop never runs out of its one round for
-- each id, and no need raises a KeyError.
pub topological_order_decides :
    (edges : Edges)
    → Distinct (ids_in edges)
    → AllAreIds edges
    → ((detect_cycle edges ≡ none)
        × (ids : List String) × (topological_order edges ≡ in_order ids)
        × IsSorted edges ids)
      ⊎ ((xs : List String) × (detect_cycle edges ≡ some (cycle xs))
          × (topological_order edges ≡ cycle_found))
unfolding topological_order
topological_order_decides edges once all =
    let d : Distinct (keys edges) = rw (keys-ids_in edges) once in
    let counts =
      count_all-Counts edges edges (no_waits edges)
        (AllAreIds-PartIds edges edges all d (λ s needs e. e)) (no_waits-HasKeys edges)
        (no_waits-known edges) in
    let q = started-Drained edges counts.waits d counts.answered counts.known in
    elim (detect_cycle_decides edges all) [
      | inl (e, none_loops) ↦
          let (ids, answer) =
            Drained-complete edges (loop edges counts.waits) all once (detect_cycle-Placed edges e)
              q in
          let sorted : topological_order edges ≡ in_order ids = rw counts.answered answer in
          inl (e, ids, sorted, topological_order-IsSorted edges ids d sorted)
      | inr (xs, e, loops) ↦
          let stuck =
            Drained-loop edges (loop edges counts.waits) xs q
              (λ ids h. topological_order-IsSorted edges ids d (rw counts.answered h)) loops in
          inr (xs, e, rw counts.answered stuck)
    ]
