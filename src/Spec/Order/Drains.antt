-- ===== src/Spec/Order/Drains.antt =====
-- The loop of Kahn's algorithm ends: the queue is empty after one round for each id at most.
use nutanix_hack.Prelude.{
  ℕ, zero, suc, ◌+◌, ◌≤◌, ◌≡◌, ◌∙◌, refl, ap, true, String, Option, some, List, [], ◌∷◌, ◌++◌,
  arith, length, contains, contains-append, Distinct, str_eq, eq_iff, eq_refl, Bool-cases, inl, inr,
}
use nutanix_hack.Prelude.Int.{ℤ, pos}
use nutanix_hack.Prelude.Dict
use nutanix_hack.Prelude.Dict.{Dict}
use nutanix_hack.Spec.Cycle.{Edges, ids_in}
use nutanix_hack.Spec.Order.{release, sort_queue, sort_ids, children_of}
use nutanix_hack.Spec.Order.Release.{Counted, Settled, release-Released}
use nutanix_hack.Spec.Order.Round.{Dependents, begin-Counted, begin-Settled, sorted-Settled}
use nutanix_hack.Spec.Order.Open.{Open, Distinct-length, release-Open, begin-Open, sorted-Open}

-- What is in order is distinct, and ids of the definition.
pub record InOrder (edges : Edges) (placed order : List String) : Type 0 where
  pub once : Distinct placed
  pub ids : (k : String) → contains placed k ≡ true → contains (ids_in edges) k ≡ true
  pub size : length order ≡ length placed
  pub same : (k : String) → contains order k ≡ contains placed k

pub length-ids_in : (edges : Edges) → length (ids_in edges) ≡ length edges
length-ids_in [] = refl
length-ids_in ((sid, needs) ∷ edges) = ap suc (length-ids_in edges)

length-snoc : (xs : List String) (x : String) → length (xs ++ x ∷ []) ≡ suc (length xs)
length-snoc [] x = refl
length-snoc (y ∷ xs) x = ap suc (length-snoc xs x)

more-InOrder :
    (edges : Edges) (placed order queue : List String) (sid : String) (indegree : Dict ℤ)
    → InOrder edges placed order
    → Settled placed (sid ∷ queue) indegree
    → Open edges placed (sid ∷ queue) indegree
    → InOrder edges (sid ∷ placed) (order ++ sid ∷ [])
more-InOrder edges placed order queue sid indegree i s o =
    let here : contains (sid ∷ queue) sid ≡ true = rw (eq_refl sid) refl in
    let id = o.known sid (pos 0) (s.queued sid here) in
    record {
      once = (s.apart sid here, i.once);
      ids = λ k m. elim (Bool-cases (str_eq sid k)) [
        | inl e ↦ let same : sid ≡ k = (eq_iff sid k).0 e in cc (same, id)
        | inr e ↦ i.ids k (rw e at m)
      ];
      size = length-snoc order sid ∙ ap suc i.size;
      same = λ k. ground (arith, contains-append order (sid ∷ []) k, i.same k);
    }

pub bounded :
    (edges : Edges) (placed order : List String)
    → InOrder edges placed order
    → length placed ≤ length edges
bounded edges placed order i =
    let few = Distinct-length placed (ids_in edges) i.once i.ids in
    omega (arith, few, length-ids_in edges)

-- The answer of the loop, and what it leaves: nothing is queued.
pub record Drained (edges : Edges) (answer : Option (List String)) : Type 0 where
  pub ids : List String
  pub placed : List String
  pub answered : answer ≡ some ids
  pub indegree : Dict ℤ
  pub counted : Counted edges placed [] indegree
  pub done : Open edges placed [] indegree
  pub ordered : InOrder edges placed ids

pub sort_queue-Drained :
    (fuel : ℕ) (edges : Edges) (dependents : Dict (List String)) (indegree : Dict ℤ)
    (queue order placed : List String)
    → Dependents edges dependents
    → Counted edges placed [] indegree
    → Settled placed queue indegree
    → Open edges placed queue indegree
    → InOrder edges placed order
    → length edges ≤ fuel + length placed
    → Drained edges (sort_queue fuel dependents indegree queue order)
unfolding sort_queue
sort_queue-Drained fuel edges dependents indegree [] order placed d c s o i h = record {
  ids = order;
  placed = placed;
  answered = refl;
  indegree = indegree;
  counted = c;
  done = o;
  ordered = i;
}
sort_queue-Drained zero edges dependents indegree (sid ∷ queue) order placed d c s o i h =
    let more = more-InOrder edges placed order queue sid indegree i s o in
    let few = bounded edges (sid ∷ placed) (order ++ sid ∷ []) more in
    let no : ⊥ = omega (arith, few, h) in absurd no
sort_queue-Drained (suc fuel) edges dependents indegree (sid ∷ queue) order placed d c s o i h =
    let new = s.apart sid (rw (eq_refl sid) refl) in
    let children = children_of (Dict.get dependents sid) in
    let begun = begin-Counted edges dependents placed sid indegree d c new in
    let (counted, settled) =
      release-Released edges (sid ∷ placed) children indegree queue begun
        (begin-Settled placed queue sid indegree s) in
    let open_ids =
      release-Open edges (sid ∷ placed) children indegree queue begun
        (begin-Open edges placed queue sid indegree o) in
    let after = release children indegree queue in
    sort_queue-Drained fuel edges dependents after.0 (sort_ids after.1) (order ++ sid ∷ [])
      (sid ∷ placed) d counted (sorted-Settled (sid ∷ placed) after.1 after.0 settled)
      (sorted-Open edges (sid ∷ placed) after.1 after.0 open_ids)
      (more-InOrder edges placed order queue sid indegree i s o) (omega (arith, h))
