-- ===== src/Spec/Order/Round.antt =====
-- The loop of Kahn's algorithm: what is taken from the queue has all its needs in order already.
use nutanix_hack.Prelude.{
  ℕ, zero, suc, ◌+◌, ◌≡◌, ◌∙◌, refl, sym, ap, true, false, String, none, some, List, [], ◌∷◌, ◌++◌,
  arith, All, contains, Distinct, str_eq, eq_iff, eq_refl, Bool-cases, inl, inr,
}
use nutanix_hack.Prelude.Int.{ℤ, pos}
use nutanix_hack.Prelude.Dict
use nutanix_hack.Prelude.Dict.{Dict}
use nutanix_hack.Spec.Cycle.{Edges}
use nutanix_hack.Spec.Order.{release, sort_queue, sort_ids, insert_id, children_of}
use nutanix_hack.Spec.Order.Release.{
  Counted, Settled, release-Released, count, missing, missing-cons,
}
use mathlib.Core.List.{append-nil, append_assoc}
use Prim.Native.String.{compare}
use text.Mathlib.Text.{is_lt}

contains-insert_id :
    (k : String) (ks : List String) (j : String) → contains (insert_id k ks) j ≡ contains (k ∷ ks) j
unfolding insert_id
contains-insert_id k [] j = refl
contains-insert_id k (i ∷ ks) j = elim (Bool-cases (is_lt (compare i k))) [
  | inl e ↦ rw e (ground (arith, contains-insert_id k ks j))
  | inr e ↦ rw e refl
]

pub contains-sort_ids : (ks : List String) (j : String) → contains (sort_ids ks) j ≡ contains ks j
unfolding sort_ids
contains-sort_ids [] j = refl
contains-sort_ids (k ∷ ks) j =
    rw (contains-insert_id k (sort_ids ks) j, contains-sort_ids ks j) refl

insert_id-Distinct :
    (k : String) (ks : List String)
    → contains ks k ≡ false
    → Distinct ks
    → Distinct (insert_id k ks)
unfolding insert_id
insert_id-Distinct k [] h d = (refl, tt)
insert_id-Distinct k (i ∷ ks) h d = elim (Bool-cases (is_lt (compare i k))) [
  | inl e ↦
      let here : contains (insert_id k ks) i ≡ false =
        ground (arith, contains-insert_id k ks i, d.0, eq_iff i k, eq_iff k i, h) in
      rw e (here, insert_id-Distinct k ks (ground (arith, h)) d.1)
  | inr e ↦ rw e (h, d)
]

pub sort_ids-Distinct : (ks : List String) → Distinct ks → Distinct (sort_ids ks)
unfolding sort_ids
sort_ids-Distinct [] d = tt
sort_ids-Distinct (k ∷ ks) d =
    insert_id-Distinct k (sort_ids ks) (contains-sort_ids ks k ∙ d.0) (sort_ids-Distinct ks d.1)

-- The dependents of an id are the ids that need it, as often as they do.
pub record Dependents (edges : Edges) (dependents : Dict (List String)) : Type 0 where
  pub needed :
      (sid c : String) (needs : List String)
      → Dict.get edges c ≡ some needs
      → count c (children_of (Dict.get dependents sid)) ≡ count sid needs
  pub known :
      (sid c : String)
      → Dict.get edges c ≡ none
      → count c (children_of (Dict.get dependents sid)) ≡ 0

-- The id at the head of the queue is put in order.
pub begin-Counted :
    (edges : Edges) (dependents : Dict (List String)) (order : List String) (sid : String)
    (indegree : Dict ℤ)
    → Dependents edges dependents
    → Counted edges order [] indegree
    → contains order sid ≡ false
    → Counted edges (sid ∷ order) (children_of (Dict.get dependents sid)) indegree
unfolding count
begin-Counted edges dependents order sid indegree d c new = record {
  left = λ k needs e.
      let old = c.left k needs e in
      let total : missing order needs + 0
          ≡ missing (sid ∷ order) needs + count k (children_of (Dict.get dependents sid)) =
        omega (arith, missing-cons sid order needs new, d.needed sid k needs e) in
      old ∙ ap (λ n. some (pos n)) total;
  known = λ k e. d.known sid k e;
}

pub begin-Settled :
    (order queue : List String) (sid : String) (indegree : Dict ℤ)
    → Settled order (sid ∷ queue) indegree
    → Settled (sid ∷ order) queue indegree
begin-Settled order queue sid indegree s = record {
  queued = λ k q. s.queued k (ground (arith, q));
  ordered = λ k o. elim (Bool-cases (str_eq sid k)) [
    | inl e ↦ s.queued k (rw e refl)
    | inr e ↦ s.ordered k (rw e at o)
  ];
  once = s.once.1;
  apart = λ k q. ground (arith, s.apart k, q, s.once.0, eq_iff sid k);
}

pub sorted-Settled :
    (order queue : List String) (indegree : Dict ℤ)
    → Settled order queue indegree
    → Settled order (sort_ids queue) indegree
sorted-Settled order queue indegree s = record {
  queued = λ k q. s.queued k (sym (contains-sort_ids queue k) ∙ q);
  ordered = s.ordered;
  once = sort_ids-Distinct queue s.once;
  apart = λ k q. s.apart k (sym (contains-sort_ids queue k) ∙ q);
}

-- No need is missing.
pub missing-none :
    (order needs : List String) → missing order needs ≡ 0 → All (λ n. contains order n ≡ true) needs
unfolding missing
missing-none order [] h = tt
missing-none order (n ∷ needs) h = elim (Bool-cases (contains order n)) [
  | inl e ↦ (e, missing-none order needs (rw e at h))
  | inr e ↦ absurd (omega (arith, rw e at h))
]

-- Each id has its needs before it, and is not there before; `placed` is what is in order already.
abbrev pub Follows : Edges → List String → List String → Type 0
Follows edges placed [] = Unit {0}
Follows edges placed (k ∷ ks) =
    (contains placed k ≡ false)
    × ((needs : List String)
        → Dict.get edges k ≡ some needs
        → All (λ n. contains placed n ≡ true) needs)
    × Follows edges (k ∷ placed) ks

pub record Continues (edges : Edges) (placed order ids : List String) : Type 0 where
  pub rest : List String
  pub all : ids ≡ order ++ rest
  pub follows : Follows edges placed rest

pub sort_queue-Continues :
    (fuel : ℕ) (edges : Edges) (dependents : Dict (List String)) (indegree : Dict ℤ)
    (queue order placed ids : List String)
    → Dependents edges dependents
    → Counted edges placed [] indegree
    → Settled placed queue indegree
    → sort_queue fuel dependents indegree queue order ≡ some ids
    → Continues edges placed order ids
unfolding sort_queue count
sort_queue-Continues fuel edges dependents indegree [] order placed ids d c s h = record {
  rest = [];
  all = cc (h, append-nil order);
  follows = tt;
}
sort_queue-Continues zero edges dependents indegree (sid ∷ queue) order placed ids d c s h = cc h
sort_queue-Continues (suc fuel) edges dependents indegree (sid ∷ queue) order placed ids d c s h =
    let new = s.apart sid (rw (eq_refl sid) refl) in
    let children = children_of (Dict.get dependents sid) in
    let (counted, settled) =
      release-Released edges (sid ∷ placed) children indegree queue
        (begin-Counted edges dependents placed sid indegree d c new)
        (begin-Settled placed queue sid indegree s) in
    let after = release children indegree queue in
    let next =
      sort_queue-Continues fuel edges dependents after.0 (sort_ids after.1) (order ++ sid ∷ [])
        (sid ∷ placed) ids d counted (sorted-Settled (sid ∷ placed) after.1 after.0 settled) h in
    record {
      rest = sid ∷ next.rest;
      all = next.all ∙ append_assoc order (sid ∷ []) next.rest;
      follows = (
        new,
        (λ needs e.
            let waits = s.queued sid (rw (eq_refl sid) refl) in
            let left = c.left sid needs e in
            let same : missing placed needs + 0 ≡ 0 = cc (waits, left) in
            missing-none placed needs (omega (arith, same))),
        next.follows,
      );
    }
