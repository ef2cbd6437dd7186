-- ===== src/Spec/Order/Follows.antt =====
-- `topological_order` puts each id after its needs.
use nutanix_hack.Prelude.{
  ℕ, suc, ap, ◌+◌, ◌≡◌, ◌∙◌, refl, sym, subst, true, false, String, Option, none, some, List, [],
  ◌∷◌, arith, length, ◌==◌, ◌||◌, contains, Distinct, str_eq, eq_iff, Bool-cases, Option-cases, inl,
  inr,
}
use nutanix_hack.Prelude.Int.{ℤ, pos, negsuc}
use nutanix_hack.Prelude.Dict
use nutanix_hack.Prelude.Dict.{Dict}
use nutanix_hack.Spec.Cycle.{Edges}
use nutanix_hack.Spec.Order.{
  Waits, in_order, no_waits, count_needs, count_all, children_of, add_one, is_zero, roots, sort_ids,
  if_complete, topological_order,
}
use nutanix_hack.Spec.Order.Release.{count, missing, Counted, Settled}
use nutanix_hack.Spec.Order.Round.{Dependents, Follows, sort_queue-Continues, sorted-Settled}
use nutanix_hack.Spec.Order.Needs.{
  total, keys, total-none, total-some, contains-keys, children-count_all, indegree-count_all,
}

contains-keys-set {ℓ} :
    {V : Type ℓ} (d : Dict V) (k j : String) (v : V)
    → contains (keys (Dict.set d k v)) j ≡ (str_eq k j || contains (keys d) j)
unfolding Dict.set
contains-keys-set [] k j v = ground arith
contains-keys-set ((i, w) ∷ d) k j v = ground (arith, contains-keys-set d k j v, eq_iff i k)

set-Distinct {ℓ} :
    {V : Type ℓ} (d : Dict V) (k : String) (v : V)
    → Distinct (keys d)
    → Distinct (keys (Dict.set d k v))
unfolding Dict.set
set-Distinct [] k v h = (refl, tt)
set-Distinct ((i, w) ∷ d) k v h = elim (Bool-cases (str_eq i k)) [
  | inl e ↦ rw e h
  | inr e ↦ rw e (
    ground (arith, contains-keys-set d k i v, h.0, e, eq_iff k i, eq_iff i k),
    set-Distinct d k v h.1,
  )
]

count_needs-Distinct :
    (sid : String) (needs : List String) (w after : Waits)
    → count_needs sid needs w ≡ some after
    → Distinct (keys w.indegree)
    → Distinct (keys after.indegree)
unfolding count_needs
count_needs-Distinct sid [] w after h d = let same : w ≡ after = cc h in rw (sym same) d
count_needs-Distinct sid (dep ∷ needs) w after h d =
    elim (Option-cases (Dict.get w.dependents dep)) [
      | inl e ↦ absurd (cc (rw (e, count_needs) at h))
      | inr (children, e) ↦
          count_needs-Distinct sid needs _ after (rw (e, count_needs) at h)
            (set-Distinct w.indegree sid (add_one (Dict.get w.indegree sid)) d)
    ]

pub count_all-Distinct :
    (edges : Edges) (w after : Waits)
    → count_all edges w ≡ some after
    → Distinct (keys w.indegree)
    → Distinct (keys after.indegree)
unfolding count_all
count_all-Distinct [] w after h d = let same : w ≡ after = cc h in rw (sym same) d
count_all-Distinct ((sid, needs) ∷ edges) w after h d =
    elim (Option-cases (count_needs sid needs w)) [
      | inl e ↦ absurd (cc (rw (e, count_all) at h))
      | inr (mid, e) ↦
          count_all-Distinct edges mid after (rw (e, count_all) at h)
            (count_needs-Distinct sid needs w mid e d)
    ]

contains-roots :
    (d : Dict ℤ) (k : String) → contains (keys d) k ≡ false → contains (roots d) k ≡ false
unfolding roots
contains-roots [] k h = refl
contains-roots ((i, v) ∷ d) k h = ground (arith, contains-roots d k)

roots-Distinct : (d : Dict ℤ) → Distinct (keys d) → Distinct (roots d)
unfolding roots
roots-Distinct [] h = tt
roots-Distinct ((i, v) ∷ d) h = elim (Bool-cases (is_zero v)) [
  | inl e ↦ rw e (contains-roots d i h.0, roots-Distinct d h.1)
  | inr e ↦ rw e (roots-Distinct d h.1)
]

is_zero-zero : (v : ℤ) → is_zero v ≡ true → v ≡ pos 0
is_zero-zero (pos n) h = let z : n ≡ 0 = ground (arith, h) in ap (λ m. pos m) z
is_zero-zero (negsuc n) h = cc h

get-roots :
    (d : Dict ℤ) (k : String)
    → Distinct (keys d)
    → contains (roots d) k ≡ true
    → Dict.get d k ≡ some (pos 0)
unfolding roots Dict.get
get-roots [] k h m = cc m
get-roots ((i, v) ∷ d) k h m = elim (Bool-cases (str_eq i k)) [
  | inl e ↦ elim (Bool-cases (is_zero v)) [
    | inl z ↦ rw e (ap (λ x. some x) (is_zero-zero v z))
    | inr z ↦
        let id : i ≡ k = ground (arith, eq_iff i k) in
        let apart : contains (keys d) k ≡ false = cc (h.0, id) in
        absurd (cc (contains-roots d k apart, rw z at m))
  ]
  | inr e ↦ rw e (get-roots d k h.1 (ground (arith, m, e)))
]

pub keys-no_waits : (edges : Edges) → keys (no_waits edges).indegree ≡ keys edges
unfolding no_waits
keys-no_waits [] = refl
keys-no_waits ((sid, needs) ∷ edges) = ap (λ ks. sid ∷ ks) (keys-no_waits edges)

no_waits-zero :
    (edges : Edges) (k : String) (needs : List String)
    → Dict.get edges k ≡ some needs
    → Dict.get (no_waits edges).indegree k ≡ some (pos 0)
unfolding no_waits Dict.get
no_waits-zero [] k needs h = cc h
no_waits-zero ((sid, ns) ∷ edges) k needs h = elim (Bool-cases (str_eq sid k)) [
  | inl e ↦ rw e refl
  | inr e ↦ rw e (no_waits-zero edges k needs (rw e at h))
]

no_waits-children :
    (edges : Edges) (s : String) → children_of (Dict.get (no_waits edges).dependents s) ≡ []
unfolding no_waits Dict.get
no_waits-children [] s = refl
no_waits-children ((sid, ns) ∷ edges) s = elim (Bool-cases (str_eq sid s)) [
  | inl e ↦ rw e refl
  | inr e ↦ rw e (no_waits-children edges s)
]

missing-all : (needs : List String) → missing [] needs ≡ length needs
unfolding missing
missing-all [] = refl
missing-all (n ∷ needs) = ap suc (missing-all needs)

pub started-Dependents :
    (edges : Edges) (w : Waits)
    → Distinct (keys edges)
    → count_all edges (no_waits edges) ≡ some w
    → Dependents edges w.dependents
unfolding count
started-Dependents edges w d h = record {
  needed = λ sid c needs e.
      let counted = children-count_all edges (no_waits edges) w c sid h in
      counted
      ∙ rw (no_waits-children edges sid) (omega (arith, total-some (count sid) c needs edges d e));
  known = λ sid c e.
      let counted = children-count_all edges (no_waits edges) w c sid h in
      counted
      ∙ rw (no_waits-children edges sid)
          (omega (arith, total-none (count sid) c edges (contains-keys edges c e)));
}

pub started-Counted :
    (edges : Edges) (w : Waits)
    → Distinct (keys edges)
    → count_all edges (no_waits edges) ≡ some w
    → Counted edges [] [] w.indegree
unfolding count
started-Counted edges w d h = record {
  left = λ c needs e.
      let counted =
        indegree-count_all edges (no_waits edges) w c 0 h (no_waits-zero edges c needs e) in
      let all : 0 + total length c edges ≡ missing [] needs + 0 =
        omega (arith, total-some length c needs edges d e, missing-all needs) in
      counted ∙ ap (λ m. some (pos m)) all;
  known = λ c e. refl;
}

pub started-Settled :
    (w : Waits) → Distinct (keys w.indegree) → Settled [] (sort_ids (roots w.indegree)) w.indegree
started-Settled w d = sorted-Settled [] (roots w.indegree) w.indegree (record {
  queued = λ k q. get-roots w.indegree k d q;
  ordered = λ k o. absurd (cc o);
  once = roots-Distinct w.indegree d;
  apart = λ k q. refl;
})

-- Complete, and in an order that follows the needs.
abbrev pub IsSorted : Edges → List String → Type 0
IsSorted edges ids = (length ids ≡ length edges) × Follows edges [] ids

-- An order that was answered is all of what the loop came to.
completed :
    (n : ℕ) (answer : Option (List String)) (ids : List String)
    → if_complete n answer ≡ in_order ids
    → (answer ≡ some ids) × (length ids ≡ n)
completed n none ids h = absurd (cc h)
completed n (some order) ids h = elim (Bool-cases (length order == n)) [
  | inl e ↦
      let same : order ≡ ids = cc (rw e at h) in
      let all : length order ≡ n = ground (arith, e) in
      (ap (λ x. some x) same, subst (λ x. length x ≡ n) same all)
  | inr e ↦ absurd (cc (rw e at h))
]

-- What an order that is answered is.
pub topological_order-IsSorted :
    (edges : Edges) (ids : List String)
    → Distinct (keys edges)
    → topological_order edges ≡ in_order ids
    → IsSorted edges ids
unfolding topological_order
topological_order-IsSorted edges ids d h = elim (Option-cases (count_all edges (no_waits edges))) [
  | inl e ↦ absurd (cc (rw e at h))
  | inr (w, e) ↦
      let (answer, all) = completed (length edges) _ ids (rw e at h) in
      let ks : Distinct (keys w.indegree) =
        count_all-Distinct edges (no_waits edges) w e (rw (keys-no_waits edges) d) in
      let loop =
        sort_queue-Continues (length edges) edges w.dependents w.indegree
          (sort_ids (roots w.indegree)) [] [] ids (started-Dependents edges w d e)
          (started-Counted edges w d e) (started-Settled w ks) answer in
      (all, subst (Follows edges []) (sym loop.all) loop.follows)
]
