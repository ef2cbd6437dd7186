-- ===== src/Spec/Order/Open.antt =====
-- What Kahn's algorithm has not ordered yet: an id that waits for nothing is queued or in order.
use nutanix_hack.Prelude.{
  ℕ, suc, ◌≤◌, ◌≡◌, refl, true, false, ◌||◌, ◌==◌, String, some, List, [], ◌∷◌, ◌++◌, arith, length,
  contains, contains-append, Distinct, str_eq, eq_iff, eq_refl, if◌then◌else◌, Bool-cases, inl, inr,
}
use nutanix_hack.Prelude.Int.{ℤ, pos}
use nutanix_hack.Prelude.Dict
use nutanix_hack.Prelude.Dict.{Dict}
use nutanix_hack.Spec.Cycle.{Edges, ids_in}
use nutanix_hack.Spec.Order.{release, sort_ids}
use nutanix_hack.Spec.Order.Release.{Counted, child_waits, released-Counted}
use nutanix_hack.Spec.Order.Round.{contains-sort_ids}

-- A list without the first place of `x`.
abbrev drop_id : String → List String → List String
drop_id x [] = []
drop_id x (y ∷ ys) = let rest = drop_id x ys in if str_eq y x then ys else y ∷ rest

length-drop_id :
    (x : String) (ys : List String) → contains ys x ≡ true → suc (length (drop_id x ys)) ≡ length ys
length-drop_id x [] h = cc h
length-drop_id x (y ∷ ys) h = ground (arith, h, length-drop_id x ys)

contains-drop_id :
    (x : String) (ys : List String) (k : String)
    → str_eq x k ≡ false
    → contains ys k ≡ true
    → contains (drop_id x ys) k ≡ true
contains-drop_id x [] k apart h = cc h
contains-drop_id x (y ∷ ys) k apart h =
    ground (arith, h, apart, contains-drop_id x ys k, eq_iff y x, eq_iff y k, eq_iff x k)

-- Distinct ids that are all in a list are no more than that list has.
pub Distinct-length :
    (xs ys : List String)
    → Distinct xs
    → ((k : String) → contains xs k ≡ true → contains ys k ≡ true)
    → length xs ≤ length ys
Distinct-length [] ys d h = omega arith
Distinct-length (x ∷ xs) ys d h =
    let here = h x (rw (eq_refl x) refl) in
    let rest = λ (k : String) (m : contains xs k ≡ true).
      let apart : str_eq x k ≡ false = ground (arith, d.0, m, eq_iff x k) in
      contains-drop_id x ys k apart (h k (rw apart m)) in
    let fewer = Distinct-length xs (drop_id x ys) d.1 rest in
    omega (arith, fewer, length-drop_id x ys here)

pub record Open (edges : Edges) (placed queue : List String) (indegree : Dict ℤ) : Type 0 where
  pub ready :
      (k : String)
      → Dict.get indegree k ≡ some (pos 0)
      → (contains placed k || contains queue k) ≡ true
  pub known : (k : String) (v : ℤ) → Dict.get indegree k ≡ some v → contains (ids_in edges) k ≡ true

-- One more value for an id.
pub set-known :
    (edges : Edges) (indegree : Dict ℤ) (sid : String) (u : ℤ)
    → contains (ids_in edges) sid ≡ true
    → ((k : String) (v : ℤ) → Dict.get indegree k ≡ some v → contains (ids_in edges) k ≡ true)
    → (k : String) (v : ℤ) → Dict.get (Dict.set indegree sid u) k ≡ some v
    → contains (ids_in edges) k ≡ true
set-known edges indegree sid u m known k v z = elim (Bool-cases (str_eq sid k)) [
  | inl e ↦ let same : sid ≡ k = (eq_iff sid k).0 e in cc (same, m)
  | inr e ↦ known k v (rw (Dict.get-set indegree sid k u, e) at z)
]

one-Open :
    (edges : Edges) (placed queue : List String) (indegree : Dict ℤ) (child : String) (n : ℕ)
    → Open edges placed queue indegree
    → Dict.get indegree child ≡ some (pos (suc n))
    → Open edges placed
        (if n == 0 then queue ++ child ∷ [] else queue)
        (Dict.set indegree child (pos n))
one-Open edges placed queue indegree child n o h = record {
  ready = λ k z. elim (Bool-cases (str_eq child k)) [
    | inl e ↦
        let left : some (pos n) ≡ some (pos 0) =
          rw (Dict.get-set indegree child k (pos n), e) at z in
        let none_left : n ≡ 0 = cc left in
        ground (arith, none_left, contains-append queue (child ∷ []) k, e)
    | inr e ↦
        let old = o.ready k (rw (Dict.get-set indegree child k (pos n), e) at z) in
        ground (arith, old, contains-append queue (child ∷ []) k)
  ];
  known = set-known edges indegree child (pos n) (o.known child (pos (suc n)) h) o.known;
}

pub release-Open :
    (edges : Edges) (placed children : List String) (indegree : Dict ℤ) (queue : List String)
    → Counted edges placed children indegree
    → Open edges placed queue indegree
    → Open edges placed (release children indegree queue).1 (release children indegree queue).0
unfolding release
release-Open edges placed [] indegree queue c o = o
release-Open edges placed (child ∷ children) indegree queue c o =
    let (n, h) = child_waits edges placed children indegree child c in
    rw (h, release)
      (release-Open edges placed children (Dict.set indegree child (pos n))
        (if n == 0 then queue ++ child ∷ [] else queue)
        (released-Counted edges placed children indegree child n c h)
        (one-Open edges placed queue indegree child n o h))

pub begin-Open :
    (edges : Edges) (placed queue : List String) (sid : String) (indegree : Dict ℤ)
    → Open edges placed (sid ∷ queue) indegree
    → Open edges (sid ∷ placed) queue indegree
begin-Open edges placed queue sid indegree o = record {
  ready = λ k z. let old = o.ready k z in ground (arith, old);
  known = o.known;
}

pub sorted-Open :
    (edges : Edges) (placed queue : List String) (indegree : Dict ℤ)
    → Open edges placed queue indegree
    → Open edges placed (sort_ids queue) indegree
sorted-Open edges placed queue indegree o = record {
  ready = λ k z. rw (contains-sort_ids queue k) (o.ready k z);
  known = o.known;
}
