-- ===== src/Spec/Order/Release.antt =====
-- `release`, one round of Kahn's algorithm: what the counts and the queue are after it.
use nutanix_hack.Prelude.{
  ℕ, zero, suc, ◌==◌, ◌+◌, ◌≡◌, refl, append-Distinct, true, false, String, none, some, List, [],
  ◌∷◌, ◌++◌, arith, contains, contains-append, Distinct, str_eq, eq_iff, eq_refl, if◌then◌else◌,
  Bool-cases, Option-cases, inl, inr,
}
use nutanix_hack.Prelude.Int.{ℤ, pos}
use nutanix_hack.Prelude.Dict
use nutanix_hack.Prelude.Dict.{Dict}
use nutanix_hack.Spec.Cycle.{Edges}
use nutanix_hack.Spec.Order.{release}

-- How often `k` is in a list.
unfoldable pub count : String → List String → ℕ
count k [] = 0
count k (j ∷ ks) = let rest = count k ks in if str_eq j k then suc rest else rest

-- How many needs are not in order yet.
unfoldable pub missing : List String → List String → ℕ
missing order [] = 0
missing order (n ∷ needs) =
    let rest = missing order needs in if contains order n then rest else suc rest

pub missing-cons :
    (sid : String) (order needs : List String)
    → contains order sid ≡ false
    → missing order needs ≡ missing (sid ∷ order) needs + count sid needs
unfolding missing count
missing-cons sid order [] h = refl
missing-cons sid order (n ∷ needs) h =
    ground (arith, missing-cons sid order needs h, eq_iff sid n, eq_iff n sid, h)

-- The counts while `children` are still to be released.
pub record Counted (edges : Edges) (order children : List String) (indegree : Dict ℤ) : Type 0 where
  pub left :
      (c : String) (needs : List String)
      → Dict.get edges c ≡ some needs
      → Dict.get indegree c ≡ some (pos (missing order needs + count c children))
  pub known : (c : String) → Dict.get edges c ≡ none → count c children ≡ 0

-- What is queued or in order waits for nothing, is queued once, and is not in order already.
pub record Settled (order queue : List String) (indegree : Dict ℤ) : Type 0 where
  pub queued : (k : String) → contains queue k ≡ true → Dict.get indegree k ≡ some (pos 0)
  pub ordered : (k : String) → contains order k ≡ true → Dict.get indegree k ≡ some (pos 0)
  pub once : Distinct queue
  pub apart : (k : String) → contains queue k ≡ true → contains order k ≡ false

-- What waits for nothing is not the id that still waits.
still_zero :
    (indegree : Dict ℤ) (child k : String) (n m : ℕ)
    → Dict.get indegree child ≡ some (pos (suc n))
    → Dict.get indegree k ≡ some (pos 0)
    → Dict.get (Dict.set indegree child (pos m)) k ≡ some (pos 0)
still_zero indegree child k n m h z = elim (Bool-cases (str_eq child k)) [
  | inl e ↦ let same : child ≡ k = ground (arith, eq_iff child k) in absurd (cc (same, h, z))
  | inr e ↦ rw (Dict.get-set indegree child k (pos m), e) z
]

not_among :
    (xs : List String) (indegree : Dict ℤ) (child : String) (n : ℕ)
    → ((k : String) → contains xs k ≡ true → Dict.get indegree k ≡ some (pos 0))
    → Dict.get indegree child ≡ some (pos (suc n))
    → contains xs child ≡ false
not_among xs indegree child n z h = elim (Bool-cases (contains xs child)) [
  | inl e ↦ absurd (cc (z child e, h))
  | inr e ↦ e
]

kept-Settled :
    (order queue : List String) (indegree : Dict ℤ) (child : String) (n m : ℕ)
    → Settled order queue indegree
    → Dict.get indegree child ≡ some (pos (suc n))
    → Settled order queue (Dict.set indegree child (pos m))
kept-Settled order queue indegree child n m s h = record {
  queued = λ k q. still_zero indegree child k n m h (s.queued k q);
  ordered = λ k q. still_zero indegree child k n m h (s.ordered k q);
  once = s.once;
  apart = s.apart;
}

queued-Settled :
    (order queue : List String) (indegree : Dict ℤ) (child : String)
    → Settled order queue indegree
    → Dict.get indegree child ≡ some (pos 1)
    → Settled order (queue ++ child ∷ []) (Dict.set indegree child (pos 0))
queued-Settled order queue indegree child s h =
    let kept = kept-Settled order queue indegree child 0 0 s h in
    let new = not_among order indegree child 0 s.ordered h in
    record {
      queued = λ k q. elim (Bool-cases (str_eq child k)) [
        | inl e ↦ rw (Dict.get-set indegree child k (pos 0), e) refl
        | inr e ↦ kept.queued k (ground (arith, contains-append queue (child ∷ []) k))
      ];
      ordered = kept.ordered;
      once = append-Distinct queue child s.once (not_among queue indegree child 0 s.queued h);
      apart = λ k q. elim (Bool-cases (str_eq child k)) [
        | inl e ↦ ground (arith, eq_iff child k, new)
        | inr e ↦ s.apart k (ground (arith, contains-append queue (child ∷ []) k))
      ];
    }

suc_right : (a b : ℕ) → a + suc b ≡ suc (a + b)
suc_right a b = omega arith

one-Settled :
    (order queue : List String) (indegree : Dict ℤ) (child : String) (n : ℕ)
    → Settled order queue indegree
    → Dict.get indegree child ≡ some (pos (suc n))
    → Settled order
        (if n == 0 then queue ++ child ∷ [] else queue)
        (Dict.set indegree child (pos n))
one-Settled order queue indegree child zero s h = queued-Settled order queue indegree child s h
one-Settled order queue indegree child (suc n) s h =
    let waits : (suc n == 0) ≡ false = ground arith in
    rw waits (kept-Settled order queue indegree child (suc n) (suc n) s h)

-- A child that is still to be released waits for something.
pub child_waits :
    (edges : Edges) (order children : List String) (indegree : Dict ℤ) (child : String)
    → Counted edges order (child ∷ children) indegree
    → (n : ℕ) × (Dict.get indegree child ≡ some (pos (suc n)))
unfolding count
child_waits edges order children indegree child c = elim (Option-cases (Dict.get edges child)) [
  | inl e ↦
      let none_left = rw (eq_refl child) at (c.known child e) in absurd (omega (arith, none_left))
  | inr (needs, e) ↦
      let n = missing order needs + count child children in
      (
        n,
        rw (eq_refl child, suc_right (missing order needs) (count child children)) at
            (c.left child needs e),
      )
]

pub released-Counted :
    (edges : Edges) (order children : List String) (indegree : Dict ℤ) (child : String) (n : ℕ)
    → Counted edges order (child ∷ children) indegree
    → Dict.get indegree child ≡ some (pos (suc n))
    → Counted edges order children (Dict.set indegree child (pos n))
unfolding count
released-Counted edges order children indegree child n c h = record {
  left = λ k needs e. elim (Bool-cases (str_eq child k)) [
    | inl same ↦
        let id : child ≡ k = ground (arith, eq_iff child k) in
        let old = rw same at (c.left k needs e) in
        let counts : suc n ≡ missing order needs + suc (count k children) = cc (id, h, old) in
        let fewer : n ≡ missing order needs + count k children = omega (arith, counts) in
        rw (Dict.get-set indegree child k (pos n), same, fewer) refl
    | inr other ↦ rw (Dict.get-set indegree child k (pos n), other) (rw other at (c.left k needs e))
  ];
  known = λ k e. ground (arith, c.known k e);
}

-- What a round comes to.
abbrev pub Released : Edges → List String → Dict ℤ × List String → Type 0
Released edges order (indegree, queue) =
    Counted edges order [] indegree × Settled order queue indegree

pub release-Released :
    (edges : Edges) (order children : List String) (indegree : Dict ℤ) (queue : List String)
    → Counted edges order children indegree
    → Settled order queue indegree
    → Released edges order (release children indegree queue)
unfolding release
release-Released edges order [] indegree queue c s = (c, s)
release-Released edges order (child ∷ children) indegree queue c s =
    let (n, h) = child_waits edges order children indegree child c in
    let counted = released-Counted edges order children indegree child n c h in
    rw (h, release)
      (release-Released edges order children (Dict.set indegree child (pos n))
        (if n == 0 then queue ++ child ∷ [] else queue) counted
        (one-Settled order queue indegree child n s h))
