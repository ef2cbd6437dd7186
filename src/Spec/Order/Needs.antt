-- ===== src/Spec/Order/Needs.antt =====
-- The two dicts that Kahn's algorithm starts with: how many needs an id has, and who needs it.
use nutanix_hack.Prelude.{
  ℕ, suc, ap, ◌+◌, ◌≡◌, ◌∙◌, refl, sym, false, String, none, some, List, [], ◌∷◌, ◌++◌, arith,
  length, contains, Distinct, str_eq, eq_iff, if◌then◌else◌, Bool-cases, Option-cases, inl, inr,
}
use nutanix_hack.Prelude.Int.{ℤ, pos}
use nutanix_hack.Prelude.Dict
use nutanix_hack.Prelude.Dict.{Dict}
use nutanix_hack.Spec.Cycle.{Edges}
use nutanix_hack.Spec.Order.{Waits, count_needs, count_all, children_of, add_one}
use nutanix_hack.Spec.Order.Release.{count}

-- The sum of `f` over the needs of the entries of `c`.
abbrev pub total : (List String → ℕ) → String → Edges → ℕ
total f c [] = 0
total f c ((sid, needs) ∷ edges) =
    let rest = total f c edges in if str_eq sid c then f needs + rest else rest

abbrev pub keys {ℓ} : {V : Type ℓ} → Dict V → List String
keys [] = []
keys ((k, v) ∷ d) = k ∷ keys d

pub total-none :
    (f : List String → ℕ) (c : String) (edges : Edges)
    → contains (keys edges) c ≡ false
    → total f c edges ≡ 0
total-none f c [] h = refl
total-none f c ((sid, needs) ∷ edges) h = elim (Bool-cases (str_eq sid c)) [
  | inl e ↦ absurd (cc (rw e at h))
  | inr e ↦ rw e (total-none f c edges (rw e at h))
]

pub contains-keys {ℓ} :
    {V : Type ℓ} (d : Dict V) (c : String) → Dict.get d c ≡ none → contains (keys d) c ≡ false
unfolding Dict.get
contains-keys [] c h = refl
contains-keys ((sid, v) ∷ d) c h = elim (Bool-cases (str_eq sid c)) [
  | inl e ↦ absurd (cc (rw e at h))
  | inr e ↦ rw e (contains-keys d c (rw e at h))
]

pub total-some :
    (f : List String → ℕ) (c : String) (needs : List String) (edges : Edges)
    → Distinct (keys edges)
    → Dict.get edges c ≡ some needs
    → total f c edges ≡ f needs
unfolding Dict.get
total-some f c needs [] d h = cc h
total-some f c needs ((sid, ns) ∷ edges) d h = elim (Bool-cases (str_eq sid c)) [
  | inl e ↦
      let same : ns ≡ needs = cc (rw e at h) in
      let id : sid ≡ c = ground (arith, eq_iff sid c) in
      let apart : contains (keys edges) c ≡ false = cc (d.0, id) in
      rw (e, same, total-none f c edges apart) (omega arith)
  | inr e ↦ rw e (total-some f c needs edges d.1 (rw e at h))
]

count-append :
    (c sid : String) (xs : List String)
    → count c (xs ++ sid ∷ []) ≡ count c xs + (if str_eq sid c then 1 else 0)
unfolding count
count-append c sid [] = ground arith
count-append c sid (x ∷ xs) = ground (arith, count-append c sid xs)

-- One more child of one need.
count-child :
    (dependents : Dict (List String)) (sid dep c s : String) (children : List String)
    → Dict.get dependents dep ≡ some children
    → count c (children_of (Dict.get (Dict.set dependents dep (children ++ sid ∷ [])) s))
      ≡ count c (children_of (Dict.get dependents s))
        + (if str_eq dep s then (if str_eq sid c then 1 else 0) else 0)
unfolding count
count-child dependents sid dep c s children h =
    rw (Dict.get-set dependents dep s (children ++ sid ∷ [])) (elim (Bool-cases (str_eq dep s)) [
      | inl e ↦
          let same : dep ≡ s = ground (arith, eq_iff dep s) in
          let there : Dict.get dependents s ≡ some children = cc (h, same) in
          rw (e, there) (count-append c sid children)
      | inr e ↦ rw e (omega arith)
    ])

pub children-count_needs :
    (sid : String) (needs : List String) (w after : Waits) (c s : String)
    → count_needs sid needs w ≡ some after
    → count c (children_of (Dict.get after.dependents s))
      ≡ count c (children_of (Dict.get w.dependents s))
        + (if str_eq sid c then count s needs else 0)
unfolding count_needs count
children-count_needs sid [] w after c s h =
    let same : w ≡ after = cc h in rw (sym same) (ground arith)
children-count_needs sid (dep ∷ needs) w after c s h =
    elim (Option-cases (Dict.get w.dependents dep)) [
      | inl e ↦ absurd (cc (rw (e, count_needs) at h))
      | inr (children, e) ↦
          let rest = children-count_needs sid needs _ after c s (rw (e, count_needs) at h) in
          let one = count-child w.dependents sid dep c s children e in ground (arith, rest, one)
    ]

-- One need more for one id.
counted_up :
    (indegree : Dict ℤ) (sid k : String) (n : ℕ)
    → Dict.get indegree k ≡ some (pos n)
    → Dict.get (Dict.set indegree sid (add_one (Dict.get indegree sid))) k
      ≡ some (pos (n + (if str_eq sid k then 1 else 0)))
counted_up indegree sid k n h =
    rw (Dict.get-set indegree sid k (add_one (Dict.get indegree sid)))
      (elim (Bool-cases (str_eq sid k)) [
        | inl e ↦
            let same : sid ≡ k = ground (arith, eq_iff sid k) in
            let there : Dict.get indegree sid ≡ some (pos n) = cc (h, same) in
            let more : suc n ≡ n + 1 = omega arith in rw (e, there, more) refl
        | inr e ↦ let same : n + 0 ≡ n = omega arith in rw (e, same) h
      ])

pub indegree-count_needs :
    (sid : String) (needs : List String) (w after : Waits) (k : String) (n : ℕ)
    → count_needs sid needs w ≡ some after
    → Dict.get w.indegree k ≡ some (pos n)
    → Dict.get after.indegree k ≡ some (pos (n + (if str_eq sid k then length needs else 0)))
unfolding count_needs
indegree-count_needs sid [] w after k n h z =
    let same : w ≡ after = cc h in
    let none_more : n + (if str_eq sid k then 0 else 0) ≡ n = ground arith in
    rw (sym same, none_more) z
indegree-count_needs sid (dep ∷ needs) w after k n h z =
    elim (Option-cases (Dict.get w.dependents dep)) [
      | inl e ↦ absurd (cc (rw (e, count_needs) at h))
      | inr (children, e) ↦
          let rest =
            indegree-count_needs sid needs _ after k (n + (if str_eq sid k then 1 else 0))
              (rw (e, count_needs) at h) (counted_up w.indegree sid k n z) in
          let sum : n + (if str_eq sid k then 1 else 0) + (if str_eq sid k then length needs else 0)
              ≡ n + (if str_eq sid k then suc (length needs) else 0) =
            ground arith in
          rest ∙ ap (λ m. some (pos m)) sum
    ]

pub children-count_all :
    (edges : Edges) (w after : Waits) (c s : String)
    → count_all edges w ≡ some after
    → count c (children_of (Dict.get after.dependents s))
      ≡ count c (children_of (Dict.get w.dependents s)) + total (count s) c edges
unfolding count_all
children-count_all [] w after c s h = let same : w ≡ after = cc h in rw (sym same) (omega arith)
children-count_all ((sid, needs) ∷ edges) w after c s h =
    elim (Option-cases (count_needs sid needs w)) [
      | inl e ↦ absurd (cc (rw (e, count_all) at h))
      | inr (mid, e) ↦
          let rest = children-count_all edges mid after c s (rw (e, count_all) at h) in
          let here = children-count_needs sid needs w mid c s e in ground (arith, rest, here)
    ]

pub indegree-count_all :
    (edges : Edges) (w after : Waits) (k : String) (n : ℕ)
    → count_all edges w ≡ some after
    → Dict.get w.indegree k ≡ some (pos n)
    → Dict.get after.indegree k ≡ some (pos (n + total length k edges))
unfolding count_all
indegree-count_all [] w after k n h z =
    let same : w ≡ after = cc h in
    let none_more : n + 0 ≡ n = omega arith in rw (sym same, none_more) z
indegree-count_all ((sid, needs) ∷ edges) w after k n h z =
    elim (Option-cases (count_needs sid needs w)) [
      | inl e ↦ absurd (cc (rw (e, count_all) at h))
      | inr (mid, e) ↦
          let here = indegree-count_needs sid needs w mid k n e z in
          let rest =
            indegree-count_all edges mid after k (n + (if str_eq sid k then length needs else 0))
              (rw (e, count_all) at h) here in
          let sum : n + (if str_eq sid k then length needs else 0) + total length k edges
              ≡ n + total length k ((sid, needs) ∷ edges) =
            ground arith in
          rest ∙ ap (λ m. some (pos m)) sum
    ]
