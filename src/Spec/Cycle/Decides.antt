-- ===== src/Spec/Cycle/Decides.antt =====
-- `detect_cycle` of engine/spec.py decides whether there is a cycle, where each need is an id.
use nutanix_hack.Prelude.{
  ℕ, suc, ◌<◌, ◌≤◌, ◌≡◌, refl, sym, subst, true, String, ◌⊎◌, none, some, List, [], ◌∷◌, arith,
  contains, length, str_eq, eq_iff, if◌then◌else◌, Bool-cases, Option-cases, inl, inr,
}
use nutanix_hack.Prelude.Dict
use nutanix_hack.Prelude.Dict.{Dict}
use nutanix_hack.Spec.Validate.{SpecError, cycle, out_of_fuel}
use nutanix_hack.Spec.Cycle.{Edges, needs_in, ids_in, detect_cycle}
use nutanix_hack.Spec.Cycle.Walks.{IsWalk, LastIs, IsCycle}
use nutanix_hack.Spec.Cycle.Found.{detect_cycle_real}
use nutanix_hack.Spec.Cycle.Ends.{detect_cycle_ends}
use nutanix_hack.Spec.Cycle.Reports.{HasTwo, AllAreIds, Reported, detect_cycle-Reported}
use nutanix_hack.Spec.Cycle.Places.{ArePlaced}
use nutanix_hack.Spec.Cycle.Acyclic.{Placed, detect_cycle-Placed}

-- A walk of at least one need from a step back to itself.
abbrev pub IsLoop : Edges → List String → Type 0
IsLoop edges xs = HasTwo xs × IsCycle edges xs

-- How many ids follow the last place of an id, and one more.
abbrev rank : String → List String → ℕ
rank a [] = 0
rank a (k ∷ placed) =
    if contains placed a then rank a placed else if str_eq k a then suc (length placed) else 0

rank_le : (a : String) (placed : List String) → rank a placed ≤ length placed
rank_le a [] = omega arith
rank_le a (k ∷ placed) = ground (arith, rank_le a placed)

-- What is needed comes later.
later :
    (edges : Edges) (placed : List String) (a n : String)
    → ArePlaced edges placed
    → contains placed a ≡ true
    → contains (needs_in edges a) n ≡ true
    → (contains placed n ≡ true) × (rank n placed < rank a placed)
later edges [] a n p m need = cc m
later edges (k ∷ placed) a n p m need = elim (Bool-cases (contains placed a)) [
  | inl e ↦
      let rest = later edges placed a n p.1 e need in
      (ground (arith, rest.0), rw (e, rest.0) rest.1)
  | inr e ↦ elim (Bool-cases (str_eq k a)) [
    | inl same ↦
        let id : k ≡ a = (eq_iff k a).0 same in
        let there : contains placed n ≡ true =
          p.0 n (subst (λ x. contains (needs_in edges x) n ≡ true) (sym id) need) in
        let bound = rank_le n placed in
        (ground (arith, there), rw (e, same, there) (omega (arith, bound)))
    | inr apart ↦ cc (rw (apart, e) at m)
  ]
]

walk_descends :
    (edges : Edges) (placed : List String) (a b d : String) (rest : List String)
    → ArePlaced edges placed
    → contains placed a ≡ true
    → IsWalk edges (a ∷ b ∷ rest)
    → LastIs (b ∷ rest) d
    → rank d placed < rank a placed
walk_descends edges placed a b d [] p m w l =
    let step = later edges placed a b p m w.0 in subst (λ x. rank x placed < rank a placed) l step.1
walk_descends edges placed a b d (c ∷ rest) p m w l =
    let step = later edges placed a b p m w.0 in
    let more = walk_descends edges placed b c d rest p step.0 w.1 l in omega (arith, step.1, more)

has_id :
    (edges : Edges) (a n : String)
    → contains (needs_in edges a) n ≡ true
    → contains (ids_in edges) a ≡ true
unfolding Dict.get
has_id [] a n h = cc h
has_id ((sid, needs) ∷ edges) a n h = elim (Bool-cases (str_eq sid a)) [
  | inl e ↦ rw e refl
  | inr e ↦ rw e (has_id edges a n (rw (e, needs_in, Dict.get) at h))
]

-- Where the ids are in an order, there is no loop.
pub no-IsLoop :
    (edges : Edges) (xs : List String) → Placed edges [] (ids_in edges) → ¬ IsLoop edges xs
no-IsLoop edges [] p h = h.0
no-IsLoop edges (a ∷ []) p h = h.0
no-IsLoop edges (a ∷ b ∷ rest) p (two, loop) =
    let m = p.covers a (has_id edges a b loop.walk.0) in
    let down = walk_descends edges p.placed a b loop.at rest p.ordered m loop.walk loop.last in
    let less : rank a p.placed < rank a p.placed =
      subst (λ x. rank x p.placed < rank a p.placed) (sym loop.first) down in
    let no : ⊥ = omega (arith, less) in no

-- The error of the search is a loop.
Reported-IsLoop :
    (edges : Edges) (e : SpecError)
    → detect_cycle edges ≡ some e
    → Reported e
    → (xs : List String) × (detect_cycle edges ≡ some (cycle xs)) × IsLoop edges xs
Reported-IsLoop edges (cycle xs) h r = (xs, h, (r, detect_cycle_real edges xs h))
Reported-IsLoop edges out_of_fuel h r = absurd (detect_cycle_ends edges h)
Reported-IsLoop edges other h r = absurd r

-- If each need is the id of a step, then detect_cycle either reports nothing, and no walk of one
-- need or more along the needs of the steps leads from a step back to itself, or it reports a
-- cycle, and the ids that it names are such a walk.
pub detect_cycle_decides :
    (edges : Edges)
    → AllAreIds edges
    → ((detect_cycle edges ≡ none) × ((xs : List String) → ¬ IsLoop edges xs))
      ⊎ ((xs : List String) × (detect_cycle edges ≡ some (cycle xs)) × IsLoop edges xs)
detect_cycle_decides edges all = elim (Option-cases (detect_cycle edges)) [
  | inl e ↦ inl (e, (λ xs. no-IsLoop edges xs (detect_cycle-Placed edges e)))
  | inr (x, e) ↦ inr (Reported-IsLoop edges x e (detect_cycle-Reported edges x all e))
]
