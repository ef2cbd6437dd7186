-- ===== src/Spec/Cycle/Found.antt =====
-- The cycles that `detect_cycle` of engine/spec.py reports.
use nutanix_hack.Prelude.{
  ℕ, zero, suc, ◌≡◌, refl, subst, String, Option, none, some, List, [], ◌∷◌, arith, str_eq, eq_iff,
  Bool-cases, inl, inr,
}
use nutanix_hack.Prelude.Dict
use nutanix_hack.Prelude.Dict.{Dict}
use nutanix_hack.Spec.Validate.{SpecError, cycle, Check}
use nutanix_hack.Spec.Cycle.{
  Colour, white, grey, black, Edges, Scan, exhausted, missing, meets, descends, scan, Stack,
  Explored, raised, explored, needs_in, follow, explore, search_roots, then_explored, root_if,
  whites, detect_cycle, fuel_of,
}
use nutanix_hack.Spec.Cycle.Walks.{
  IsCycle, IsPath, AreOnStack, path_from-IsPart, ScanIs, scan-ScanIs, Within-all,
}

-- A cycle that is reported is one; where there is none, no id is left grey.
abbrev pub Sound : Edges → SpecError → Type 0
Sound edges (cycle xs) = IsCycle edges xs
Sound edges _ = Unit {0}

abbrev pub Good : Edges → Explored → Type 0
Good edges (raised e) = Sound edges e
Good edges (explored colour) = AreOnStack colour []

abbrev Fair : Edges → Check → Type 0
Fair edges (some e) = Sound edges e
Fair edges none = Unit {0}

popped :
    (colour : Dict Colour) (node : String) (deps : List String) (stack : Stack)
    → AreOnStack colour ((node, deps) ∷ stack)
    → AreOnStack (Dict.set colour node black) stack
popped colour node deps stack on d e = elim (Bool-cases (str_eq node d)) [
  | inl same ↦ cc (rw (Dict.get-set colour node d black, same) at e)
  | inr apart ↦ elim (on d (rw (Dict.get-set colour node d black, apart) at e)) [
    | inl same ↦ let no : ⊥ = ground (arith, (eq_iff node d).1 same) in absurd no
    | inr later ↦ later
  ]
]

pushed :
    (colour : Dict Colour) (node d : String) (deps rest needs : List String) (stack : Stack)
    → AreOnStack colour ((node, deps) ∷ stack)
    → AreOnStack (Dict.set colour d grey) ((d, needs) ∷ (node, rest) ∷ stack)
pushed colour node d deps rest needs stack on x e = elim (Bool-cases (str_eq d x)) [
  | inl same ↦ inl ((eq_iff d x).0 same)
  | inr apart ↦ inr (on x (rw (Dict.get-set colour d x grey, apart) at e))
]

follow-Good :
    (edges : Edges) (colour : Dict Colour) (node : String) (deps : List String) (stack : Stack)
    (found : Scan) (next : Dict Colour → Stack → Explored)
    → IsPath edges ((node, deps) ∷ stack)
    → AreOnStack colour ((node, deps) ∷ stack)
    → ScanIs colour (needs_in edges node) found
    → ((c : Dict Colour) (s : Stack) → IsPath edges s → AreOnStack c s → Good edges (next c s))
    → Good edges (follow edges colour node stack found next)
unfolding follow
follow-Good edges colour node deps stack exhausted next (within, below, path) on is good =
    good (Dict.set colour node black) stack path (popped colour node deps stack on)
follow-Good edges colour node deps stack missing next p on is good = tt
follow-Good edges colour node deps stack (meets d) next (within, below, path) on is good =
    let part = path_from-IsPart edges d d [] ((node, []) ∷ stack) (tt, below, path) is.0 tt refl in
    record { walk = part.walks; at = d; first = part.starts (on d is.1); last = part.ends }
follow-Good edges colour node deps stack (descends d rest) next (within, below, path) on is good =
    good (Dict.set colour d grey) ((d, needs_in edges d) ∷ (node, rest) ∷ stack)
      (Within-all (needs_in edges d) (needs_in edges d) (λ x h. h), is.0, (is.1, below, path))
      (pushed colour node d deps rest (needs_in edges d) stack on)

pub explore-Good :
    (n : ℕ) (edges : Edges) (colour : Dict Colour) (stack : Stack)
    → IsPath edges stack
    → AreOnStack colour stack
    → Good edges (explore n edges colour stack)
unfolding explore
explore-Good zero edges colour stack p on = tt
explore-Good (suc n) edges colour [] p on = on
explore-Good (suc n) edges colour ((node, deps) ∷ stack) p on =
    follow-Good edges colour node deps stack (scan colour deps) (explore n edges) p on
      (scan-ScanIs colour deps (needs_in edges node) p.0) (explore-Good n edges)

then_explored-Fair :
    (edges : Edges) (r : Explored) (next : Dict Colour → Check)
    → Good edges r
    → ((c : Dict Colour) → AreOnStack c [] → Fair edges (next c))
    → Fair edges (then_explored r next)
then_explored-Fair edges (raised e) next good fair = good
then_explored-Fair edges (explored colour) next good fair = fair colour good

root_if-Fair :
    (edges : Edges) (o : Option Colour) (start next : Check)
    → Fair edges start
    → Fair edges next
    → Fair edges (root_if o start next)
root_if-Fair edges (some white) start next h k = h
root_if-Fair edges (some grey) start next h k = k
root_if-Fair edges (some black) start next h k = k
root_if-Fair edges none start next h k = tt

pub rooted :
    (colour : Dict Colour) (root : String) (needs : List String)
    → AreOnStack colour []
    → AreOnStack (Dict.set colour root grey) ((root, needs) ∷ [])
rooted colour root needs on x e = elim (Bool-cases (str_eq root x)) [
  | inl same ↦ inl ((eq_iff root x).0 same)
  | inr apart ↦ absurd (on x (rw (Dict.get-set colour root x grey, apart) at e))
]

search_roots-Fair :
    (edges : Edges) (roots : List String) (colour : Dict Colour)
    → AreOnStack colour []
    → Fair edges (search_roots edges roots colour)
unfolding search_roots
search_roots-Fair edges [] colour on = tt
search_roots-Fair edges (root ∷ roots) colour on =
    let needs = needs_in edges root in
    root_if-Fair edges (Dict.get colour root) _ _
      (then_explored-Fair edges _ (λ later. search_roots edges roots later)
        (explore-Good (fuel_of edges) edges (Dict.set colour root grey) ((root, needs) ∷ [])
          (Within-all needs needs (λ x h. h), tt, tt) (rooted colour root needs on))
        (λ later left. search_roots-Fair edges roots later left))
      (search_roots-Fair edges roots colour on)

pub whites_white : (edges : Edges) (d : String) → Dict.get (whites edges) d ≡ some grey → ⊥
unfolding Dict.get
whites_white [] d h = cc h
whites_white ((sid, deps) ∷ edges) d h = elim (Bool-cases (str_eq sid d)) [
  | inl e ↦ cc (rw (e, Dict.get) at h)
  | inr e ↦ whites_white edges d (rw (e, Dict.get) at h)
]

-- If detect_cycle reports a cycle, the ids that it names are a walk along the needs of the steps,
-- from one step back to itself.
pub detect_cycle_real :
    (edges : Edges) (xs : List String) → detect_cycle edges ≡ some (cycle xs) → IsCycle edges xs
unfolding detect_cycle
detect_cycle_real edges xs h =
    subst (Fair edges) h (search_roots-Fair edges _ (whites edges) (λ d e. whites_white edges d e))
