-- ===== src/Spec/Cycle/Reports.antt =====
-- The errors of `detect_cycle` in engine/spec.py, where each need is an id: cycles only.
use nutanix_hack.Prelude.{
  ℕ, zero, suc, ◌≡◌, ◌≢◌, refl, subst, true, String, Option, none, some, List, [], ◌∷◌, arith,
  contains, str_eq, eq_refl, Bool-cases, inl, inr,
}
use nutanix_hack.Prelude.Dict
use nutanix_hack.Prelude.Dict.{Dict}
use nutanix_hack.Spec.Validate.{SpecError, cycle, out_of_fuel, Check}
use nutanix_hack.Spec.Cycle.{
  Colour, white, grey, black, Edges, Scan, exhausted, missing, meets, descends, scan, scan_on,
  Stack, path_from, Explored, raised, explored, needs_in, follow, explore, search_roots, ids_in,
  then_explored, root_if, whites, detect_cycle, fuel_of,
}

abbrev pub HasTwo : List String → Type 0
HasTwo (a ∷ b ∷ rest) = Unit {0}
HasTwo _ = ⊥

-- Each need is an id.
abbrev pub AreIds : Edges → List String → Type 0
AreIds edges deps = (n : String) → contains deps n ≡ true → contains (ids_in edges) n ≡ true

abbrev pub AllAreIds : Edges → Type 0
AllAreIds edges = (sid : String) → AreIds edges (needs_in edges sid)

-- What an error can be, unless the fuel runs out: a cycle of two ids at least.
abbrev pub Reported : SpecError → Type 0
Reported (cycle xs) = HasTwo xs
Reported out_of_fuel = Unit {0}
Reported _ = ⊥

abbrev HaveColours : Edges → Dict Colour → Type 0
HaveColours edges colour =
    (d : String) → contains (ids_in edges) d ≡ true → Dict.get colour d ≢ none

abbrev StackIds : Edges → Stack → Type 0
StackIds edges [] = Unit {0}
StackIds edges ((a, deps) ∷ stack) = AreIds edges deps × StackIds edges stack

abbrev ScanIds : Edges → Scan → Type 0
ScanIds edges exhausted = Unit {0}
ScanIds edges missing = ⊥
ScanIds edges (meets d) = Unit {0}
ScanIds edges (descends d rest) = AreIds edges rest

abbrev Explains : Edges → Explored → Type 0
Explains edges (raised e) = Reported e
Explains edges (explored colour) = HaveColours edges colour

abbrev Explained : Check → Type 0
Explained none = Unit {0}
Explained (some e) = Reported e

coloured :
    (edges : Edges) (colour : Dict Colour) (d : String) (c : Colour)
    → HaveColours edges colour
    → HaveColours edges (Dict.set colour d c)
coloured edges colour d c h x m e = elim (Bool-cases (str_eq d x)) [
  | inl same ↦ cc (rw (Dict.get-set colour d x c, same) at e)
  | inr apart ↦ h x m (rw (Dict.get-set colour d x c, apart) at e)
]

scan_on-ScanIds :
    (edges : Edges) (o : Option Colour) (d : String) (deps : List String) (rest : Scan)
    → o ≢ none
    → AreIds edges deps
    → ScanIds edges rest
    → ScanIds edges (scan_on o d deps rest)
scan_on-ScanIds edges none d deps rest h k r = absurd (h refl)
scan_on-ScanIds edges (some grey) d deps rest h k r = tt
scan_on-ScanIds edges (some white) d deps rest h k r = k
scan_on-ScanIds edges (some black) d deps rest h k r = r

scan-ScanIds :
    (edges : Edges) (colour : Dict Colour) (deps : List String)
    → HaveColours edges colour
    → AreIds edges deps
    → ScanIds edges (scan colour deps)
unfolding scan
scan-ScanIds edges colour [] h k = tt
scan-ScanIds edges colour (d ∷ deps) h k =
    let rest : AreIds edges deps = λ n m. k n (ground arith) in
    scan_on-ScanIds edges (Dict.get colour d) d deps (scan colour deps)
      (h d (k d (rw (eq_refl d) refl))) rest (scan-ScanIds edges colour deps h rest)

path_from-HasTwo :
    (d t s : String) (rest : List String) (stack : Stack)
    → HasTwo (path_from d (t ∷ s ∷ rest) stack)
unfolding path_from
path_from-HasTwo d t s rest [] = tt
path_from-HasTwo d t s rest ((a, deps) ∷ stack) = elim (Bool-cases (str_eq a d)) [
  | inl e ↦ rw e tt
  | inr e ↦ rw e (path_from-HasTwo d a t (s ∷ rest) stack)
]

met-HasTwo : (d node : String) (stack : Stack) → HasTwo (path_from d (d ∷ []) ((node, []) ∷ stack))
unfolding path_from
met-HasTwo d node stack = elim (Bool-cases (str_eq node d)) [
  | inl e ↦ rw e tt
  | inr e ↦ rw e (path_from-HasTwo d node d [] stack)
]

follow-Explains :
    (edges : Edges) (colour : Dict Colour) (node : String) (stack : Stack) (found : Scan)
    (next : Dict Colour → Stack → Explored)
    → AllAreIds edges
    → HaveColours edges colour
    → StackIds edges stack
    → ScanIds edges found
    → ((c : Dict Colour) (s : Stack)
        → HaveColours edges c
        → StackIds edges s
        → Explains edges (next c s))
    → Explains edges (follow edges colour node stack found next)
unfolding follow
follow-Explains edges colour node stack exhausted next all h s f go =
    go (Dict.set colour node black) stack (coloured edges colour node black h) s
follow-Explains edges colour node stack missing next all h s f go = absurd f
follow-Explains edges colour node stack (meets d) next all h s f go = met-HasTwo d node stack
follow-Explains edges colour node stack (descends d rest) next all h s f go =
    go (Dict.set colour d grey) ((d, needs_in edges d) ∷ (node, rest) ∷ stack)
      (coloured edges colour d grey h) (all d, (f, s))

explore-Explains :
    (n : ℕ) (edges : Edges) (colour : Dict Colour) (stack : Stack)
    → AllAreIds edges
    → HaveColours edges colour
    → StackIds edges stack
    → Explains edges (explore n edges colour stack)
unfolding explore
explore-Explains zero edges colour stack all h s = tt
explore-Explains (suc n) edges colour [] all h s = h
explore-Explains (suc n) edges colour ((node, deps) ∷ stack) all h s =
    follow-Explains edges colour node stack (scan colour deps) (explore n edges) all h s.1
      (scan-ScanIds edges colour deps h s.0) (λ c t hc ht. explore-Explains n edges c t all hc ht)

then_explored-Explained :
    (edges : Edges) (r : Explored) (next : Dict Colour → Check)
    → Explains edges r
    → ((c : Dict Colour) → HaveColours edges c → Explained (next c))
    → Explained (then_explored r next)
then_explored-Explained edges (raised e) next h go = h
then_explored-Explained edges (explored colour) next h go = go colour h

root_if-Explained :
    (o : Option Colour) (start next : Check)
    → o ≢ none
    → Explained start
    → Explained next
    → Explained (root_if o start next)
root_if-Explained none start next h s n = absurd (h refl)
root_if-Explained (some white) start next h s n = s
root_if-Explained (some grey) start next h s n = n
root_if-Explained (some black) start next h s n = n

search_roots-Explained :
    (edges : Edges) (roots : List String) (colour : Dict Colour)
    → AllAreIds edges
    → AreIds edges roots
    → HaveColours edges colour
    → Explained (search_roots edges roots colour)
unfolding search_roots
search_roots-Explained edges [] colour all k h = tt
search_roots-Explained edges (root ∷ roots) colour all k h =
    let rest : AreIds edges roots = λ n m. k n (ground arith) in
    root_if-Explained (Dict.get colour root) _ _ (h root (k root (rw (eq_refl root) refl)))
      (then_explored-Explained edges _ (λ c. search_roots edges roots c)
        (explore-Explains (fuel_of edges) edges (Dict.set colour root grey)
          ((root, needs_in edges root) ∷ []) all (coloured edges colour root grey h) (all root, tt))
        (λ c hc. search_roots-Explained edges roots c all rest hc))
      (search_roots-Explained edges roots colour all rest h)

whites-HaveColours :
    (edges : Edges) (d : String)
    → contains (ids_in edges) d ≡ true
    → Dict.get (whites edges) d ≢ none
unfolding Dict.get
whites-HaveColours [] d m e = cc m
whites-HaveColours ((sid, deps) ∷ edges) d m e = elim (Bool-cases (str_eq sid d)) [
  | inl same ↦ cc (rw (same, Dict.get) at e)
  | inr apart ↦ whites-HaveColours edges d (rw apart at m) (rw (apart, Dict.get) at e)
]

pub detect_cycle-Reported :
    (edges : Edges) (e : SpecError) → AllAreIds edges → detect_cycle edges ≡ some e → Reported e
unfolding detect_cycle
detect_cycle-Reported edges e all h = subst Explained h (
    search_roots-Explained edges (ids_in edges) (whites edges) all (λ n m. m)
      (λ d m. whites-HaveColours edges d m))
