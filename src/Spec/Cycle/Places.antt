-- ===== src/Spec/Cycle/Places.antt =====
-- What one search of `detect_cycle` of engine/spec.py leaves BLACK, in the order in which it does.
use nutanix_hack.Prelude.{
  ℕ, zero, suc, ◌≡◌, refl, true, ◌||◌, String, Option, none, some, List, [], ◌∷◌, arith, contains,
  str_eq, eq_iff, Bool-cases, inl, inr,
}
use nutanix_hack.Prelude.Dict
use nutanix_hack.Prelude.Dict.{Dict}
use nutanix_hack.Spec.Cycle.{
  Colour, white, grey, black, Edges, Scan, exhausted, missing, meets, descends, scan, scan_on,
  Stack, Explored, raised, explored, needs_in, follow, explore,
}
use nutanix_hack.Spec.Cycle.Walks.{OnStack}

-- All needs of an id are placed.
abbrev pub AllPlaced : Edges → String → List String → Type 0
AllPlaced edges a placed =
    (n : String) → contains (needs_in edges a) n ≡ true → contains placed n ≡ true

-- Each id comes before its needs.
abbrev pub ArePlaced : Edges → List String → Type 0
ArePlaced edges [] = Unit {0}
ArePlaced edges (a ∷ placed) = AllPlaced edges a placed × ArePlaced edges placed

-- The BLACK ids are placed.
abbrev pub AreBlack : Dict Colour → List String → Type 0
AreBlack colour placed = (d : String) → Dict.get colour d ≡ some black → contains placed d ≡ true

-- The needs of what is under `above` are placed, still to be scanned, or `above` itself.
abbrev Below : Edges → List String → String → Stack → Type 0
Below edges placed above [] = Unit {0}
Below edges placed above ((a, deps) ∷ stack) =
    ((n : String)
      → contains (needs_in edges a) n ≡ true
      → (str_eq above n || (contains deps n || contains placed n)) ≡ true)
    × Below edges placed a stack

abbrev Top : Edges → List String → Stack → Type 0
Top edges placed [] = Unit {0}
Top edges placed ((a, deps) ∷ stack) =
    ((n : String)
      → contains (needs_in edges a) n ≡ true
      → (contains deps n || contains placed n) ≡ true)
    × Below edges placed a stack

-- What a scan passes over is placed.
abbrev Passes : List String → List String → Scan → Type 0
Passes placed deps exhausted = (n : String) → contains deps n ≡ true → contains placed n ≡ true
Passes placed deps (descends d rest) =
    (n : String)
    → contains deps n ≡ true
    → (str_eq d n || (contains rest n || contains placed n)) ≡ true
Passes placed deps _ = Unit {0}

black-Passes :
    (placed deps : List String) (d : String) (rest : Scan)
    → contains placed d ≡ true
    → Passes placed deps rest
    → Passes placed (d ∷ deps) rest
black-Passes placed deps d exhausted h p = λ n m. ground (arith, eq_iff d n, p n, h, m)
black-Passes placed deps d missing h p = tt
black-Passes placed deps d (meets x) h p = tt
black-Passes placed deps d (descends x rest) h p = λ n m. ground (arith, eq_iff d n, p n, h, m)

scan_on-Passes :
    (colour : Dict Colour) (placed deps : List String) (d : String) (o : Option Colour)
    (rest : Scan)
    → AreBlack colour placed
    → Dict.get colour d ≡ o
    → Passes placed deps rest
    → Passes placed (d ∷ deps) (scan_on o d deps rest)
scan_on-Passes colour placed deps d none rest b e p = tt
scan_on-Passes colour placed deps d (some grey) rest b e p = tt
scan_on-Passes colour placed deps d (some white) rest b e p = λ n m. ground (arith, m)
scan_on-Passes colour placed deps d (some black) rest b e p =
    black-Passes placed deps d rest (b d e) p

scan-Passes :
    (colour : Dict Colour) (placed deps : List String)
    → AreBlack colour placed
    → Passes placed deps (scan colour deps)
unfolding scan
scan-Passes colour placed [] b = λ n m. cc m
scan-Passes colour placed (d ∷ deps) b =
    scan_on-Passes colour placed deps d (Dict.get colour d) (scan colour deps) b refl
      (scan-Passes colour placed deps b)

-- One more id is placed.
Below-more :
    (edges : Edges) (placed : List String) (k above : String) (stack : Stack)
    → Below edges placed above stack
    → Below edges (k ∷ placed) above stack
Below-more edges placed k above [] b = tt
Below-more edges placed k above ((a, deps) ∷ stack) b =
    ((λ n need. let old = b.0 n need in ground (arith, old)), Below-more edges placed k a stack b.1)

-- The id on top is placed.
Top-Below :
    (edges : Edges) (placed : List String) (node : String) (stack : Stack)
    → Below edges placed node stack
    → Top edges (node ∷ placed) stack
Top-Below edges placed node [] b = tt
Top-Below edges placed node ((a, deps) ∷ stack) b = (
  (λ n need. let old = b.0 n need in ground (arith, old)),
  Below-more edges placed node a stack b.1,
)

blackened :
    (colour : Dict Colour) (placed : List String) (node : String)
    → AreBlack colour placed
    → AreBlack (Dict.set colour node black) (node ∷ placed)
blackened colour placed node b d e = elim (Bool-cases (str_eq node d)) [
  | inl same ↦ rw same refl
  | inr apart ↦ rw apart (b d (rw (Dict.get-set colour node d black, apart) at e))
]

pub still_black :
    (colour : Dict Colour) (placed : List String) (node : String)
    → AreBlack colour placed
    → AreBlack (Dict.set colour node grey) placed
still_black colour placed node b d e = elim (Bool-cases (str_eq node d)) [
  | inl same ↦ cc (rw (Dict.get-set colour node d grey, same) at e)
  | inr apart ↦ b d (rw (Dict.get-set colour node d grey, apart) at e)
]

-- All that is placed in the end.
pub record Places (edges : Edges) (before : List String) (stack : Stack) (colour : Dict Colour)
    : Type 0 where
  pub placed : List String
  pub ordered : ArePlaced edges placed
  pub blacks : AreBlack colour placed
  pub keeps : (d : String) → contains before d ≡ true → contains placed d ≡ true
  pub covers : (d : String) → OnStack stack d → contains placed d ≡ true

abbrev pub Explores : Edges → List String → Stack → Explored → Type 0
Explores edges before stack (raised e) = Unit {0}
Explores edges before stack (explored colour) = Places edges before stack colour

-- What is placed after one more id was, or after the stack has grown.
Explores-more :
    (edges : Edges) (before : List String) (node : String) (deps : List String) (stack : Stack)
    (r : Explored)
    → Explores edges (node ∷ before) stack r
    → Explores edges before ((node, deps) ∷ stack) r
Explores-more edges before node deps stack (raised e) h = tt
Explores-more edges before node deps stack (explored colour) h = record {
  placed = h.placed;
  ordered = h.ordered;
  blacks = h.blacks;
  keeps = λ d m. h.keeps d (ground arith);
  covers = λ d on. elim on [
    | inl same ↦ h.keeps d (ground (arith, (eq_iff node d).1 same))
    | inr later ↦ h.covers d later
  ];
}

Explores-less :
    (edges : Edges) (before : List String) (d node : String) (needs rest deps : List String)
    (stack : Stack) (r : Explored)
    → Explores edges before ((d, needs) ∷ (node, rest) ∷ stack) r
    → Explores edges before ((node, deps) ∷ stack) r
Explores-less edges before d node needs rest deps stack (raised e) h = tt
Explores-less edges before d node needs rest deps stack (explored colour) h = record {
  placed = h.placed;
  ordered = h.ordered;
  blacks = h.blacks;
  keeps = h.keeps;
  covers = λ x on. h.covers x (inr on);
}

follow-Explores :
    (edges : Edges) (colour : Dict Colour) (before : List String) (node : String)
    (deps : List String) (stack : Stack) (found : Scan) (next : Dict Colour → Stack → Explored)
    → ArePlaced edges before
    → AreBlack colour before
    → Top edges before ((node, deps) ∷ stack)
    → Passes before deps found
    → ((c : Dict Colour) (b : List String) (s : Stack)
        → ArePlaced edges b
        → AreBlack c b
        → Top edges b s
        → Explores edges b s (next c s))
    → Explores edges before ((node, deps) ∷ stack) (follow edges colour node stack found next)
unfolding follow
follow-Explores edges colour before node deps stack exhausted next o b t p go =
    let all : AllPlaced edges node before = λ n need.
      let left = t.0 n need in
      elim (Bool-cases (contains deps n)) [ inl e ↦ p n e | inr e ↦ rw e at left ] in
    Explores-more edges before node deps stack _ (
      go (Dict.set colour node black) (node ∷ before) stack (all, o)
        (blackened colour before node b) (Top-Below edges before node stack t.1))
follow-Explores edges colour before node deps stack missing next o b t p go = tt
follow-Explores edges colour before node deps stack (meets d) next o b t p go = tt
follow-Explores edges colour before node deps stack (descends d rest) next o b t p go =
    let left = λ (n : String) (need : contains (needs_in edges node) n ≡ true).
      let old = t.0 n need in
      let passed = p n in
      let now : (str_eq d n || (contains rest n || contains before n)) ≡ true =
        ground (arith, old, passed) in
      now in
    Explores-less edges before d node (needs_in edges d) rest deps stack _ (
      go (Dict.set colour d grey) before ((d, needs_in edges d) ∷ (node, rest) ∷ stack) o
        (still_black colour before d b) ((λ n need. rw need refl), (left, t.1)))

pub explore-Explores :
    (n : ℕ) (edges : Edges) (colour : Dict Colour) (before : List String) (stack : Stack)
    → ArePlaced edges before
    → AreBlack colour before
    → Top edges before stack
    → Explores edges before stack (explore n edges colour stack)
unfolding explore
explore-Explores zero edges colour before stack o b t = tt
explore-Explores (suc n) edges colour before [] o b t = record {
  placed = before;
  ordered = o;
  blacks = b;
  keeps = λ d m. m;
  covers = λ d on. absurd on;
}
explore-Explores (suc n) edges colour before ((node, deps) ∷ stack) o b t =
    follow-Explores edges colour before node deps stack (scan colour deps) (explore n edges) o b t
      (scan-Passes colour before deps b) (explore-Explores n edges)
