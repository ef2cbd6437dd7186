-- ===== src/Spec/Cycle/Acyclic.antt =====
-- What `detect_cycle` of engine/spec.py guarantees where it reports nothing: the ids in the order in
-- which they turn BLACK.
use nutanix_hack.Prelude.{
  ◌≡◌, ◌≢◌, refl, subst, true, String, Option, none, some, List, [], ◌∷◌, contains, str_eq, eq_iff,
  Bool-cases, inl, inr,
}
use nutanix_hack.Prelude.Dict
use nutanix_hack.Prelude.Dict.{Dict}
use nutanix_hack.Spec.Validate.{Check}
use nutanix_hack.Spec.Cycle.{
  Colour, white, grey, black, Edges, Explored, raised, explored, needs_in, explore, search_roots,
  ids_in, then_explored, root_if, whites, detect_cycle, fuel_of,
}
use nutanix_hack.Spec.Cycle.Walks.{AreOnStack, Within-all}
use nutanix_hack.Spec.Cycle.Found.{Good, explore-Good, rooted, whites_white}
use nutanix_hack.Spec.Cycle.Places.{
  ArePlaced, AreBlack, still_black, Places, Explores, explore-Explores,
}

-- What is placed when the search of some roots has ended.
pub record Placed (edges : Edges) (before roots : List String) : Type 0 where
  pub placed : List String
  pub ordered : ArePlaced edges placed
  pub keeps : (d : String) → contains before d ≡ true → contains placed d ≡ true
  pub covers : (d : String) → contains roots d ≡ true → contains placed d ≡ true

then_explored-none :
    (r : Explored) (next : Dict Colour → Check)
    → then_explored r next ≡ none
    → (c : Dict Colour) × (r ≡ explored c) × (next c ≡ none)
then_explored-none (raised e) next h = cc h
then_explored-none (explored c) next h = (c, refl, h)

-- A root that is placed.
Placed-root :
    (edges : Edges) (before after roots : List String) (root : String)
    → ((d : String) → contains before d ≡ true → contains after d ≡ true)
    → contains after root ≡ true
    → Placed edges after roots
    → Placed edges before (root ∷ roots)
Placed-root edges before after roots root more here rest = record {
  placed = rest.placed;
  ordered = rest.ordered;
  keeps = λ d m. rest.keeps d (more d m);
  covers = λ d m. elim (Bool-cases (str_eq root d)) [
    | inl e ↦ rest.keeps d (
        let same : root ≡ d = (eq_iff root d).0 e in subst (λ x. contains after x ≡ true) same here)
    | inr e ↦ rest.covers d (rw e at m)
  ];
}

-- What a root's colour leaves to show.
root_if-Placed :
    (edges : Edges) (before roots : List String) (root : String) (o : Option Colour)
    (start next : Check)
    → o ≢ some grey
    → (o ≡ some black → contains before root ≡ true)
    → (next ≡ none → Placed edges before roots)
    → (o ≡ some white → start ≡ none → Placed edges before (root ∷ roots))
    → root_if o start next ≡ none
    → Placed edges before (root ∷ roots)
root_if-Placed edges before roots root none start next g b later here h = cc h
root_if-Placed edges before roots root (some white) start next g b later here h = here refl h
root_if-Placed edges before roots root (some grey) start next g b later here h = absurd (g refl)
root_if-Placed edges before roots root (some black) start next g b later here h =
    Placed-root edges before before roots root (λ d m. m) (b refl) (later h)

search_roots-Placed :
    (edges : Edges) (roots : List String) (colour : Dict Colour) (before : List String)
    → ArePlaced edges before
    → AreBlack colour before
    → AreOnStack colour []
    → search_roots edges roots colour ≡ none
    → Placed edges before roots
unfolding search_roots
search_roots-Placed edges [] colour before o b on h = record {
  placed = before;
  ordered = o;
  keeps = λ d m. m;
  covers = λ d m. cc m;
}
search_roots-Placed edges (root ∷ roots) colour before o b on h =
    let needs = needs_in edges root in
    let first = explore (fuel_of edges) edges (Dict.set colour root grey) ((root, needs) ∷ []) in
    root_if-Placed edges before roots root (Dict.get colour root) _ _ (on root) (b root)
      (search_roots-Placed edges roots colour before o b on)
      (λ e started.
        let (later, ends, rest) =
          then_explored-none first (λ c. search_roots edges roots c) started in
        let places : Places edges before ((root, needs) ∷ []) later =
          subst (Explores edges before ((root, needs) ∷ [])) ends (
            explore-Explores (fuel_of edges) edges (Dict.set colour root grey) before
              ((root, needs) ∷ []) o (still_black colour before root b)
              ((λ n need. rw need refl), tt)) in
        let good : AreOnStack later [] = subst (Good edges) ends (
          explore-Good (fuel_of edges) edges (Dict.set colour root grey) ((root, needs) ∷ [])
            (Within-all needs needs (λ x m. m), tt, tt) (rooted colour root needs on)) in
        Placed-root edges before places.placed roots root places.keeps
          (places.covers root (inl refl))
          (search_roots-Placed edges roots later places.placed places.ordered places.blacks good
            rest))
      h

whites-unplaced : (edges : Edges) → AreBlack (whites edges) []
unfolding Dict.get
whites-unplaced [] d h = cc h
whites-unplaced ((sid, deps) ∷ edges) d h = elim (Bool-cases (str_eq sid d)) [
  | inl e ↦ cc (rw (e, Dict.get) at h)
  | inr e ↦ whites-unplaced edges d (rw (e, Dict.get) at h)
]

-- If detect_cycle reports nothing, then all ids can be put in a list in which each comes before all
-- that its step needs.
pub detect_cycle-Placed :
    (edges : Edges) → detect_cycle edges ≡ none → Placed edges [] (ids_in edges)
unfolding detect_cycle
detect_cycle-Placed edges h =
    search_roots-Placed edges (ids_in edges) (whites edges) [] tt (whites-unplaced edges)
      (λ d e. whites_white edges d e) h
