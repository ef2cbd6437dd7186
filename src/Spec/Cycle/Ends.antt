-- ===== src/Spec/Cycle/Ends.antt =====
-- The rounds of `detect_cycle` in engine/spec.py.
use nutanix_hack.Prelude.{
  ℕ, zero, suc, ◌+◌, ◌*◌, ◌≤◌, ◌<◌, ◌≡◌, ◌≢◌, refl, subst, ap, String, Option, none, some, List, [],
  ◌∷◌, arith, str_eq, length, Bool-cases, inl, inr,
}
use nutanix_hack.Prelude.Dict
use nutanix_hack.Prelude.Dict.{Dict}
use nutanix_hack.Spec.Validate.{SpecError, out_of_fuel, Check}
use nutanix_hack.Spec.Cycle.{
  Colour, white, grey, black, Edges, Scan, exhausted, missing, meets, descends, scan, scan_on,
  Stack, Explored, raised, explored, needs_in, follow, explore, search_roots, then_explored,
  root_if, whites, detect_cycle, fuel_of,
}

abbrev add_white : Colour → ℕ → ℕ
add_white white n = suc n
add_white _ n = n

abbrev count_white : Dict Colour → ℕ
count_white [] = 0
count_white ((sid, c) ∷ colour) = add_white c (count_white colour)

add_white_le : (c : Colour) (n : ℕ) → n ≤ add_white c n
add_white_le white n = omega arith
add_white_le grey n = omega arith
add_white_le black n = omega arith

add_white_mono : (c : Colour) (m n : ℕ) → m ≤ n → add_white c m ≤ add_white c n
add_white_mono white m n h = omega arith
add_white_mono grey m n h = h
add_white_mono black m n h = h

add_white_lt : (c : Colour) (m n : ℕ) → m < n → add_white c m < add_white c n
add_white_lt white m n h = omega arith
add_white_lt grey m n h = h
add_white_lt black m n h = h

-- `c` is no longer white.
module _ (c : Colour) (coloured : (n : ℕ) → add_white c n ≡ n) where
  count_white-set :
      (colour : Dict Colour) (d : String) → count_white (Dict.set colour d c) ≤ count_white colour
  unfolding Dict.set
  count_white-set [] d = omega (arith, coloured 0)
  count_white-set ((sid, b) ∷ colour) d = elim (Bool-cases (str_eq sid d)) [
    | inl e ↦ rw (e, coloured (count_white colour)) (add_white_le b (count_white colour))
    | inr e ↦ rw e (add_white_mono b _ _ (count_white-set colour d))
  ]

  count_white-set_less :
      (colour : Dict Colour) (d : String)
      → Dict.get colour d ≡ some white
      → count_white (Dict.set colour d c) < count_white colour
  unfolding Dict.set Dict.get
  count_white-set_less [] d h = cc h
  count_white-set_less ((sid, b) ∷ colour) d h = elim (Bool-cases (str_eq sid d)) [
    | inl e ↦
        let was : b ≡ white = cc (rw (e, Dict.get) at h) in
        rw (e, coloured (count_white colour), was) (omega arith)
    | inr e ↦ rw e (add_white_lt b _ _ (count_white-set_less colour d (rw (e, Dict.get) at h)))
  ]

-- There was fuel, and at most `k` ids are left white.
abbrev pub Spared : SpecError → Type 0
Spared out_of_fuel = ⊥
Spared _ = Unit {0}

abbrev Fuelled : ℕ → Explored → Type 0
Fuelled k (raised e) = Spared e
Fuelled k (explored colour) = count_white colour ≤ k

abbrev IsWhite : Dict Colour → Scan → Type 0
IsWhite colour (descends d rest) = Dict.get colour d ≡ some white
IsWhite colour _ = Unit {0}

follow-Fuelled :
    (n k : ℕ) (edges : Edges) (colour : Dict Colour) (node : String) (stack : Stack) (found : Scan)
    (next : Dict Colour → Stack → Explored)
    → IsWhite colour found
    → 2 * count_white colour + suc (length stack) < suc n
    → count_white colour ≤ k
    → ((c : Dict Colour) (s : Stack)
        → 2 * count_white c + length s < n
        → count_white c ≤ k
        → Fuelled k (next c s))
    → Fuelled k (follow edges colour node stack found next)
unfolding follow
follow-Fuelled n k edges colour node stack exhausted next is h le goes =
    let fewer = count_white-set black (λ m. refl) colour node in
    goes (Dict.set colour node black) stack (omega (arith, fewer)) (omega (arith, fewer))
follow-Fuelled n k edges colour node stack missing next is h le goes = tt
follow-Fuelled n k edges colour node stack (meets d) next is h le goes = tt
follow-Fuelled n k edges colour node stack (descends d rest) next is h le goes =
    let fewer = count_white-set_less grey (λ m. refl) colour d is in
    goes (Dict.set colour d grey) ((d, needs_in edges d) ∷ (node, rest) ∷ stack)
      (omega (arith, fewer)) (omega (arith, fewer))

scan_on-IsWhite :
    (colour : Dict Colour) (o : Option Colour) (d : String) (ds : List String) (rest : Scan)
    → Dict.get colour d ≡ o
    → IsWhite colour rest
    → IsWhite colour (scan_on o d ds rest)
scan_on-IsWhite colour none d ds rest e k = tt
scan_on-IsWhite colour (some grey) d ds rest e k = tt
scan_on-IsWhite colour (some white) d ds rest e k = e
scan_on-IsWhite colour (some black) d ds rest e k = k

scan-IsWhite : (colour : Dict Colour) (ds : List String) → IsWhite colour (scan colour ds)
unfolding scan
scan-IsWhite colour [] = tt
scan-IsWhite colour (d ∷ ds) =
    scan_on-IsWhite colour (Dict.get colour d) d ds (scan colour ds) refl (scan-IsWhite colour ds)

explore-Fuelled :
    (n k : ℕ) (edges : Edges) (colour : Dict Colour) (stack : Stack)
    → 2 * count_white colour + length stack < n
    → count_white colour ≤ k
    → Fuelled k (explore n edges colour stack)
unfolding explore
explore-Fuelled zero k edges colour stack h le = let no : ⊥ = omega arith in no
explore-Fuelled (suc n) k edges colour [] h le = le
explore-Fuelled (suc n) k edges colour ((node, deps) ∷ stack) h le =
    follow-Fuelled n k edges colour node stack (scan colour deps) (explore n edges)
      (scan-IsWhite colour deps) h le (explore-Fuelled n k edges)

abbrev Ended : Check → Type 0
Ended (some e) = Spared e
Ended none = Unit {0}

then_explored-Ended :
    (k : ℕ) (r : Explored) (next : Dict Colour → Check)
    → Fuelled k r
    → ((c : Dict Colour) → count_white c ≤ k → Ended (next c))
    → Ended (then_explored r next)
then_explored-Ended k (raised e) next h goes = h
then_explored-Ended k (explored colour) next h goes = goes colour h

root_if-Ended :
    (o : Option Colour) (start next : Check)
    → (o ≡ some white → Ended start)
    → Ended next
    → Ended (root_if o start next)
root_if-Ended (some white) start next h k = h refl
root_if-Ended (some grey) start next h k = k
root_if-Ended (some black) start next h k = k
root_if-Ended none start next h k = tt

search_roots-Ended :
    (edges : Edges) (roots : List String) (colour : Dict Colour)
    → count_white colour ≤ length edges
    → Ended (search_roots edges roots colour)
unfolding search_roots
search_roots-Ended edges [] colour h = tt
search_roots-Ended edges (root ∷ roots) colour h =
    let needs = needs_in edges root in
    root_if-Ended (Dict.get colour root) _ _
      (λ e.
        let fewer = count_white-set_less grey (λ m. refl) colour root e in
        then_explored-Ended (length edges) _ (λ later. search_roots edges roots later)
          (explore-Fuelled (fuel_of edges) (length edges) edges (Dict.set colour root grey)
            ((root, needs) ∷ []) (omega (arith, fewer)) (omega (arith, fewer)))
          (λ later left. search_roots-Ended edges roots later left))
      (search_roots-Ended edges roots colour h)

count_white-whites : (edges : Edges) → count_white (whites edges) ≡ length edges
count_white-whites [] = refl
count_white-whites ((sid, deps) ∷ edges) = ap suc (count_white-whites edges)

-- The search of detect_cycle always ends: with twice as many rounds from each root as there are
-- steps, and two more, it never runs out of them.
pub detect_cycle_ends : (edges : Edges) → detect_cycle edges ≢ some out_of_fuel
unfolding detect_cycle
detect_cycle_ends edges h =
    subst Ended h
      (search_roots-Ended edges _ (whites edges) (omega (arith, count_white-whites edges)))
