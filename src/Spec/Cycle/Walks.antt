-- ===== src/Spec/Cycle/Walks.antt =====
-- Walks along the needs, and the stack of `detect_cycle` of engine/spec.py as one.
use nutanix_hack.Prelude.{
  ◌≡◌, refl, true, String, Option, ◌⊎◌, none, some, List, [], ◌∷◌, arith, contains, str_eq, eq_iff,
  eq_refl, Bool-cases, inl, inr,
}
use nutanix_hack.Prelude.Dict
use nutanix_hack.Prelude.Dict.{Dict}
use nutanix_hack.Spec.Cycle.{
  Colour, white, grey, black, Edges, Scan, exhausted, missing, meets, descends, scan, scan_on,
  Stack, path_from, needs_in,
}

-- Each id needs the one after it.
abbrev pub IsWalk : Edges → List String → Type 0
IsWalk edges [] = Unit {0}
IsWalk edges (a ∷ []) = Unit {0}
IsWalk edges (a ∷ b ∷ rest) = (contains (needs_in edges a) b ≡ true) × IsWalk edges (b ∷ rest)

abbrev pub LastIs : List String → String → Type 0
LastIs [] d = ⊥
LastIs (a ∷ []) d = a ≡ d
LastIs (a ∷ b ∷ rest) d = LastIs (b ∷ rest) d

abbrev pub FirstIs : List String → String → Type 0
FirstIs [] d = ⊥
FirstIs (a ∷ rest) d = a ≡ d

-- A walk from a step back to itself.
pub record IsCycle (edges : Edges) (xs : List String) : Type 0 where
  pub walk : IsWalk edges xs
  pub at : String
  pub first : FirstIs xs at
  pub last : LastIs xs at

-- `xs` are among `ys`.
abbrev pub Within : List String → List String → Type 0
Within [] ys = Unit {0}
Within (x ∷ xs) ys = (contains ys x ≡ true) × Within xs ys

-- What is on top of a stack needs `t`.
abbrev pub Link : Edges → Stack → String → Type 0
Link edges [] t = Unit {0}
Link edges ((a, deps) ∷ stack) t = contains (needs_in edges a) t ≡ true

-- Each entry of the stack is needed by the one below it; what is left to scan are needs.
abbrev pub IsPath : Edges → Stack → Type 0
IsPath edges [] = Unit {0}
IsPath edges ((a, deps) ∷ stack) =
    Within deps (needs_in edges a) × Link edges stack a × IsPath edges stack

abbrev pub OnStack : Stack → String → Type 0
OnStack [] d = ⊥
OnStack ((a, deps) ∷ stack) d = (a ≡ d) ⊎ OnStack stack d

-- The grey ids are on the stack.
abbrev pub AreOnStack : Dict Colour → Stack → Type 0
AreOnStack colour stack = (d : String) → Dict.get colour d ≡ some grey → OnStack stack d

-- What a path is, and where it starts and ends.
pub record IsPart (edges : Edges) (stack : Stack) (d : String) (xs : List String) : Type 0 where
  pub walks : IsWalk edges xs
  pub ends : LastIs xs d
  pub starts : OnStack stack d → FirstIs xs d

pub path_from-IsPart :
    (edges : Edges) (d t : String) (ts : List String) (stack : Stack)
    → IsPath edges stack
    → Link edges stack t
    → IsWalk edges (t ∷ ts)
    → LastIs (t ∷ ts) d
    → IsPart edges stack d (path_from d (t ∷ ts) stack)
unfolding path_from
path_from-IsPart edges d t ts [] path link walk ends = record {
  walks = walk;
  ends = ends;
  starts = λ no. absurd no;
}
path_from-IsPart edges d t ts ((a, deps) ∷ stack) (within, below, path) link walk ends =
    elim (Bool-cases (str_eq a d)) [
      | inl e ↦ rw e (record { walks = (link, walk); ends = ends; starts = λ on. (eq_iff a d).0 e })
      | inr e ↦
          let part = path_from-IsPart edges d a (t ∷ ts) stack path below (link, walk) ends in
          rw e (record {
            walks = part.walks;
            ends = part.ends;
            starts = λ on. elim on [
              | inl same ↦ let no : ⊥ = ground (arith, (eq_iff a d).1 same) in absurd no
              | inr later ↦ part.starts later
            ];
          })
    ]

-- What a scan of needs comes to.
abbrev pub ScanIs : Dict Colour → List String → Scan → Type 0
ScanIs colour ys exhausted = Unit {0}
ScanIs colour ys missing = Unit {0}
ScanIs colour ys (meets d) = (contains ys d ≡ true) × (Dict.get colour d ≡ some grey)
ScanIs colour ys (descends d rest) =
    (contains ys d ≡ true) × Within rest ys × (Dict.get colour d ≡ some white)

scan_on-ScanIs :
    (colour : Dict Colour) (o : Option Colour) (d : String) (ds ys : List String) (rest : Scan)
    → Dict.get colour d ≡ o
    → contains ys d ≡ true
    → Within ds ys
    → ScanIs colour ys rest
    → ScanIs colour ys (scan_on o d ds rest)
scan_on-ScanIs colour none d ds ys rest e h w k = tt
scan_on-ScanIs colour (some grey) d ds ys rest e h w k = (h, e)
scan_on-ScanIs colour (some white) d ds ys rest e h w k = (h, w, e)
scan_on-ScanIs colour (some black) d ds ys rest e h w k = k

pub scan-ScanIs :
    (colour : Dict Colour) (ds ys : List String) → Within ds ys → ScanIs colour ys (scan colour ds)
unfolding scan
scan-ScanIs colour [] ys w = tt
scan-ScanIs colour (d ∷ ds) ys w =
    scan_on-ScanIs colour (Dict.get colour d) d ds ys (scan colour ds) refl w.0 w.1
      (scan-ScanIs colour ds ys w.1)

pub Within-all :
    (xs ys : List String)
    → ((x : String) → contains xs x ≡ true → contains ys x ≡ true)
    → Within xs ys
Within-all [] ys h = tt
Within-all (x ∷ xs) ys h =
    (h x (ground (arith, eq_refl x)), Within-all xs ys (λ y c. h y (ground arith)))
