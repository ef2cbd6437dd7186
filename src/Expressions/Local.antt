-- ===== src/Expressions/Local.antt =====
-- What `render` of engine/expressions.py reads of its context.
use Prim.Native.Char.{Char, code}
use Prim.Native.String.{String, [], ◌∷◌}
use nutanix_hack.Prelude.{
  ◌≡◌, refl, sym, ap, ◌∙◌, subst, ◌-◌, ◌⊎◌, true, none, some, List, [], ◌∷◌, ◌++◌, arith, All,
  Option-cases, Bool-cases, inl, inr,
}
use nutanix_hack.Json.{Value, Fields, Items, null, bool, str, num, obj, arr, end, field, nil, cons}
use nutanix_hack.Expressions.Paths.{
  whole_path, if_empty, match_here, skip_space, is_space, Piece, char, path, pieces, pieces_after,
  find_paths, count_chars,
}
use nutanix_hack.Expressions.{
  Rendered, rendered, expression_error, unhashable_key, other_key, with_rest, lookup, replace_all,
  render_string, render, render_fields, render_items,
}

-- The paths of the expressions in a value, of its keys too.
unfoldable mutual
  pub paths_in : Value → List String
  paths_in (str s) = find_paths (pieces s)
  paths_in (obj fs) = paths_in_fields fs
  paths_in (arr xs) = paths_in_items xs
  paths_in value = []

  paths_in_fields : Fields → List String
  paths_in_fields end = []
  paths_in_fields (field k v fs) = find_paths (pieces k) ++ (paths_in v ++ paths_in_fields fs)

  paths_in_items : Items → List String
  paths_in_items nil = []
  paths_in_items (cons v xs) = paths_in v ++ paths_in_items xs

space_no_match : (c : Char) (s : String) → is_space (code c) ≡ true → match_here (c ∷ s) ≡ none
unfolding match_here
space_no_match c [] h = refl
space_no_match c (d ∷ s) h = ground arith

find_paths-none :
    (c : Char) (s : String)
    → match_here (c ∷ s) ≡ none
    → find_paths (pieces_after 0 (c ∷ s)) ≡ find_paths (pieces_after 0 s)
unfolding pieces_after find_paths
find_paths-none c s h = rw (h, find_paths, pieces_after) refl

find_paths-some :
    (c : Char) (s p rest : String)
    → match_here (c ∷ s) ≡ some (p, rest)
    → (ps : List String) × (find_paths (pieces_after 0 (c ∷ s)) ≡ p ∷ ps)
unfolding pieces_after find_paths
find_paths-some c s p rest h = (
  find_paths (pieces_after (count_chars s - count_chars rest) s),
  rw (h, find_paths, pieces_after) refl,
)

first_path :
    (P : String → Type 0) (s p rest : String)
    → match_here (skip_space s) ≡ some (p, rest)
    → All P (find_paths (pieces_after 0 s))
    → P p
unfolding skip_space match_here
first_path P [] p rest e h = cc e
first_path P (c ∷ s) p rest e h = elim (Bool-cases (is_space (code c))) [
  | inl sp ↦
      let skipped : skip_space (c ∷ s) ≡ skip_space s = simp sp in
      first_path P s p rest (sym (ap match_here skipped) ∙ e)
        (subst (All P) (find_paths-none c s (space_no_match c s sp)) h)
  | inr sp ↦
      let kept : skip_space (c ∷ s) ≡ (c ∷ s) = simp sp in
      let (ps, starts) = find_paths-some c s p rest (sym (ap match_here kept) ∙ e) in
      (subst (All P) starts h).0
]

with_rest-same :
    (r : Rendered) (f g : Fields → Rendered)
    → ((made : Fields) → f made ≡ g made)
    → with_rest r f ≡ with_rest r g
with_rest-same (rendered (obj made)) f g h = h made
with_rest-same (rendered null) f g h = refl
with_rest-same (rendered (bool b)) f g h = refl
with_rest-same (rendered (num n)) f g h = refl
with_rest-same (rendered (str s)) f g h = refl
with_rest-same (rendered (arr xs)) f g h = refl
with_rest-same expression_error f g h = refl
with_rest-same unhashable_key f g h = refl
with_rest-same other_key f g h = refl

if_empty_cases : (s p : String) → (if_empty s p ≡ none) ⊎ (if_empty s p ≡ some p)
if_empty_cases [] p = inr refl
if_empty_cases (c ∷ s) p = inl refl

whole_path_cases :
    (s : String)
    → (whole_path s ≡ none)
      ⊎ ((p rest : String) × (match_here (skip_space s) ≡ some (p, rest)) × (whole_path s ≡ some p))
unfolding whole_path
whole_path_cases s = elim (Option-cases (match_here (skip_space s))) [
  | inl e ↦ inl (rw e refl)
  | inr ((p, rest), e) ↦ elim (if_empty_cases (skip_space rest) p) [
    | inl i ↦ inl (rw e i)
    | inr i ↦ inr (p, rest, e, rw e i)
  ]
]

module _ (show : Value → String) (c d : Value) where
  abbrev Agrees : List String → Type 0
  Agrees ps = All (λ p. lookup p c ≡ lookup p d) ps

  All-left : (ps qs : List String) → Agrees (ps ++ qs) → Agrees ps
  All-left [] qs h = tt
  All-left (p ∷ ps) qs h = (h.0, All-left ps qs h.1)

  All-right : (ps qs : List String) → Agrees (ps ++ qs) → Agrees qs
  All-right [] qs h = h
  All-right (p ∷ ps) qs h = All-right ps qs h.1

  replace_all-same :
      (ps : List Piece) → Agrees (find_paths ps) → replace_all show c ps ≡ replace_all show d ps
  unfolding replace_all find_paths
  replace_all-same [] h = refl
  replace_all-same (char x ∷ ps) h = rw (replace_all-same ps h) refl
  replace_all-same (path p ∷ ps) h = rw (h.0, replace_all-same ps h.1) refl

  render_string-same :
      (s : String)
      → Agrees (find_paths (pieces s))
      → render_string show s c ≡ render_string show s d
  unfolding render_string pieces
  render_string-same s h = elim (whole_path_cases s) [
    | inl e ↦ rw (e, render_string, replace_all-same (pieces s) h) refl
    | inr (p, rest, e, whole) ↦
        rw (whole, render_string, first_path (λ q. lookup q c ≡ lookup q d) s p rest e h) refl
  ]

  mutual
    unfolding render render_fields render_items paths_in paths_in_fields paths_in_items

    render-same : (v : Value) → Agrees (paths_in v) → render show v c ≡ render show v d
    render-same null h = refl
    render-same (bool b) h = refl
    render-same (num n) h = refl
    render-same (str s) h = render_string-same s h
    render-same (obj fs) h = render_fields-same fs end h
    render-same (arr xs) h = render_items-same xs h

    render_fields-same :
        (fs made : Fields)
        → Agrees (paths_in_fields fs)
        → render_fields show fs c made ≡ render_fields show fs d made
    render_fields-same end made h = refl
    render_fields-same (field k v fs) made h =
        let ks = find_paths (pieces k) in
        let more = All-right ks (paths_in v ++ paths_in_fields fs) h in
        rw
          (
            render_string-same k (All-left ks (paths_in v ++ paths_in_fields fs) h),
            render-same v (All-left (paths_in v) (paths_in_fields fs) more),
          )
          (with_rest-same _ _ _
            λ made'. render_fields-same fs made' (All-right (paths_in v) (paths_in_fields fs) more))

    render_items-same :
        (xs : Items) → Agrees (paths_in_items xs) → render_items show xs c ≡ render_items show xs d
    render_items-same nil h = refl
    render_items-same (cons v xs) h =
        rw
          (
            render-same v (All-left (paths_in v) _ h),
            render_items-same xs (All-right (paths_in v) _ h),
          )
          refl

-- If looking up each path of the expressions in a template, those in its keys too, comes to the
-- same in two contexts, the template renders to the same in both, errors included.
pub render_reads_paths :
    (show : Value → String) (v c d : Value)
    → All (λ p. lookup p c ≡ lookup p d) (paths_in v)
    → render show v c ≡ render show v d
render_reads_paths show v c d h = render-same show c d v h
