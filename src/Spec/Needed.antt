-- ===== src/Spec/Needed.antt =====
-- The needs of the typed form are those on which the search for cycles goes.
use nutanix_hack.Prelude.{
  ◌≡◌, ◌∙◌, refl, ap, String, Option, none, some, List, [], ◌∷◌, map, Option-cases, inl, inr,
}
use nutanix_hack.Json.{Value, Fields, Items, null, bool, num, str, arr, obj, nil, cons, end, field}
use nutanix_hack.Spec.{Step, Needs, absent, one, many, needs_of, list_of}
use nutanix_hack.Spec.Validate.{needs_items, keys_as_items}
use nutanix_hack.Spec.Cycle.{Edges, texts_of, texts_if, ids_in}
use nutanix_hack.Spec.Read.{texts_in, keys_in, read_needs}

-- Each step's id with its needs.
abbrev pub edges_in : List Step → Edges
edges_in [] = []
edges_in (s ∷ steps) = (s.id, needs_of s) ∷ edges_in steps

texts_of-texts_in : (xs : Items) (deps : List String) → texts_in xs ≡ some deps → texts_of xs ≡ deps
texts_of-texts_in nil deps h = cc h
texts_of-texts_in (cons (str s) xs) deps h = elim (Option-cases (texts_in xs)) [
  | inl e ↦ absurd (cc (rw (e, texts_in) at h))
  | inr (rest, e) ↦
      let same : s ∷ rest ≡ deps = cc (rw (e, texts_in) at h) in
      ap (λ ks. s ∷ ks) (texts_of-texts_in xs rest e) ∙ same
]
texts_of-texts_in (cons null xs) deps h = cc h
texts_of-texts_in (cons (bool b) xs) deps h = cc h
texts_of-texts_in (cons (num n) xs) deps h = cc h
texts_of-texts_in (cons (arr ys) xs) deps h = cc h
texts_of-texts_in (cons (obj fs) xs) deps h = cc h

texts_of-keys : (fs : Fields) → texts_of (keys_as_items fs) ≡ keys_in fs
texts_of-keys end = refl
texts_of-keys (field k v fs) = ap (λ ks. k ∷ ks) (texts_of-keys fs)

pub texts_if-read_needs :
    (o : Option Value) (n : Needs) → read_needs o ≡ some n → texts_if (needs_items o) ≡ list_of n
unfolding read_needs needs_items
texts_if-read_needs none n h = let same : absent ≡ n = cc h in ap list_of same
texts_if-read_needs (some (str s)) n h = let same : one s ≡ n = cc h in ap list_of same
texts_if-read_needs (some (arr xs)) n h = elim (Option-cases (texts_in xs)) [
  | inl e ↦ absurd (cc (rw e at h))
  | inr (deps, e) ↦
      let same : many deps ≡ n = cc (rw e at h) in texts_of-texts_in xs deps e ∙ ap list_of same
]
texts_if-read_needs (some (obj fs)) n h =
    let same : many (keys_in fs) ≡ n = cc h in texts_of-keys fs ∙ ap list_of same
texts_if-read_needs (some null) n h = cc h
texts_if-read_needs (some (bool b)) n h = cc h
texts_if-read_needs (some (num m)) n h = cc h

pub ids_in-edges_in : (steps : List Step) → ids_in (edges_in steps) ≡ map (λ s. s.id) steps
ids_in-edges_in [] = refl
ids_in-edges_in (s ∷ steps) = ap (λ ks. s.id ∷ ks) (ids_in-edges_in steps)
