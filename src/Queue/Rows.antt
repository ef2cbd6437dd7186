-- ===== src/Queue/Rows.antt =====
-- Rows by primary key, and what the two kinds of query do to them.
use mathlib.Core.List.{Memᴰ}
use mathlib.Core.List.Memᴰ
use mathlib.Core.Option
use native.Mathlib.Nat.{le_trans}
use nutanix_hack.Prelude.{
  ℕ, ◌≤◌, ◌≡◌, refl, subst, Bool, true, false, Option, none, some, List, [], ◌∷◌, ◌++◌, arith, leb,
  leb→le, ◌==◌, All, if◌then◌else◌, Option-cases, Bool-cases, inl, inr,
}
use nutanix_hack.Queue.{Task, first_by, earlier, count_where, update_where}

-- The row with a primary key.
unfoldable pub find_task : ℕ → List Task → Option Task
find_task id [] = none
find_task id (t ∷ ts) = if t.id == id then some t else find_task id ts

-- No two rows have one primary key.
abbrev pub UniqueIds : List Task → Type 0
UniqueIds [] = Unit {0}
UniqueIds (t ∷ ts) = (find_task t.id ts ≡ none) × UniqueIds ts

abbrev pub if_matches : (Task → Bool) → (Task → Task) → Task → Task
if_matches p f t = if p t then f t else t

module _ (p : Task → Bool) (f : Task → Task) (keeps_id : (t : Task) → (f t).id ≡ t.id) where
  pub find_task-update_where :
      (id : ℕ) (rows : List Task)
      → find_task id (update_where p f rows) ≡ Option.map (if_matches p f) (find_task id rows)
  unfolding find_task update_where
  find_task-update_where id [] = refl
  find_task-update_where id (t ∷ ts) = ground (arith, keeps_id t, find_task-update_where id ts)

  pub update_where-UniqueIds :
      (rows : List Task) → UniqueIds rows → UniqueIds (update_where p f rows)
  unfolding update_where
  update_where-UniqueIds [] u = tt
  update_where-UniqueIds (t ∷ ts) u =
      ground (arith, keeps_id t, find_task-update_where t.id ts, update_where-UniqueIds ts u.1)

-- A save writes the one row.
pub find_task-save :
    (id j : ℕ) (f : Task → Task) (rows : List Task)
    → ((t : Task) → (f t).id ≡ t.id)
    → find_task j (update_where (λ t. t.id == id) f rows)
      ≡ (if j == id then Option.map f (find_task id rows) else find_task j rows)
unfolding find_task update_where
find_task-save id j f [] k = ground arith
find_task-save id j f (t ∷ ts) k = ground (arith, k t, find_task-save id j f ts k)

pub find_task-append :
    (id : ℕ) (rows : List Task) (t : Task)
    → find_task id (rows ++ t ∷ [])
      ≡ (elim (find_task id rows) [ some s ↦ some s | none ↦ if t.id == id then some t else none ])
unfolding find_task
find_task-append id [] t = ground arith
find_task-append id (s ∷ ts) t = ground (arith, find_task-append id ts t)

-- An update that matches no row changes nothing.
pub update_where_none :
    (p : Task → Bool) (f : Task → Task) (rows : List Task)
    → count_where p rows ≡ 0
    → update_where p f rows ≡ rows
unfolding count_where update_where
update_where_none p f [] h = refl
update_where_none p f (t ∷ ts) h = ground (arith, update_where_none p f ts)

pub find_task-Memᴰ :
    (rows : List Task) (t : Task) → UniqueIds rows → Memᴰ t rows → find_task t.id rows ≡ some t
unfolding find_task
find_task-Memᴰ [] t u m = absurd (Memᴰ.not-nil m)
find_task-Memᴰ (s ∷ ts) t u (Memᴰ.head e) = ground (arith, e)
find_task-Memᴰ (s ∷ ts) t u (Memᴰ.tail m) = ground (arith, find_task-Memᴰ ts t u.1 m)

pub first_by-none :
    (key : Task → ℕ) (p : Task → Bool) (rows : List Task)
    → first_by key p rows ≡ none
    → All (λ s. p s ≡ false) rows
unfolding first_by
first_by-none key p [] h = tt
first_by-none key p (s ∷ ts) h = ground (arith, first_by-none key p ts)

-- No row that passes has a key below `n`.
abbrev pub NoneBelow : (Task → ℕ) → (Task → Bool) → ℕ → List Task → Type 0
NoneBelow key p n = All (λ s. p s ≡ true → n ≤ key s)

NoneBelow-mono :
    (key : Task → ℕ) (p : Task → Bool) (m n : ℕ) (rows : List Task)
    → m ≤ n
    → NoneBelow key p n rows
    → NoneBelow key p m rows
NoneBelow-mono key p m n [] h b = tt
NoneBelow-mono key p m n (s ∷ ts) h b = (λ e. le_trans h (b.0 e), NoneBelow-mono key p m n ts h b.1)

NoneBelow-of_none :
    (key : Task → ℕ) (p : Task → Bool) (n : ℕ) (rows : List Task)
    → All (λ s. p s ≡ false) rows
    → NoneBelow key p n rows
NoneBelow-of_none key p n [] h = tt
NoneBelow-of_none key p n (s ∷ ts) h = (λ e. cc (h.0), NoneBelow-of_none key p n ts h.1)

-- What `first_by` answers: a row that passes, and none that passes has a smaller key.
abbrev pub IsFirst : (Task → ℕ) → (Task → Bool) → List Task → Task → Type 0
IsFirst key p rows t = Memᴰ t rows × (p t ≡ true) × NoneBelow key p (key t) rows

IsFirst-cons :
    (key : Task → ℕ) (p : Task → Bool) (s b : Task) (ts : List Task)
    → IsFirst key p ts b
    → (p s ≡ true → key b ≤ key s)
    → IsFirst key p (s ∷ ts) b
IsFirst-cons key p s b ts (m, h, n) le = (Memᴰ.tail m, h, (le, n))

IsFirst-earlier :
    (key : Task → ℕ) (p : Task → Bool) (s b : Task) (ts : List Task)
    → IsFirst key p ts b
    → p s ≡ true
    → IsFirst key p (s ∷ ts) (earlier key s (some b))
unfolding earlier
IsFirst-earlier key p s b ts first h = elim (Bool-cases (leb (key s) (key b))) [
  | inl le ↦
      let e : s ≡ earlier key s (some b) = rw le in
      subst (IsFirst key p (s ∷ ts)) e (
        Memᴰ.head refl,
        h,
        (λ _. omega arith, NoneBelow-mono key p (key s) (key b) ts (leb→le _ _ le) first.2),
      )
  | inr gt ↦
      let e : b ≡ earlier key s (some b) = rw gt in
      subst (IsFirst key p (s ∷ ts)) e (IsFirst-cons key p s b ts first (λ _. ground arith))
]

pub first_by-some :
    (key : Task → ℕ) (p : Task → Bool) (rows : List Task) (t : Task)
    → first_by key p rows ≡ some t
    → IsFirst key p rows t
unfolding first_by
first_by-some key p [] t h = cc
first_by-some key p (s ∷ ts) t h = elim (Option-cases (first_by key p ts)) [
  | inl none_passes ↦ elim (Bool-cases (p s)) [
    | inl pass ↦
        let e : s ≡ t = ground arith in
        subst (IsFirst key p (s ∷ ts)) e (
          Memᴰ.head refl,
          pass,
          (
            λ _. omega arith,
            NoneBelow-of_none key p (key s) ts (first_by-none key p ts none_passes),
          ),
        )
    | inr skip ↦ cc
  ]
  | inr (b, found) ↦ elim (Bool-cases (p s)) [
    | inl pass ↦
        let e : earlier key s (some b) ≡ t = ground arith in
        subst (IsFirst key p (s ∷ ts)) e
          (IsFirst-earlier key p s b ts (first_by-some key p ts b found) pass)
    | inr skip ↦
        let e : b ≡ t = ground arith in
        subst (IsFirst key p (s ∷ ts)) e
          (IsFirst-cons key p s b ts (first_by-some key p ts b found) (λ pass. ground arith))
  ]
]
