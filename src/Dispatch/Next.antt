-- ===== src/Dispatch/Next.antt =====
-- The query of `dispatch_one` in graph/dispatcher.py for the next row of the outbox.
use mathlib.Core.List.{Memᴰ}
use mathlib.Core.List.Memᴰ
use nutanix_hack.Prelude.{
  ℕ, suc, ◌≤◌, ◌<◌, ◌≡◌, refl, subst, Bool, true, not, none, some, List, [], ◌∷◌, arith, every, leb,
  ◌||◌, if◌then◌else◌, ltb, Bool-cases, Option-cases, inl, inr,
}
use nutanix_hack.Graph.{EntityChange, mark}
use nutanix_hack.Dispatch.{is_open, next_change}

-- How many changes are left to dispatch.
unfoldable pub open_changes : (ℕ → Bool) → List EntityChange → ℕ
open_changes locked [] = 0
open_changes locked (c ∷ cs) =
    let rest = open_changes locked cs in if is_open locked c then suc rest else rest

open_changes-mark :
    (locked : ℕ → Bool) (id now : ℕ) (cs : List EntityChange)
    → open_changes locked (mark id now cs) ≤ open_changes locked cs
unfolding open_changes is_open mark
open_changes-mark locked id now [] = omega arith
open_changes-mark locked id now (c ∷ cs) = ground (arith, open_changes-mark locked id now cs)

-- What is known of the row that `next_change` answers.
pub record IsNext (locked : ℕ → Bool) (cs : List EntityChange) (c : EntityChange) : Type 0 where
  pub is_there : Memᴰ c cs
  pub is_open_row : is_open locked c ≡ true
  pub least : every (λ d. not (is_open locked d) || leb c.id d.id) cs ≡ true

pub next_change-none :
    (locked : ℕ → Bool) (cs : List EntityChange)
    → next_change locked cs ≡ none
    → every (λ d. not (is_open locked d)) cs ≡ true
unfolding next_change
next_change-none locked [] h = refl
next_change-none locked (c ∷ cs) h = elim (Bool-cases (is_open locked c)) [
  | inl o ↦ elim (Option-cases (next_change locked cs)) [
    | inl e ↦ cc (rw (o, next_change, e) at h)
    | inr (d, e) ↦ elim (Bool-cases (ltb d.id c.id)) [
      | inl l ↦ cc (rw (o, next_change, e, l) at h)
      | inr l ↦ cc (rw (o, next_change, e, l) at h)
    ]
  ]
  | inr o ↦ rw o (next_change-none locked cs (rw (o, next_change) at h))
]

none_open :
    (locked : ℕ → Bool) (cs : List EntityChange)
    → every (λ d. not (is_open locked d)) cs ≡ true
    → open_changes locked cs ≡ 0
unfolding open_changes
none_open locked [] h = refl
none_open locked (c ∷ cs) h = ground (arith, none_open locked cs)

none_open_least :
    (locked : ℕ → Bool) (cs : List EntityChange) (n : ℕ)
    → every (λ d. not (is_open locked d)) cs ≡ true
    → every (λ d. not (is_open locked d) || leb n d.id) cs ≡ true
none_open_least locked [] n h = refl
none_open_least locked (c ∷ cs) n h = ground (arith, none_open_least locked cs n)

least_below :
    (locked : ℕ → Bool) (cs : List EntityChange) (n m : ℕ)
    → n ≤ m
    → every (λ d. not (is_open locked d) || leb m d.id) cs ≡ true
    → every (λ d. not (is_open locked d) || leb n d.id) cs ≡ true
least_below locked [] n m le h = refl
least_below locked (c ∷ cs) n m le h = ground (arith, least_below locked cs n m le)

pub next_change-IsNext :
    (locked : ℕ → Bool) (cs : List EntityChange) (c : EntityChange)
    → next_change locked cs ≡ some c
    → IsNext locked cs c
unfolding next_change
next_change-IsNext locked [] c h = cc h
next_change-IsNext locked (d ∷ cs) c h = elim (Bool-cases (is_open locked d)) [
  | inr o ↦
      let next = next_change-IsNext locked cs c (rw (o, next_change) at h) in
      record {
        is_there = Memᴰ.tail next.is_there;
        is_open_row = next.is_open_row;
        least = ground (arith, o, next.least);
      }
  | inl o ↦ elim (Option-cases (next_change locked cs)) [
    | inl e ↦
        let same : d ≡ c = cc (rw (o, next_change, e) at h) in
        subst (IsNext locked (d ∷ cs)) same (record {
          is_there = Memᴰ.head refl;
          is_open_row = o;
          least = ground (arith, o, none_open_least locked cs d.id (next_change-none locked cs e));
        })
    | inr (f, e) ↦
        let next = next_change-IsNext locked cs f e in
        elim (Bool-cases (ltb f.id d.id)) [
          | inl l ↦
              let same : f ≡ c = cc (rw (o, next_change, e, l) at h) in
              subst (IsNext locked (d ∷ cs)) same (record {
                is_there = Memᴰ.tail next.is_there;
                is_open_row = next.is_open_row;
                least = ground (arith, next.least, l);
              })
          | inr l ↦
              let same : d ≡ c = cc (rw (o, next_change, e, l) at h) in
              subst (IsNext locked (d ∷ cs)) same (record {
                is_there = Memᴰ.head refl;
                is_open_row = o;
                least =
                    ground (arith, l, least_below locked cs d.id f.id (ground arith) next.least);
              })
        ]
  ]
]

pub open_changes-mark_less :
    (locked : ℕ → Bool) (c : EntityChange) (now : ℕ) (cs : List EntityChange)
    → Memᴰ c cs
    → is_open locked c ≡ true
    → open_changes locked (mark c.id now cs) < open_changes locked cs
unfolding open_changes is_open mark
open_changes-mark_less locked c now [] m h = absurd (Memᴰ.not-nil m)
open_changes-mark_less locked c now (d ∷ cs) (Memᴰ.head e) h =
    ground (arith, e, open_changes-mark locked c.id now cs)
open_changes-mark_less locked c now (d ∷ cs) (Memᴰ.tail m) h =
    ground (arith, open_changes-mark_less locked c now cs m h)
