-- ===== src/Graph/History.antt =====
-- The outbox as the record of the entity table: `upsert_entity` of graph/service.py.
use nutanix_hack.Prelude.{
  suc, ◌≡◌, refl, sym, subst, ap, Bool, true, false, Option, none, some, List, [], ◌∷◌, ◌++◌, arith,
  length, length-append, is_empty, eq_iff, eq_refl, if◌then◌else◌, Bool-cases, Option-cases, inl,
  inr,
}
use nutanix_hack.Json.{Fields, end}
use nutanix_hack.Graph.Diff.{merge, diff}
use nutanix_hack.Graph.{
  EntityKey, Entity, EntityChange, Graph, same_key, find_entity, put_entity, write, create, update,
  upsert_entity,
}

-- The changes of one entity, in the order of the outbox.
abbrev pub changes_of : EntityKey → List EntityChange → List EntityChange
changes_of k [] = []
changes_of k (c ∷ cs) = let rest = changes_of k cs in if same_key c.entity k then c ∷ rest else rest

-- Each change starts from what the one before it left; the last left `after`.
abbrev pub Chain : Fields → List EntityChange → Fields → Type 0
Chain before [] after = before ≡ after
Chain before (c ∷ cs) after = (c.before ≡ before) × Chain c.after cs after

abbrev pub Recorded : Option Entity → List EntityChange → Type 0
Recorded none cs = cs ≡ []
Recorded (some e) cs = Chain end cs e.attrs × (e.version ≡ length cs)

pub record IsRecorded (g : Graph) : Type 0 where
  pub at : (k : EntityKey) → Recorded (find_entity g.entities k) (changes_of k g.changes)

same_key_eq : (a b : EntityKey) → same_key a b ≡ true → a ≡ b
same_key_eq a b h =
    let t : a.tenant ≡ b.tenant = ground (arith, eq_iff a.tenant b.tenant) in
    let y : a.type ≡ b.type = ground (arith, eq_iff a.type b.type) in
    let x : a.external_id ≡ b.external_id = ground (arith, eq_iff a.external_id b.external_id) in
    λ i. record { tenant = t i; type = y i; external_id = x i }

pub same_key_refl : (k : EntityKey) → same_key k k ≡ true
same_key_refl k = ground (arith, eq_refl k.tenant, eq_refl k.type, eq_refl k.external_id)

pub find_entity-key :
    (es : List Entity) (k : EntityKey) (e : Entity) → find_entity es k ≡ some e → e.key ≡ k
unfolding find_entity
find_entity-key [] k e h = cc h
find_entity-key (f ∷ es) k e h = elim (Bool-cases (same_key f.key k)) [
  | inl s ↦ cc (rw (s, find_entity) at h, same_key_eq f.key k s)
  | inr s ↦ find_entity-key es k e (rw (s, find_entity) at h)
]

pub find_entity-put_entity :
    (es : List Entity) (row : Entity) (k : EntityKey)
    → find_entity (put_entity es row) k
      ≡ (if same_key row.key k then some row else find_entity es k)
unfolding find_entity put_entity
find_entity-put_entity [] row k = refl
find_entity-put_entity (e ∷ es) row k = elim (Bool-cases (same_key e.key row.key)) [
  | inl s ↦ rw (ap (λ j. same_key j k) (same_key_eq e.key row.key s)) (ground arith)
  | inr s ↦
      ground (arith, find_entity-put_entity es row k, same_key_eq e.key k, same_key_eq row.key k)
]

changes_of-append :
    (k : EntityKey) (cs : List EntityChange) (c : EntityChange)
    → changes_of k (cs ++ c ∷ [])
      ≡ (if same_key c.entity k then changes_of k cs ++ c ∷ [] else changes_of k cs)
changes_of-append k [] c = refl
changes_of-append k (d ∷ cs) c = ground (arith, changes_of-append k cs c)

Chain-append :
    (before : Fields) (cs : List EntityChange) (middle : Fields) (c : EntityChange)
    → Chain before cs middle
    → c.before ≡ middle
    → Chain before (cs ++ c ∷ []) c.after
Chain-append before [] middle c h e = (cc, refl)
Chain-append before (d ∷ cs) middle c h e = (h.0, Chain-append d.after cs middle c h.1 e)

Recorded-if :
    (b : Bool) (row : Entity) (o : Option Entity) (longer cs : List EntityChange)
    → (b ≡ true → Recorded (some row) longer)
    → Recorded o cs
    → Recorded (if b then some row else o) (if b then longer else cs)
Recorded-if true row o longer cs h k = h refl
Recorded-if false row o longer cs h k = k

-- An entity row written with a change that takes its history on.
write-IsRecorded :
    (row : Entity) (change : EntityChange) (g : Graph)
    → IsRecorded g
    → change.entity ≡ row.key
    → Chain end (changes_of row.key g.changes ++ change ∷ []) row.attrs
    → row.version ≡ suc (length (changes_of row.key g.changes))
    → IsRecorded (write row change g).1
unfolding write
write-IsRecorded row change g h same chain counted = record {
  at = λ k.
      let hs = changes_of row.key g.changes in
      let longer = changes_of k g.changes ++ change ∷ [] in
      let appended : changes_of k (g.changes ++ change ∷ [])
          ≡ (if same_key row.key k then longer else changes_of k g.changes) =
        subst
          (λ j.
            changes_of k (g.changes ++ change ∷ [])
            ≡ (if same_key j k then longer else changes_of k g.changes))
          same (changes_of-append k g.changes change) in
      let counts : row.version ≡ length (hs ++ change ∷ []) =
        omega (arith, counted, length-append hs (change ∷ [])) in
      rw (find_entity-put_entity g.entities row k, appended)
        (Recorded-if (same_key row.key k) row (find_entity g.entities k) longer
          (changes_of k g.changes)
          (λ s.
            subst (λ j. Recorded (some row) (changes_of j g.changes ++ change ∷ []))
              (same_key_eq row.key k s) (chain, counts))
          (h.at k));
}

create-IsRecorded :
    (k : EntityKey) (attrs : Fields) (g : Graph)
    → IsRecorded g
    → find_entity g.entities k ≡ none
    → IsRecorded (create k attrs g).1
unfolding create
create-IsRecorded k attrs g h e =
    let fresh : changes_of k g.changes ≡ [] =
      subst (λ o. Recorded o (changes_of k g.changes)) e (h.at k) in
    write-IsRecorded _ _ g h refl (rw fresh (refl, refl)) (rw fresh refl)

update-IsRecorded :
    (e : Entity) (after : Fields) (g : Graph)
    → IsRecorded g
    → find_entity g.entities e.key ≡ some e
    → IsRecorded (update e after g).1
unfolding update
update-IsRecorded e after g h there =
    let (chain, counted) =
      subst (λ o. Recorded o (changes_of e.key g.changes)) there (h.at e.key) in
    elim (Bool-cases (is_empty (diff e.attrs after))) [
      | inl d ↦ rw d h
      | inr d ↦ rw d (
          write-IsRecorded (record e { attrs = after; version = suc e.version }) _ g h refl
            (Chain-append end (changes_of e.key g.changes) e.attrs _ chain refl) (ap suc counted))
    ]

pub upsert_entity-IsRecorded :
    (k : EntityKey) (attrs : Fields) (replace : Bool) (g : Graph)
    → IsRecorded g
    → IsRecorded (upsert_entity k attrs replace g).1
unfolding upsert_entity
upsert_entity-IsRecorded k attrs replace g h = elim (Option-cases (find_entity g.entities k)) [
  | inl e ↦ rw e (create-IsRecorded k attrs g h e)
  | inr (e, there) ↦ rw there (
      update-IsRecorded e (if replace then attrs else merge e.attrs attrs) g h (
        subst (λ j. find_entity g.entities j ≡ some e) (sym (find_entity-key g.entities k e there))
          there))
]
