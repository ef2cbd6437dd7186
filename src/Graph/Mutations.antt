-- ===== src/Graph/Mutations.antt =====
-- Sequences of writes to the graph: `upsert_entity`, `link` and `mark_processed` of graph/service.py.
use nutanix_hack.Prelude.{
  ℕ, ◌≡◌, refl, Bool, String, Option, none, some, List, [], ◌∷◌, arith, length, Bool-cases, inl,
  inr, ◌==◌,
}
use nutanix_hack.Json.{Fields, end}
use nutanix_hack.Graph.{
  EntityKey, Entity, EntityChange, Graph, find_entity, upsert_entity, mark_processed, mark, link,
  has_edge,
}
use nutanix_hack.Graph.History.{changes_of, Chain, Recorded, IsRecorded, upsert_entity-IsRecorded}

pub data Mutation : Type 0 where
  upserts : (k : EntityKey) (attrs : Fields) (replace : Bool) → Mutation
  links : (tenant : String) (src : EntityKey) (rel : String) (dst : EntityKey) → Mutation
  marks : (change : EntityChange) (now : ℕ) → Mutation

unfoldable pub mutate : Mutation → Graph → Graph
mutate (upserts k attrs replace) g = (upsert_entity k attrs replace g).1
mutate (links tenant src rel dst) g = (link tenant src rel dst g).1
mutate (marks change now) g = mark_processed change now g

unfoldable pub mutate_all : List Mutation → Graph → Graph
mutate_all [] g = g
mutate_all (m ∷ ms) g = mutate_all ms (mutate m g)

changes_of-mark :
    (k : EntityKey) (id now : ℕ) (cs : List EntityChange)
    → changes_of k (mark id now cs) ≡ mark id now (changes_of k cs)
unfolding mark
changes_of-mark k id now [] = refl
changes_of-mark k id now (c ∷ cs) = ground (arith, changes_of-mark k id now cs)

length-mark : (id now : ℕ) (cs : List EntityChange) → length (mark id now cs) ≡ length cs
unfolding mark
length-mark id now [] = refl
length-mark id now (c ∷ cs) = ground (arith, length-mark id now cs)

Chain-mark :
    (before : Fields) (id now : ℕ) (cs : List EntityChange) (after : Fields)
    → Chain before cs after
    → Chain before (mark id now cs) after
unfolding mark
Chain-mark before id now [] after h = h
Chain-mark before id now (c ∷ cs) after h = elim (Bool-cases (c.id == id)) [
  | inl e ↦ rw e (h.0, Chain-mark c.after id now cs after h.1)
  | inr e ↦ rw e (h.0, Chain-mark c.after id now cs after h.1)
]

Recorded-mark :
    (o : Option Entity) (id now : ℕ) (cs : List EntityChange)
    → Recorded o cs
    → Recorded o (mark id now cs)
unfolding mark
Recorded-mark none id now cs h = rw h refl
Recorded-mark (some e) id now cs h =
    (Chain-mark end id now cs e.attrs h.0, rw (length-mark id now cs) h.1)

pub mark_processed-IsRecorded :
    (change : EntityChange) (now : ℕ) (g : Graph)
    → IsRecorded g
    → IsRecorded (mark_processed change now g)
unfolding mark_processed
mark_processed-IsRecorded change now g h = record {
  at = λ k.
      rw (changes_of-mark k change.id now g.changes)
        (Recorded-mark (find_entity g.entities k) change.id now (changes_of k g.changes) (h.at k));
}

pub link-IsRecorded :
    (tenant : String) (src : EntityKey) (rel : String) (dst : EntityKey) (g : Graph)
    → IsRecorded g
    → IsRecorded (link tenant src rel dst g).1
unfolding link
link-IsRecorded tenant src rel dst g h =
    elim (Bool-cases
      (has_edge (record { tenant = tenant; src = src; rel = rel; dst = dst }) g.edges)) [
        | inl e ↦ rw e h
        | inr e ↦ rw e (record { at = h.at })
      ]

mutate-IsRecorded : (m : Mutation) (g : Graph) → IsRecorded g → IsRecorded (mutate m g)
unfolding mutate
mutate-IsRecorded (upserts k attrs replace) g h = upsert_entity-IsRecorded k attrs replace g h
mutate-IsRecorded (links tenant src rel dst) g h = link-IsRecorded tenant src rel dst g h
mutate-IsRecorded (marks change now) g h = mark_processed-IsRecorded change now g h

-- If each entity is accounted for by the outbox (its changes start from nothing, each starts from
-- what the one before it left, the last left the attributes of the row, the version is their
-- number, and a key without a row has none), this still holds after any sequence of calls of
-- upsert_entity, link and mark_processed.
pub mutate_all-IsRecorded :
    (ms : List Mutation) (g : Graph) → IsRecorded g → IsRecorded (mutate_all ms g)
unfolding mutate_all
mutate_all-IsRecorded [] g h = h
mutate_all-IsRecorded (m ∷ ms) g h = mutate_all-IsRecorded ms (mutate m g) (mutate-IsRecorded m g h)
