-- ===== src/Graph/Resync.antt =====
-- Writing the same attributes again: `upsert_entity` of graph/service.py called twice alike.
use nutanix_hack.Prelude.{
  ◌≡◌, refl, Bool, true, false, String, List, suc, Option, none, some, [], ◌∷◌, is_empty,
  if◌then◌else◌, Bool-cases, Option-cases, inl, inr,
}
use nutanix_hack.Json.{Fields}
use nutanix_hack.Graph.Diff.{merge, diff}
use nutanix_hack.Graph.Proper.{
  AreProper, Part-self, Part-merge, diff_self, merge-Part, merge-AreProper,
}
use nutanix_hack.Graph.History.{find_entity-key, find_entity-put_entity, same_key_refl}
use nutanix_hack.Graph.{EntityKey, Entity, Graph, find_entity, upsert_entity, create, update, write}

-- The attributes of a row, if it is there, have no key twice.
abbrev pub RowIsProper : Option Entity → Type 0
RowIsProper none = Unit {0}
RowIsProper (some e) = AreProper e.attrs

-- What the attributes become.
abbrev written : Fields → Fields → Bool → Fields
written before attrs replace = if replace then attrs else merge before attrs

written-AreProper :
    (before attrs : Fields) (replace : Bool)
    → AreProper before
    → AreProper attrs
    → AreProper (written before attrs replace)
written-AreProper before attrs true h k = k
written-AreProper before attrs false h k = merge-AreProper before attrs h k

written_again :
    (before attrs : Fields) (replace : Bool)
    → AreProper attrs
    → written (written before attrs replace) attrs replace ≡ written before attrs replace
written_again before attrs true k = refl
written_again before attrs false k =
    merge-Part (merge before attrs) attrs (Part-merge before attrs k)

-- A row that has what is written to it.
unchanged :
    (k : EntityKey) (attrs : Fields) (replace : Bool) (g : Graph) (e : Entity)
    → find_entity g.entities k ≡ some e
    → diff e.attrs (written e.attrs attrs replace) ≡ []
    → upsert_entity k attrs replace g ≡ ((e, none), g)
unfolding upsert_entity update
unchanged k attrs replace g e there same = rw (there, same) refl

-- After a row was put, the same write finds it and changes nothing.
put_again :
    (k : EntityKey) (attrs : Fields) (replace : Bool) (g : Graph) (row : Entity)
    → find_entity g.entities k ≡ some row
    → AreProper row.attrs
    → written row.attrs attrs replace ≡ row.attrs
    → upsert_entity k attrs replace g ≡ ((row, none), g)
put_again k attrs replace g row there proper same =
    unchanged k attrs replace g row there (rw same (diff_self row.attrs proper))

created_again :
    (k : EntityKey) (attrs : Fields) (replace : Bool) (g : Graph)
    → AreProper attrs
    → upsert_entity k attrs replace (create k attrs g).1
      ≡ (((create k attrs g).0.0, none), (create k attrs g).1)
unfolding create write
created_again k attrs replace g h =
    let row : Entity = record { key = k; attrs = attrs; version = 1 } in
    put_again k attrs replace (create k attrs g).1 row
      (rw (find_entity-put_entity g.entities row k, same_key_refl k) refl) h (own replace)
  where
    own : (r : Bool) → written attrs attrs r ≡ attrs
    own true = refl
    own false = merge-Part attrs attrs (Part-self attrs h)

updated_again :
    (k : EntityKey) (attrs : Fields) (replace : Bool) (g : Graph) (e : Entity)
    → find_entity g.entities k ≡ some e
    → AreProper e.attrs
    → AreProper attrs
    → upsert_entity k attrs replace (update e (written e.attrs attrs replace) g).1 ≡ (
      ((update e (written e.attrs attrs replace) g).0.0, none),
      (update e (written e.attrs attrs replace) g).1,
    )
unfolding update write
updated_again k attrs replace g e there p h =
    let after = written e.attrs attrs replace in
    let row : Entity = record e { attrs = after; version = suc e.version } in
    elim (Bool-cases (is_empty (diff e.attrs after))) [
      | inl same ↦ rw same (unchanged k attrs replace g e there (empty_diff _ same))
      | inr changed ↦ rw changed (
          put_again k attrs replace _ row
            (rw
              (
                find_entity-put_entity g.entities row k,
                find_entity-key g.entities k e there,
                same_key_refl k,
              )
              refl)
            (written-AreProper e.attrs attrs replace p h) (written_again e.attrs attrs replace h))
    ]
  where
    empty_diff : (ks : List String) → is_empty ks ≡ true → ks ≡ []
    empty_diff [] h = refl
    empty_diff (k ∷ ks) h = cc h

creates :
    (k : EntityKey) (attrs : Fields) (replace : Bool) (g : Graph)
    → find_entity g.entities k ≡ none
    → upsert_entity k attrs replace g ≡ create k attrs g
unfolding upsert_entity
creates k attrs replace g e = rw e refl

updates :
    (k : EntityKey) (attrs : Fields) (replace : Bool) (g : Graph) (row : Entity)
    → find_entity g.entities k ≡ some row
    → upsert_entity k attrs replace g ≡ update row (written row.attrs attrs replace) g
unfolding upsert_entity
updates k attrs replace g row e = rw e refl

-- If no object in the attributes that are written, nor in those of the row, has a key twice, then
-- the same upsert_entity after an upsert_entity answers the entity of the first with no change, and
-- leaves the graph as it is.
pub upsert_entity_again :
    (k : EntityKey) (attrs : Fields) (replace : Bool) (g : Graph)
    → AreProper attrs
    → RowIsProper (find_entity g.entities k)
    → upsert_entity k attrs replace (upsert_entity k attrs replace g).1
      ≡ (((upsert_entity k attrs replace g).0.0, none), (upsert_entity k attrs replace g).1)
upsert_entity_again k attrs replace g h p = elim (Option-cases (find_entity g.entities k)) [
  | inl e ↦ rw (creates k attrs replace g e) (created_again k attrs replace g h)
  | inr (row, e) ↦
      rw (updates k attrs replace g row e) (updated_again k attrs replace g row e (rw e at p) h)
]
