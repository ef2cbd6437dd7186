-- ===== src/Graph.antt =====
-- graph/service.py and graph/models.py: entities, their edges, and the outbox of their changes.
pub mod Diff
pub mod History
pub mod Mutations
pub mod Proper
pub mod Resync
mod Examples
use nutanix_hack.Prelude.{
  ℕ, suc, Bool, true, false, ◌&&◌, String, concat, Option, none, some, List, [], ◌∷◌, ◌++◌, str_eq,
  is_empty, ◌==◌, if◌then◌else◌,
}
use nutanix_hack.Prelude.Texts.{is_text}
use nutanix_hack.Json.{Value, Fields, Items, str, obj, arr, end, field, nil, cons}
use nutanix_hack.Graph.Diff.{merge, keys_of, sorted_set, diff}

-- What identifies an entity (uniq_entity_tenant_type_extid); it stands for the UUID too.
pub record EntityKey : Type 0 where
  pub tenant : String
  pub type : String
  pub external_id : String

pub record Entity : Type 0 where
  pub key : EntityKey
  pub attrs : Fields
  pub version : ℕ

pub record EntityEdge : Type 0 where
  pub tenant : String
  pub src : EntityKey
  pub rel : String
  pub dst : EntityKey

-- `entity_type` is the type of the entity, and the tenant is its tenant.
pub record EntityChange : Type 0 where
  pub id : ℕ
  pub entity : EntityKey
  pub before : Fields
  pub after : Fields
  pub changed_keys : List String
  pub processed_at : Option ℕ

-- The three tables; `next_id` is the sequence of the outbox's ids.
pub record Graph : Type 0 where
  pub entities : List Entity
  pub edges : List EntityEdge
  pub changes : List EntityChange
  pub next_id : ℕ

abbrev pub same_key : EntityKey → EntityKey → Bool
same_key a b =
    str_eq a.tenant b.tenant && (str_eq a.type b.type && str_eq a.external_id b.external_id)

unfoldable pub find_entity : List Entity → EntityKey → Option Entity
find_entity [] k = none
find_entity (e ∷ es) k = if same_key e.key k then some e else find_entity es k

-- `create` of a key that is not there, `save` of one that is.
unfoldable pub put_entity : List Entity → Entity → List Entity
put_entity [] row = row ∷ []
put_entity (e ∷ es) row = if same_key e.key row.key then row ∷ es else e ∷ put_entity es row

-- An entity's row and its outbox row, written together.
unfoldable pub write : Entity → EntityChange → Graph → (Entity × Option EntityChange) × Graph
write row change g = (
  (row, some change),
  record g {
    entities = put_entity g.entities row;
    changes = g.changes ++ change ∷ [];
    next_id = suc g.next_id;
  },
)

unfoldable pub create : EntityKey → Fields → Graph → (Entity × Option EntityChange) × Graph
create k attrs g =
    write (record { key = k; attrs = attrs; version = 1 })
      (record {
        id = g.next_id;
        entity = k;
        before = end;
        after = attrs;
        changed_keys = sorted_set (keys_of attrs);
        processed_at = none;
      })
      g

unfoldable pub update : Entity → Fields → Graph → (Entity × Option EntityChange) × Graph
update e after g =
    if is_empty (diff e.attrs after)
    then ((e, none), g)
    else write (record e { attrs = after; version = suc e.version })
        (record {
          id = g.next_id;
          entity = e.key;
          before = e.attrs;
          after = after;
          changed_keys = diff e.attrs after;
          processed_at = none;
        })
        g

abbrev create_or_update :
    Option Entity → EntityKey → Fields → Bool → Graph → (Entity × Option EntityChange) × Graph
create_or_update none k attrs replace g = create k attrs g
create_or_update (some e) k attrs replace g =
    update e (if replace then attrs else merge e.attrs attrs) g

unfoldable pub upsert_entity :
    EntityKey → Fields → Bool → Graph → (Entity × Option EntityChange) × Graph
upsert_entity k attrs replace g = create_or_update (find_entity g.entities k) k attrs replace g

abbrev same_edge : EntityEdge → EntityEdge → Bool
same_edge a b =
    str_eq a.tenant b.tenant
    && (same_key a.src b.src && (str_eq a.rel b.rel && same_key a.dst b.dst))

abbrev pub has_edge : EntityEdge → List EntityEdge → Bool
has_edge edge [] = false
has_edge edge (e ∷ es) = if same_edge e edge then true else has_edge edge es

-- `get_or_create`
unfoldable pub link : String → EntityKey → String → EntityKey → Graph → EntityEdge × Graph
link tenant src rel dst g =
    let edge : EntityEdge = record { tenant = tenant; src = src; rel = rel; dst = dst } in
    (edge, if has_edge edge g.edges then g else record g { edges = g.edges ++ edge ∷ [] })

-- `if rel: qs.filter(rel=rel)`
abbrev is_labelled : Option String → EntityEdge → Bool
is_labelled none e = true
is_labelled (some rel) e = if is_text rel then str_eq e.rel rel else true

out_of : List EntityEdge → EntityKey → Option String → List EntityKey
out_of [] k rel = []
out_of (e ∷ es) k rel =
    let rest = out_of es k rel in
    if same_key e.src k && is_labelled rel e then e.dst ∷ rest else rest

into : List EntityEdge → EntityKey → Option String → List EntityKey
into [] k rel = []
into (e ∷ es) k rel =
    let rest = into es k rel in if same_key e.dst k && is_labelled rel e then e.src ∷ rest else rest

unfoldable pub related : EntityKey → Option String → String → Graph → List EntityKey
unfolding out_of into
related k rel direction g =
    if str_eq direction "out" then out_of g.edges k rel else into g.edges k rel

abbrev pub ref_of : EntityKey → String
ref_of k = concat k.type (concat ":" k.external_id)

abbrev texts : List String → Items
texts [] = nil
texts (x ∷ xs) = cons (str x) (texts xs)

unfoldable pub change_context : EntityChange → Value
change_context change =
    let k = change.entity in
    obj (
      field "entity"
        (obj (
          field "type" (str k.type) (
            field "external_id" (str k.external_id)
              (field "attrs" (obj change.after) (field "ref" (str (ref_of k)) end)))))
        (field "before" (obj change.before) (
          field "after" (obj change.after)
            (field "changed_keys" (arr (texts change.changed_keys)) end))))

abbrev pub is_unprocessed : EntityChange → Bool
is_unprocessed change = elim change.processed_at [ none ↦ true | some at ↦ false ]

abbrev of_tenant : Option String → EntityChange → Bool
of_tenant none change = true
of_tenant (some tenant) change = str_eq change.entity.tenant tenant

count_changes : (EntityChange → Bool) → List EntityChange → ℕ
count_changes p [] = 0
count_changes p (c ∷ cs) = let rest = count_changes p cs in if p c then suc rest else rest

unfoldable pub unprocessed_count : Option String → Graph → ℕ
unfolding count_changes
unprocessed_count tenant g = count_changes (λ c. is_unprocessed c && of_tenant tenant c) g.changes

unfoldable pub mark : ℕ → ℕ → List EntityChange → List EntityChange
mark id now [] = []
mark id now (c ∷ cs) =
    let rest = mark id now cs in
    if c.id == id then record c { processed_at = some now } ∷ rest else c ∷ rest

-- `processed_at` alone is saved.
unfoldable pub mark_processed : EntityChange → ℕ → Graph → Graph
unfolding mark
mark_processed change now g = record g { changes = mark change.id now g.changes }
