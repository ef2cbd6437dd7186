-- ===== src/Api/Entities.antt =====
-- The entity graph over the API: graph/views.py with the serializers of graph/serializers.py.
use nutanix_hack.Prelude.{
  ℕ, zero, suc, Bool, true, false, ◌&&◌, String, Option, none, some, List, [], ◌∷◌, reverse, str_eq,
  if◌then◌else◌,
}
use nutanix_hack.Prelude.Texts.{is_text}
use nutanix_hack.Json.{Fields, end}
use nutanix_hack.Graph.{
  EntityKey, Entity, EntityEdge, EntityChange, Graph, find_entity, upsert_entity, link, ref_of,
  is_unprocessed, same_key,
}
use nutanix_hack.Api.{Response, okay, created, bad_request, not_found, server_error}

-- `EntitySerializer`; the key stands for the id.
pub record EntityView : Type 0 where
  pub ref : String
  pub type : String
  pub external_id : String
  pub attrs : Fields
  pub version : ℕ

abbrev pub view_entity : Entity → EntityView
view_entity e = record {
  ref = ref_of e.key;
  type = e.key.type;
  external_id = e.key.external_id;
  attrs = e.attrs;
  version = e.version;
}

-- `EntityEdgeSerializer`
pub record EdgeView : Type 0 where
  pub src : String
  pub rel : String
  pub dst : String

abbrev pub view_edge : EntityEdge → EdgeView
view_edge e = record { src = ref_of e.src; rel = e.rel; dst = ref_of e.dst }

-- `EntityChangeSerializer`
pub record ChangeView : Type 0 where
  pub id : ℕ
  pub entity : String
  pub entity_type : String
  pub before : Fields
  pub after : Fields
  pub changed_keys : List String
  pub processed_at : Option ℕ

abbrev pub view_change : EntityChange → ChangeView
view_change c = record {
  id = c.id;
  entity = ref_of c.entity;
  entity_type = c.entity.type;
  before = c.before;
  after = c.after;
  changed_keys = c.changed_keys;
  processed_at = c.processed_at;
}

-- An entity with `changed` and `changed_keys`.
pub record WriteView : Type 0 where
  pub entity : EntityView
  pub changed : Bool
  pub changed_keys : List String

abbrev pub view_write : Entity × Option EntityChange → WriteView
view_write (e, none) = record { entity = view_entity e; changed = false; changed_keys = [] }
view_write (e, some change) = record {
  entity = view_entity e;
  changed = true;
  changed_keys = change.changed_keys;
}

abbrev pub reply_write : Entity × Option EntityChange → Response WriteView
reply_write (e, none) = okay (view_write (e, none))
reply_write (e, some change) = created (view_write (e, some change))

-- `if entity_type: qs.filter(type=entity_type)`
abbrev has_type : Option String → Entity → Bool
has_type none e = true
has_type (some type) e = if is_text type then str_eq e.key.type type else true

entities_of : String → Option String → List Entity → List EntityView
entities_of tenant type [] = []
entities_of tenant type (e ∷ es) =
    let rest = entities_of tenant type es in
    if str_eq e.key.tenant tenant && has_type type e then view_entity e ∷ rest else rest

unfoldable pub list_entities : String → Option String → Graph → Response (List EntityView)
unfolding entities_of
list_entities tenant type g = okay (entities_of tenant type g.entities)

-- What is posted as attributes: an object, an empty list or text, false or zero, or a value of which
-- `dict` makes nothing. A list of pairs, of which it makes something, is none of these.
pub data Attrs : Type 0 where
  an_object : Fields → Attrs
  empty_sequence falsy no_mapping : Attrs

-- `UpsertEntitySerializer`
pub record Upsert : Type 0 where
  pub type : String
  pub external_id : String
  pub attrs : Attrs
  pub replace : Bool

-- `data.get("attrs") or {}`; `none` is a value that `dict` and `**` refuse.
unfoldable pub attrs_of : Attrs → Option Fields
attrs_of (an_object fs) = some fs
attrs_of empty_sequence = some end
attrs_of falsy = some end
attrs_of no_mapping = none

abbrev pub key_of : String → String → String → EntityKey
key_of tenant type external_id = record { tenant = tenant; type = type; external_id = external_id }

abbrev pub reply_with :
    (Entity × Option EntityChange → Response WriteView)
    → (Entity × Option EntityChange) × Graph
    → Response WriteView × Graph
reply_with reply (written, g) = (reply written, g)

abbrev pub upsert_with :
    (Entity × Option EntityChange → Response WriteView)
    → EntityKey
    → Option Fields
    → Bool
    → Graph
    → Response WriteView × Graph
upsert_with reply k none replace g = (server_error, g)
upsert_with reply k (some attrs) replace g = reply_with reply (upsert_entity k attrs replace g)

-- `EntityListView.post`
unfoldable pub post_entity : String → Option Upsert → Graph → Response WriteView × Graph
post_entity tenant none g = (bad_request, g)
post_entity tenant (some u) g =
    upsert_with reply_write (key_of tenant u.type u.external_id) (attrs_of u.attrs) u.replace g

-- `PatchEntitySerializer`
pub record Patch : Type 0 where
  pub attrs : Attrs
  pub replace : Bool

-- The attributes of a patch as they are: `dict` takes an empty list or text, `**` does not.
abbrev pub patched : Bool → Attrs → Option Fields
patched replace (an_object fs) = some fs
patched replace empty_sequence = if replace then some end else none
patched replace falsy = none
patched replace no_mapping = none

abbrev pub patch_found :
    EntityKey → Option Entity → Option Patch → Graph → Response WriteView × Graph
patch_found k none p g = (not_found, g)
patch_found k (some e) none g = (bad_request, g)
patch_found k (some e) (some p) g =
    upsert_with (λ w. okay (view_write w)) k (patched p.replace p.attrs) p.replace g

-- `EntityDetailView.patch`
unfoldable pub patch_entity : EntityKey → Option Patch → Graph → Response WriteView × Graph
patch_entity k p g = patch_found k (find_entity g.entities k) p g

-- An entity with its edges, out and in.
pub record DetailView : Type 0 where
  pub entity : EntityView
  pub out_edges : List EdgeView
  pub in_edges : List EdgeView

edges_where : (EntityEdge → Bool) → List EntityEdge → List EdgeView
edges_where p [] = []
edges_where p (e ∷ es) = let rest = edges_where p es in if p e then view_edge e ∷ rest else rest

-- `EntityDetailView.get`
unfoldable pub get_entity : EntityKey → Graph → Response DetailView
unfolding edges_where
get_entity k g = elim (find_entity g.entities k) [
  | none ↦ not_found
  | some e ↦ okay (record {
    entity = view_entity e;
    out_edges = edges_where (λ edge. same_key edge.src k) g.edges;
    in_edges = edges_where (λ edge. same_key edge.dst k) g.edges;
  })
]

-- The body of a link, with `none` for a key that is missing.
pub record Link : Type 0 where
  pub to_type : Option String
  pub to_external_id : Option String
  pub rel : Option String

abbrev pub link_found :
    String
    → EntityKey
    → EntityKey
    → Option Entity
    → Option String
    → Graph
    → Response EdgeView × Graph
link_found tenant src dst none rel g = (not_found, g)
link_found tenant src dst (some d) none g = (server_error, g)
link_found tenant src dst (some d) (some rel) g =
    let (edge, later) = link tenant src rel dst g in (created (view_edge edge), later)

abbrev pub link_to :
    String
    → EntityKey
    → Option String
    → Option String
    → Option String
    → Graph
    → Response EdgeView × Graph
link_to tenant src (some type) (some external_id) rel g =
    let dst = key_of tenant type external_id in
    link_found tenant src dst (find_entity g.entities dst) rel g
link_to tenant src _ _ rel g = (server_error, g)

abbrev pub link_from : String → EntityKey → Option Entity → Link → Graph → Response EdgeView × Graph
link_from tenant src none l g = (not_found, g)
link_from tenant src (some s) l g = link_to tenant src l.to_type l.to_external_id l.rel g

-- `EntityLinkView.post`; a missing key is a KeyError.
unfoldable pub post_link : EntityKey → Link → Graph → Response EdgeView × Graph
post_link src l g = link_from src.tenant src (find_entity g.entities src) l g

unfoldable pub take_changes : ℕ → List ChangeView → List ChangeView
take_changes zero cs = []
take_changes (suc n) [] = []
take_changes (suc n) (c ∷ cs) = c ∷ take_changes n cs

changes_where : (EntityChange → Bool) → List EntityChange → List ChangeView
changes_where p [] = []
changes_where p (c ∷ cs) =
    let rest = changes_where p cs in if p c then view_change c ∷ rest else rest

abbrev pub shown_changes : ℕ
shown_changes = 50

-- `ChangeListView.get`: the newest change first.
unfoldable pub list_changes : String → Bool → Graph → Response (List ChangeView)
unfolding changes_where
list_changes tenant unprocessed g = okay (
    take_changes shown_changes (
      reverse (
        changes_where
          (λ c. str_eq c.entity.tenant tenant && (if unprocessed then is_unprocessed c else true))
          g.changes)))
