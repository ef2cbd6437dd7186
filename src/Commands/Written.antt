-- ===== src/Commands/Written.antt =====
-- What the requests to the definitions and to the graph keep.
use nutanix_hack.Prelude.{Bool, String, Option, none, some, List, Option-cases, inl, inr}
use nutanix_hack.Json.{Value, Fields}
use nutanix_hack.Spec.Cycle.{validate_spec}
use nutanix_hack.Service.Definitions.{
  WorkflowDef, Created, refused, created, create_definition, AreVersioned,
  create_definition-AreVersioned,
}
use nutanix_hack.Graph.{EntityKey, Entity, EntityChange, Graph, find_entity}
use nutanix_hack.Graph.History.{IsRecorded, upsert_entity-IsRecorded}
use nutanix_hack.Graph.Mutations.{link-IsRecorded}
use nutanix_hack.Api.{Response, okay}
use nutanix_hack.Api.Workflows.{create_workflow, reply_created}
use nutanix_hack.Api.Entities.{
  WriteView, view_write, reply_write, Upsert, Patch, Link, upsert_with, post_entity, patched,
  patch_found, link_found, link_to, link_from, attrs_of, key_of,
}

created-AreVersioned :
    (r : Created × List WorkflowDef) → AreVersioned r.1 → AreVersioned (reply_created r).1
created-AreVersioned (refused e, defs) h = h
created-AreVersioned (created d, defs) h = h

pub create_workflow-AreVersioned :
    (tenant : String) (payload : Option (Value × String)) (defs : List WorkflowDef)
    → AreVersioned defs
    → AreVersioned (create_workflow tenant payload defs).1
unfolding create_workflow
create_workflow-AreVersioned tenant none defs h = h
create_workflow-AreVersioned tenant (some (spec, description)) defs h =
    elim (Option-cases (validate_spec spec)) [
      | inr (e, invalid) ↦ rw invalid h
      | inl valid ↦ rw valid (
          created-AreVersioned (create_definition tenant spec description defs)
            (create_definition-AreVersioned tenant spec description defs h))
    ]

upsert_with-IsRecorded :
    (reply : Entity × Option EntityChange → Response WriteView) (k : EntityKey)
    (attrs : Option Fields) (replace : Bool) (g : Graph)
    → IsRecorded g
    → IsRecorded (upsert_with reply k attrs replace g).1
upsert_with-IsRecorded reply k none replace g h = h
upsert_with-IsRecorded reply k (some attrs) replace g h =
    upsert_entity-IsRecorded k attrs replace g h

pub post_entity-IsRecorded :
    (tenant : String) (payload : Option Upsert) (g : Graph)
    → IsRecorded g
    → IsRecorded (post_entity tenant payload g).1
unfolding post_entity
post_entity-IsRecorded tenant none g h = h
post_entity-IsRecorded tenant (some u) g h =
    upsert_with-IsRecorded reply_write (key_of tenant u.type u.external_id) (attrs_of u.attrs)
      u.replace g h

pub patch_found-IsRecorded :
    (k : EntityKey) (found : Option Entity) (payload : Option Patch) (g : Graph)
    → IsRecorded g
    → IsRecorded (patch_found k found payload g).1
patch_found-IsRecorded k none payload g h = h
patch_found-IsRecorded k (some e) none g h = h
patch_found-IsRecorded k (some e) (some p) g h =
    upsert_with-IsRecorded (λ w. okay (view_write w)) k (patched p.replace p.attrs) p.replace g h

link_found-IsRecorded :
    (tenant : String) (src dst : EntityKey) (found : Option Entity) (rel : Option String)
    (g : Graph)
    → IsRecorded g
    → IsRecorded (link_found tenant src dst found rel g).1
link_found-IsRecorded tenant src dst none rel g h = h
link_found-IsRecorded tenant src dst (some d) none g h = h
link_found-IsRecorded tenant src dst (some d) (some rel) g h =
    link-IsRecorded tenant src rel dst g h

link_to-IsRecorded :
    (tenant : String) (src : EntityKey) (type external_id rel : Option String) (g : Graph)
    → IsRecorded g
    → IsRecorded (link_to tenant src type external_id rel g).1
link_to-IsRecorded tenant src (some type) (some external_id) rel g h =
    let dst = key_of tenant type external_id in
    link_found-IsRecorded tenant src dst (find_entity g.entities dst) rel g h
link_to-IsRecorded tenant src (some type) none rel g h = h
link_to-IsRecorded tenant src none external_id rel g h = h

pub link_from-IsRecorded :
    (tenant : String) (src : EntityKey) (found : Option Entity) (l : Link) (g : Graph)
    → IsRecorded g
    → IsRecorded (link_from tenant src found l g).1
link_from-IsRecorded tenant src none l g h = h
link_from-IsRecorded tenant src (some s) l g h =
    link_to-IsRecorded tenant src l.to_type l.to_external_id l.rel g h
