-- ===== src/Cluster/Examples.antt =====
-- Requests to a fresh cluster: tests and instances.
use nutanix_hack.Prelude.{◌≡◌, refl, true, false, String, Option, none, some, [], ◌∷◌}
use nutanix_hack.Prelude.Dict
use nutanix_hack.Prelude.Texts.{split}
use nutanix_hack.Cluster.{
  Node, Cluster, Request, Body, no_reply, fresh, fresh_cluster, is_duplicate, remember, marker,
  action_of, act, upgrade, rollback,
}
use nutanix_hack.Cluster.Requests.{parts_of, route_of, post, post_route, post_node, checked}
use nutanix_hack.Cluster.Undone.{rollback_undoes_upgrade}
use nutanix_hack.Cluster.Redelivered.{redelivery_absorbed, post_all}

abbrev no_body : Body
no_body = record {
  employee = none;
  person = none;
  role = none;
  device = none;
  channels = none;
  access = none;
  band = none;
  model = none;
}

abbrev sent : String → String → Request
sent path key = record { path = path; key = some key; body = no_body }

abbrev node_1 : Node
node_1 = record {
  id = "node-1";
  version = "7.0";
  previous_version = none;
  drained = false;
  healthy = true;
  fail_after_upgrade = false;
}

abbrev version_of : Cluster → Option Node
version_of s = Dict.get s.nodes "node-1"

path_parts : parts_of "//nodes/node-1/drain?x=1" ≡ ("nodes" ∷ "node-1" ∷ "drain" ∷ [])
unfolding parts_of split
path_parts = refl

-- A second upgrade under another key makes 7.1 the version that a rollback restores.
twice_upgraded : act rollback (act upgrade (act upgrade node_1)) ≡ record node_1 { version = "7.1" }
unfolding act
twice_upgraded = refl

-- An armed node fails its check after the upgrade only.
armed : (checked (record node_1 { fail_after_upgrade = true })).healthy ≡ true
unfolding checked
armed = refl

armed_and_upgraded :
    (checked (record (act upgrade node_1) { fail_after_upgrade = true })).healthy ≡ false
unfolding checked act
armed_and_upgraded = refl

no_action : (post (sent "/google" "k") fresh).0 ≡ no_reply
unfolding post parts_of route_of post_route split
no_action = refl

rollback_undoes_upgrade_example :
    (post_node "node-1" "rollback"
      (some "b")
      (Dict.get
        (post_node "node-1" "upgrade" (some "a") (Dict.get fresh.nodes "node-1") fresh).1.nodes
        "node-1")
      (post_node "node-1" "upgrade" (some "a") (Dict.get fresh.nodes "node-1") fresh).1).1.nodes
    ≡ fresh.nodes
unfolding fresh fresh_cluster is_duplicate post_node remember marker action_of act Dict.get
rollback_undoes_upgrade_example =
    rollback_undoes_upgrade "node-1" (some "a") (some "b") node_1 fresh refl refl refl refl refl
      refl refl

redelivery_absorbed_example :
    let after =
      post_all
        (sent "/nodes/node-1/undrain" "b" ∷ [])
        (post_node "node-1" "drain" (some "a") (Dict.get fresh.nodes "node-1") fresh).1 in
    (post_node "node-1" "drain" (some "a") (Dict.get after.nodes "node-1") after).1 ≡ after
unfolding fresh fresh_cluster parts_of split route_of Dict.get
redelivery_absorbed_example =
    redelivery_absorbed "node-1" "drain" (some "a") node_1 (sent "/nodes/node-1/undrain" "b" ∷ [])
      fresh refl refl refl
