-- ===== src/Cluster/Undone.antt =====
-- The actions of fake_nodes/server.py that undo others.
use nutanix_hack.Prelude.{
  ◌≡◌, refl, sym, true, false, String, Option, none, some, eq_refl, Bool-cases, inl, inr,
}
use nutanix_hack.Prelude.Dict
use nutanix_hack.Prelude.Texts.{is_text}
use nutanix_hack.Cluster.{
  Node, Cluster, is_duplicate, remember, Action, action_of, act, upgrade, rollback, key_of,
}
use nutanix_hack.Cluster.Requests.{post_node}

act_rollback-upgrade :
    (n : Node)
    → is_text n.version ≡ true
    → n.previous_version ≡ none
    → n.healthy ≡ true
    → n.fail_after_upgrade ≡ false
    → act rollback (act upgrade n) ≡ n
unfolding act
act_rollback-upgrade n v p h f =
    let previous : none ≡ n.previous_version = sym p in
    let well : true ≡ n.healthy = sym h in
    let unarmed : false ≡ n.fail_after_upgrade = sym f in
    simp v λ i. record {
      id = n.id;
      version = n.version;
      previous_version = previous i;
      drained = n.drained;
      healthy = well i;
      fail_after_upgrade = unarmed i;
    }

-- What a delivery that is new does to the nodes.
post_node-new :
    (id action : String) (a : Action) (key : Option String) (n : Node) (s : Cluster)
    → action_of action ≡ some a
    → Dict.get s.nodes id ≡ some n
    → is_duplicate action id key s ≡ false
    → (post_node id action key (Dict.get s.nodes id) s).1.nodes ≡ Dict.set s.nodes id (act a n)
unfolding post_node remember
post_node-new id action a key n s e there d = elim (Bool-cases (is_text (key_of key))) [
  | inl t ↦ simp (there, d, e, t)
  | inr t ↦ simp (there, d, e, t)
]

-- For a healthy node with a version, no previous one and no failure armed, an upgrade and a
-- rollback that are both no duplicates leave the table of nodes as it was.
pub rollback_undoes_upgrade :
    (id : String) (up down : Option String) (n : Node) (s : Cluster)
    → Dict.get s.nodes id ≡ some n
    → is_text n.version ≡ true
    → n.previous_version ≡ none
    → n.healthy ≡ true
    → n.fail_after_upgrade ≡ false
    → is_duplicate "upgrade" id up s ≡ false
    → is_duplicate "rollback" id down (post_node id "upgrade" up (Dict.get s.nodes id) s).1 ≡ false
    → let upgraded = (post_node id "upgrade" up (Dict.get s.nodes id) s).1 in
      (post_node id "rollback" down (Dict.get upgraded.nodes id) upgraded).1.nodes ≡ s.nodes
unfolding action_of
rollback_undoes_upgrade id up down n s there v p h f d e =
    let upgraded = (post_node id "upgrade" up (Dict.get s.nodes id) s).1 in
    let nodes : upgraded.nodes ≡ Dict.set s.nodes id (act upgrade n) =
      post_node-new id "upgrade" upgrade up n s refl there d in
    let found : Dict.get upgraded.nodes id ≡ some (act upgrade n) =
      rw nodes (rw (Dict.get-set s.nodes id id (act upgrade n), eq_refl id) refl) in
    rw
      (
        post_node-new id "rollback" rollback down (act upgrade n) upgraded refl found e,
        nodes,
        Dict.set-set s.nodes id (act upgrade n) (act rollback (act upgrade n)),
        act_rollback-upgrade n v p h f,
      )
      (Dict.set-get s.nodes id n there)
