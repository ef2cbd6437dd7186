-- ===== src/Cluster/Redelivered.antt =====
-- A delivery that comes again after other requests, to fake_nodes/server.py.
use nutanix_hack.Prelude.{
  ◌≡◌, refl, Bool, true, false, not, String, concat, Option, none, some, List, [], ◌∷◌, arith,
  contains, or_else, eq_refl, Option-cases, Bool-cases, inl, inr, every, &&-eq-true,
}
use nutanix_hack.Prelude.Dict
use nutanix_hack.Prelude.Texts.{is_text}
use nutanix_hack.Cluster.{
  Node, Cluster, Request, Body, is_duplicate, remember, marker, action_of, key_of,
}
use nutanix_hack.Cluster.Systems.{
  Operation, operation_of, operate, company, create_account, delete_account, invite, deactivate,
  add_member, remove_member, enrol, reject_next, order_laptop, cancel_laptop, person_of,
}
use nutanix_hack.Cluster.Requests.{
  Route, route_of, parts_of, post, post_route, post_node, post_account, post_assign, reset, assign,
  no_route, short_company, on_company, account, on_node,
}

abbrev is_reset : Route → Bool
is_reset reset = true
is_reset _ = false

abbrev pub resets : Request → Bool
resets r = is_reset (route_of (parts_of r.path))

-- The cluster after POST requests, one after the other.
unfoldable pub post_all : List Request → Cluster → Cluster
post_all [] s = s
post_all (r ∷ rs) s = post_all rs (post r s).1

contains-remember :
    (action id : String) (key : Option String) (s : Cluster) (m : String)
    → contains s.seen_keys m ≡ true
    → contains (remember action id key s).seen_keys m ≡ true
unfolding remember
contains-remember action id key s m h = ground arith

seen_keys-operate :
    (op : Operation) (person : String) (body : Body) (s : Cluster)
    → (operate op person body s).1.seen_keys ≡ s.seen_keys
unfolding operate
seen_keys-operate create_account person body s = refl
seen_keys-operate delete_account person body s = refl
seen_keys-operate invite person body s = refl
seen_keys-operate deactivate person body s = refl
seen_keys-operate add_member person body s = refl
seen_keys-operate remove_member person body s = refl
seen_keys-operate enrol person body s = elim (Bool-cases (contains s.payroll_will_reject person)) [
  | inl h ↦ simp h
  | inr h ↦ simp h
]
seen_keys-operate reject_next person body s = refl
seen_keys-operate order_laptop person body s = refl
seen_keys-operate cancel_laptop person body s = refl

seen_keys-company :
    (system action : String) (part : Option String) (body : Body) (s : Cluster)
    → (company system action part body s).1.seen_keys ≡ s.seen_keys
unfolding company
seen_keys-company system action part body s =
    elim (Bool-cases (is_text (person_of body.person part))) [
      | inr h ↦ simp h
      | inl h ↦ elim (Option-cases (operation_of system action)) [
        | inl e ↦ simp (h, e)
        | inr (op, e) ↦ simp (h, e, seen_keys-operate op (person_of body.person part) body s)
      ]
    ]

post_node-remembers :
    (id action : String) (key : Option String) (o : Option Node) (s : Cluster) (m : String)
    → contains s.seen_keys m ≡ true
    → contains (post_node id action key o s).1.seen_keys m ≡ true
unfolding post_node
post_node-remembers id action key none s m h = h
post_node-remembers id action key (some n) s m h =
    elim (Bool-cases (is_duplicate action id key s)) [
      | inl d ↦ simp (d, h)
      | inr d ↦ elim (Option-cases (action_of action)) [
        | inl e ↦ simp (d, e, contains-remember action id key s m h)
        | inr (a, e) ↦ simp (d, e, contains-remember action id key s m h)
      ]
    ]

post_account-remembers :
    (app : String) (key : Option String) (body : Body) (s : Cluster) (m : String)
    → contains s.seen_keys m ≡ true
    → contains (post_account app key body s).1.seen_keys m ≡ true
unfolding post_account
post_account-remembers app key body s m h =
    ground (arith, contains-remember (concat "account:" app) (or_else body.employee "") key s m h)

post_assign-remembers :
    (key : Option String) (body : Body) (s : Cluster) (m : String)
    → contains s.seen_keys m ≡ true
    → contains (post_assign key body s).1.seen_keys m ≡ true
unfolding post_assign
post_assign-remembers key body s m h =
    ground (arith, contains-remember "device" (or_else body.employee "") key s m h)

post_route-remembers :
    (route : Route) (r : Request) (s : Cluster) (m : String)
    → is_reset route ≡ false
    → contains s.seen_keys m ≡ true
    → contains (post_route route r s).1.seen_keys m ≡ true
unfolding post_route
post_route-remembers reset r s m e h = cc
post_route-remembers assign r s m e h = post_assign-remembers r.key r.body s m h
post_route-remembers no_route r s m e h = h
post_route-remembers short_company r s m e h = h
post_route-remembers (on_company system action part) r s m e h =
    rw (seen_keys-company system action part r.body s) h
post_route-remembers (account app) r s m e h = post_account-remembers app r.key r.body s m h
post_route-remembers (on_node id action) r s m e h =
    post_node-remembers id action r.key (Dict.get s.nodes id) s m h

post_all-remembers :
    (rs : List Request) (s : Cluster) (m : String)
    → every (λ r. not (resets r)) rs ≡ true
    → contains s.seen_keys m ≡ true
    → contains (post_all rs s).seen_keys m ≡ true
unfolding post_all post
post_all-remembers [] s m none_resets h = h
post_all-remembers (r ∷ rs) s m none_resets h =
    let both = &&-eq-true (not (resets r)) (every (λ r'. not (resets r')) rs) none_resets in
    post_all-remembers rs (post r s).1 m both.1
      (post_route-remembers (route_of (parts_of r.path)) r s m (ground arith) h)

post_node-marks :
    (id action : String) (key : Option String) (n : Node) (s : Cluster)
    → is_text (key_of key) ≡ true
    → contains (post_node id action key (some n) s).1.seen_keys (marker action id (key_of key))
      ≡ true
unfolding post_node is_duplicate remember
post_node-marks id action key n s h =
    elim (Bool-cases (contains s.seen_keys (marker action id (key_of key)))) [
      | inl d ↦ simp (h, d)
      | inr d ↦ elim (Option-cases (action_of action)) [
        | inl e ↦ simp (h, d, e, eq_refl (marker action id (key_of key)))
        | inr (a, e) ↦ simp (h, d, e, eq_refl (marker action id (key_of key)))
      ]
    ]

post_node-seen :
    (id action : String) (key : Option String) (o : Option Node) (s : Cluster)
    → is_text (key_of key) ≡ true
    → contains s.seen_keys (marker action id (key_of key)) ≡ true
    → (post_node id action key o s).1 ≡ s
unfolding post_node is_duplicate
post_node-seen id action key none s h d = refl
post_node-seen id action key (some n) s h d = simp (h, d)

-- If a node is there and the delivery of an action to it has a key, then after that delivery and
-- any POST requests that are not resets, the same delivery changes nothing.
pub redelivery_absorbed :
    (id action : String) (key : Option String) (n : Node) (rs : List Request) (s : Cluster)
    → Dict.get s.nodes id ≡ some n
    → is_text (key_of key) ≡ true
    → every (λ r. not (resets r)) rs ≡ true
    → let after = post_all rs (post_node id action key (Dict.get s.nodes id) s).1 in
      (post_node id action key (Dict.get after.nodes id) after).1 ≡ after
redelivery_absorbed id action key n rs s there h none_resets =
    let first = (post_node id action key (Dict.get s.nodes id) s).1 in
    let marked : contains first.seen_keys (marker action id (key_of key)) ≡ true =
      rw there (post_node-marks id action key n s h) in
    post_node-seen id action key _ (post_all rs first) h
      (post_all-remembers rs first (marker action id (key_of key)) none_resets marked)
