-- ===== src/Cluster/Requests.antt =====
-- `do_GET` and `do_POST` of fake_nodes/server.py: the routes, and what each request does.
use nutanix_hack.Prelude.{
  Bool, true, false, not, ◌&&◌, String, concat, Option, none, some, List, [], ◌∷◌, contains,
  or_else, str_eq, if◌then◌else◌,
}
use nutanix_hack.Prelude.Dict
use nutanix_hack.Prelude.Dict.{Dict}
use nutanix_hack.Prelude.Texts.{is_text, split}
use nutanix_hack.Json.{Value, Fields, Items, bool, str, arr, obj, end, field, nil, cons}
use nutanix_hack.Cluster.{
  Node, Account, Company, Cluster, Request, Body, Reply, ok, created, bad_request, not_found,
  unavailable, no_reply, said, print_node, is_duplicate, remember, Action, action_of, act, fresh,
  key_of,
}
use nutanix_hack.Cluster.Systems.{company}

keep_texts : List String → List String
keep_texts [] = []
keep_texts (p ∷ ps) = let rest = keep_texts ps in if is_text p then p ∷ rest else rest

first_of : List String → String
first_of [] = ""
first_of (p ∷ ps) = p

-- `[p for p in path.split("?")[0].split("/") if p]`
unfoldable pub parts_of : String → List String
unfolding keep_texts first_of
parts_of path = keep_texts (split b'/' (first_of (split b'?' path)))

print_nodes : Dict Node → Items
print_nodes [] = nil
print_nodes ((id, n) ∷ d) = cons (print_node n) (print_nodes d)

print_values : Dict Value → Fields
print_values [] = end
print_values ((k, v) ∷ d) = field k v (print_values d)

print_accounts : Dict Account → Fields
print_accounts [] = end
print_accounts ((k, a) ∷ d) =
    field k (obj (field "employee" (str a.employee) (field "role" a.role end))) (print_accounts d)

print_apps : Dict (Dict Account) → Fields
print_apps [] = end
print_apps ((app, d) ∷ ds) = field app (obj (print_accounts d)) (print_apps ds)

unfoldable pub print_company : Company → Value
unfolding print_values
print_company c = obj (
    field "email_accounts" (obj (print_values c.email_accounts)) (
      field "slack_members" (obj (print_values c.slack_members)) (
        field "github_members" (obj (print_values c.github_members)) (
          field "payroll_enrolled" (obj (print_values c.payroll_enrolled))
            (field "laptop_orders" (obj (print_values c.laptop_orders)) end)))))

-- The routes that `do_POST` tells apart. `short_company` names a system and no action.
pub data Route : Type 0 where
  reset assign no_route short_company : Route
  on_company : String → String → Option String → Route
  account : String → Route
  on_node : String → String → Route

abbrev systems : List String
systems = "google" ∷ "slack" ∷ "github" ∷ "payroll" ∷ "it" ∷ []

unfoldable pub route_of : List String → Route
route_of [] = no_route
route_of (a ∷ []) =
    if str_eq a "reset" then reset else if contains systems a then short_company else no_route
route_of (a ∷ b ∷ []) =
    if contains systems a
    then on_company a b none
    else if str_eq a "devices" && str_eq b "assign"
    then assign
    else no_route
route_of (a ∷ b ∷ c ∷ []) =
    if contains systems a
    then on_company a b (some c)
    else if str_eq a "apps" && str_eq c "accounts"
    then account b
    else if str_eq a "nodes"
    then on_node b c
    else no_route
route_of (a ∷ b ∷ c ∷ d ∷ rest) = if contains systems a then on_company a b (some c) else no_route

abbrev no_such_node : String → Reply
no_such_node id = not_found (said "error" (concat "no such node " id))

unfoldable pub report : String → String → Bool → Node → Reply
report id action duplicate n = ok (
    obj (
      field "node" (str id) (
        field "action" (str action)
          (field "duplicate" (bool duplicate) (field "state" (print_node n) end)))))

abbrev act_if : Option Action → String → String → Node → Cluster → Reply × Cluster
act_if none id action n s = (not_found (said "error" (concat "unknown action " action)), s)
act_if (some a) id action n s =
    (report id action false (act a n), record s { nodes = Dict.set s.nodes id (act a n) })

unfoldable pub post_node : String → String → Option String → Option Node → Cluster → Reply × Cluster
post_node id action key none s = (no_such_node id, s)
post_node id action key (some n) s =
    if is_duplicate action id key s
    then (report id action true n, s)
    else act_if (action_of action) id action n (remember action id key s)

unfoldable pub post_account : String → Option String → Body → Cluster → Reply × Cluster
post_account app key body s =
    let employee = or_else body.employee "" in
    let reply : Bool → Value = λ duplicate. obj (
      field "app" (str app)
        (field "employee" (str employee) (field "duplicate" (bool duplicate) end))) in
    let row : Account = record { employee = employee; role = or_else body.role (str "member") } in
    if not (is_text employee)
    then (bad_request (said "error" "employee is required"), s)
    else if is_duplicate (concat "account:" app) employee key s
    then (ok (reply true), s)
    else (
      created (reply false),
      record (remember (concat "account:" app) employee key s) {
        accounts =
            Dict.set s.accounts app (Dict.set (or_else (Dict.get s.accounts app) []) employee row);
      },
    )

unfoldable pub post_assign : Option String → Body → Cluster → Reply × Cluster
post_assign key body s =
    let employee = or_else body.employee "" in
    let device = or_else body.device (str "laptop-standard") in
    if not (is_text employee)
    then (bad_request (said "error" "employee is required"), s)
    else if is_duplicate "device" employee key s
    then (ok (obj (field "employee" (str employee) (field "duplicate" (bool true) end))), s)
    else (
      created (
          obj (
            field "employee" (str employee)
              (field "device" device (field "duplicate" (bool false) end)))),
      record (remember "device" employee key s) { devices = Dict.set s.devices employee device },
    )

unfoldable pub post_route : Route → Request → Cluster → Reply × Cluster
unfolding print_nodes
post_route reset r s = (
  ok (obj (field "reset" (bool true) (field "nodes" (arr (print_nodes fresh.nodes)) end))),
  fresh,
)
post_route short_company r s = (no_reply, s)
post_route (on_company system action part) r s = company system action part r.body s
post_route (account app) r s = post_account app r.key r.body s
post_route assign r s = post_assign r.key r.body s
post_route no_route r s = (not_found (said "error" (concat "no route for POST " r.path)), s)
post_route (on_node id action) r s = post_node id action r.key (Dict.get s.nodes id) s

unfoldable pub post : Request → Cluster → Reply × Cluster
post r s = post_route (route_of (parts_of r.path)) r s

-- The node as a health check leaves it.
unfoldable pub checked : Node → Node
checked n =
    if n.fail_after_upgrade && is_text (key_of n.previous_version)
    then record n { healthy = false }
    else n

unfoldable pub health : Node → Reply
health n =
    if n.healthy
    then ok (
        obj (
          field "node" (str n.id) (
            field "healthy" (bool true)
              (field "version" (str n.version) (field "drained" (bool n.drained) end)))))
    else unavailable (
        obj (
          field "node" (str n.id) (
            field "healthy" (bool false) (
              field "version" (str n.version)
                (field "reason" (str "node reports unhealthy") end)))))

unfoldable pub get_health : String → Option Node → Cluster → Reply × Cluster
get_health id none s = (no_such_node id, s)
get_health id (some n) s =
    (health (checked n), record s { nodes = Dict.set s.nodes id (checked n) })

-- The routes of one part.
unfoldable pub get_all : String → String → Cluster → Reply
unfolding print_nodes print_apps print_accounts print_values
get_all path part s =
    if str_eq part "nodes"
    then ok (obj (field "nodes" (arr (print_nodes s.nodes)) end))
    else if str_eq part "apps"
    then ok (obj (field "accounts" (obj (print_apps s.accounts)) end))
    else if str_eq part "devices"
    then ok (obj (field "devices" (obj (print_values s.devices)) end))
    else if str_eq part "company"
    then ok (print_company s.company)
    else if str_eq part "healthz"
    then ok (said "status" "ok")
    else not_found (said "error" (concat "no route for GET " path))

abbrev get_parts : String → List String → Cluster → Reply × Cluster
get_parts path (a ∷ []) s = (get_all path a s, s)
get_parts path (a ∷ id ∷ c ∷ []) s =
    if str_eq a "nodes" && str_eq c "health"
    then get_health id (Dict.get s.nodes id) s
    else (not_found (said "error" (concat "no route for GET " path)), s)
get_parts path _ s = (not_found (said "error" (concat "no route for GET " path)), s)

unfoldable pub get : String → Cluster → Reply × Cluster
get path s = get_parts path (parts_of path) s
