-- ===== src/Cluster/Systems.antt =====
-- `_company` of fake_nodes/server.py: mail, Slack, GitHub, payroll and laptops.
use nutanix_hack.Prelude.{
  true, String, concat, Option, none, some, List, ◌∷◌, contains, or_else, str_eq, if◌then◌else◌,
}
use nutanix_hack.Prelude.Dict
use nutanix_hack.Prelude.Dict.{Dict}
use nutanix_hack.Prelude.Texts.{is_text}
use nutanix_hack.Json.{Value, null, bool, str, arr, obj, end, field, nil, cons}
use nutanix_hack.Cluster.{
  Company, Cluster, Body, Reply, ok, created, bad_request, not_found, unprocessable, said,
}

-- The pairs of a system and an action that `_company` knows.
pub data Operation : Type 0 where
  create_account delete_account invite deactivate add_member remove_member : Operation
  enrol reject_next order_laptop cancel_laptop : Operation

abbrev either_of : String → String → Operation → String → Operation → Option Operation
either_of action this p that q =
    if str_eq action this then some p else if str_eq action that then some q else none

unfoldable pub operation_of : String → String → Option Operation
operation_of system action =
    if str_eq system "google"
    then either_of action "create-account" create_account "delete-account" delete_account
    else if str_eq system "slack"
    then either_of action "invite" invite "deactivate" deactivate
    else if str_eq system "github"
    then either_of action "add-member" add_member "remove-member" remove_member
    else if str_eq system "payroll"
    then either_of action "enrol" enrol "reject-next" reject_next
    else if str_eq system "it"
    then either_of action "order-laptop" order_laptop "cancel-laptop" cancel_laptop
    else none

abbrev in_company : (Company → Company) → Cluster → Cluster
in_company f s = record s { company = f s.company }

abbrev address : String → Value
address person = str (concat person "@northwind.example")

abbrev or_null : Option Value → Value
or_null v = or_else v null

abbrev laptop : Body → Value
laptop body =
    obj (
      field "model" (or_else body.model (str "MacBook Pro 14"))
        (field "status" (str "ordered") end))

abbrev rejection : String → Value
rejection person = obj (
    field "person" (str person) (
      field "error" (str "tax identification number could not be verified with the authority") end))

-- `PAYROLL_WILL_REJECT.add(person)`
abbrev pub add : List String → String → List String
add xs x = if contains xs x then xs else x ∷ xs

unfoldable pub operate : Operation → String → Body → Cluster → Reply × Cluster
operate create_account person body s = (
  created (obj (field "person" (str person) (field "email" (address person) end))),
  in_company (λ c. record c { email_accounts = Dict.set c.email_accounts person (address person) })
      s,
)
operate delete_account person body s = (
  ok (
      obj (
        field "person" (str person)
          (field "deleted" (or_null (Dict.get s.company.email_accounts person)) end))),
  in_company (λ c. record c { email_accounts = Dict.pop c.email_accounts person }) s,
)
operate invite person body s =
    let channels =
      or_else body.channels (arr (cons (str "#general") (cons (str "#engineering") nil))) in
    (
      created (said "person" person),
      in_company (λ c. record c { slack_members = Dict.set c.slack_members person channels }) s,
    )
operate deactivate person body s = (
  ok (said "person" person),
  in_company (λ c. record c { slack_members = Dict.pop c.slack_members person }) s,
)
operate add_member person body s = (
  created (obj (field "person" (str person) (field "access" (str "write") end))),
  in_company
      (λ c. record c {
        github_members = Dict.set c.github_members person (or_else body.access (str "write"));
      })
      s,
)
operate remove_member person body s = (
  ok (said "person" person),
  in_company (λ c. record c { github_members = Dict.pop c.github_members person }) s,
)
operate enrol person body s =
    if contains s.payroll_will_reject person then (unprocessable (rejection person), s) else (
      created (said "person" person),
      in_company
          (λ c. record c {
            payroll_enrolled = Dict.set c.payroll_enrolled person (or_else body.band (str "IC3"));
          })
          s,
    )
operate reject_next person body s = (
  ok (obj (field "person" (str person) (field "will_reject" (bool true) end))),
  record s { payroll_will_reject = add s.payroll_will_reject person },
)
operate order_laptop person body s = (
  created (said "person" person),
  in_company (λ c. record c { laptop_orders = Dict.set c.laptop_orders person (laptop body) }) s,
)
operate cancel_laptop person body s = (
  ok (said "person" person),
  in_company (λ c. record c { laptop_orders = Dict.pop c.laptop_orders person }) s,
)

-- `body.get("person") or parts[2]`
abbrev pub person_of : Option String → Option String → String
person_of (some person) part = if is_text person then person else or_else part ""
person_of none part = or_else part ""

abbrev operate_if : Option Operation → String → String → String → Body → Cluster → Reply × Cluster
operate_if none system action person body s =
    (not_found (said "error" (concat "unknown action " (concat system (concat "/" action)))), s)
operate_if (some op) system action person body s = operate op person body s

unfoldable pub company : String → String → Option String → Body → Cluster → Reply × Cluster
company system action part body s =
    let person = person_of body.person part in
    if is_text person
    then operate_if (operation_of system action) system action person body s
    else (bad_request (said "error" "person is required"), s)
