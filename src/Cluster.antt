-- ===== src/Cluster.antt =====
-- fake_nodes/server.py: the cluster and the outside systems that the demo workflows act on.
pub mod Requests
pub mod Systems
pub mod Redelivered
pub mod Undone
mod Examples
use nutanix_hack.Prelude.{
  Bool, true, false, String, concat, Option, none, some, List, [], ◌∷◌, map, contains, or_else,
  str_eq, if◌then◌else◌,
}
use nutanix_hack.Prelude.Dict
use nutanix_hack.Prelude.Dict.{Dict}
use nutanix_hack.Prelude.Texts.{is_text}
use nutanix_hack.Json.{Value, Fields, null, bool, str, obj, end, field}

pub record Node : Type 0 where
  pub id : String
  pub version : String
  pub previous_version : Option String
  pub drained : Bool
  pub healthy : Bool
  pub fail_after_upgrade : Bool

abbrev pub target_version : String
target_version = "7.1"

abbrev fresh_node : String → String × Node
fresh_node id = (
  id,
  record {
    id = id;
    version = "7.0";
    previous_version = none;
    drained = false;
    healthy = true;
    fail_after_upgrade = false;
  },
)

unfoldable pub fresh_cluster : Dict Node
fresh_cluster = map fresh_node ("node-1" ∷ "node-2" ∷ "node-3" ∷ "node-4" ∷ "node-5" ∷ [])

pub record Account : Type 0 where
  pub employee : String
  pub role : Value

-- `COMPANY`: each system by person.
pub record Company : Type 0 where
  pub email_accounts : Dict Value
  pub slack_members : Dict Value
  pub github_members : Dict Value
  pub payroll_enrolled : Dict Value
  pub laptop_orders : Dict Value

-- The module's variables. `SEEN_KEYS` and `PAYROLL_WILL_REJECT` are sets.
pub record Cluster : Type 0 where
  pub nodes : Dict Node
  pub seen_keys : List String
  pub accounts : Dict (Dict Account)
  pub devices : Dict Value
  pub company : Company
  pub payroll_will_reject : List String

unfoldable pub empty_company : Company
empty_company = record {
  email_accounts = [];
  slack_members = [];
  github_members = [];
  payroll_enrolled = [];
  laptop_orders = [];
}

-- What `reset` leaves, and the start.
unfoldable pub fresh : Cluster
fresh = record {
  nodes = fresh_cluster;
  seen_keys = [];
  accounts = [];
  devices = [];
  company = empty_company;
  payroll_will_reject = [];
}

-- A JSON body, by the keys that are read of it. Names are texts; a missing or null name is `none`.
pub record Body : Type 0 where
  pub employee : Option String
  pub person : Option String
  pub role : Option Value
  pub device : Option Value
  pub channels : Option Value
  pub access : Option Value
  pub band : Option Value
  pub model : Option Value

pub record Request : Type 0 where
  pub path : String
  pub key : Option String
  pub body : Body

-- A reply, or an exception that ends the connection.
pub data Reply : Type 0 where
  ok created bad_request not_found unprocessable unavailable : Value → Reply
  no_reply : Reply

abbrev pub said : String → String → Value
said k v = obj (field k (str v) end)

abbrev pub text_or_null : Option String → Value
text_or_null none = null
text_or_null (some s) = str s

unfoldable pub print_node : Node → Value
print_node n = obj (
    field "id" (str n.id) (
      field "version" (str n.version) (
        field "previous_version" (text_or_null n.previous_version) (
          field "drained" (bool n.drained) (
            field "healthy" (bool n.healthy)
              (field "fail_after_upgrade" (bool n.fail_after_upgrade) end))))))

-- `_duplicate`: the marker of a delivery, where it has a key.
unfoldable pub marker : String → String → String → String
marker action id key = concat action (concat ":" (concat id (concat ":" key)))

abbrev pub key_of : Option String → String
key_of key = or_else key ""

unfoldable pub is_duplicate : String → String → Option String → Cluster → Bool
is_duplicate action id key s =
    if is_text (key_of key) then contains s.seen_keys (marker action id (key_of key)) else false

-- What `_duplicate` leaves of a delivery that is new.
unfoldable pub remember : String → String → Option String → Cluster → Cluster
remember action id key s =
    if is_text (key_of key)
    then record s { seen_keys = marker action id (key_of key) ∷ s.seen_keys }
    else s

pub data Action : Type 0 where
  drain undrain upgrade rollback fail_after_upgrade : Action

unfoldable pub action_of : String → Option Action
action_of action =
    if str_eq action "drain"
    then some drain
    else if str_eq action "undrain"
    then some undrain
    else if str_eq action "upgrade"
    then some upgrade
    else if str_eq action "rollback"
    then some rollback
    else if str_eq action "fail-after-upgrade"
    then some fail_after_upgrade
    else none

abbrev restored : Option String → Node → Node
restored none n = n
restored (some v) n = if is_text v then record n { version = v; previous_version = none } else n

unfoldable pub act : Action → Node → Node
act drain n = record n { drained = true }
act undrain n = record n { drained = false }
act upgrade n = record n { previous_version = some n.version; version = target_version }
act rollback n = record (restored n.previous_version n) {
  healthy = true;
  fail_after_upgrade = false;
}
act fail_after_upgrade n = record n { fail_after_upgrade = true }
