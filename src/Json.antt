-- ===== src/Json.antt =====
-- JSON values as Python holds them after `json.loads`: what specs, payloads, configs and entity
-- attributes are made of. Numbers are integers; a JSON number with a fraction has no counterpart.
use nutanix_hack.Prelude.{Bool, String, Option, none, some, str_eq, if◌then◌else◌}
use nutanix_hack.Prelude.Int.{ℤ}

mutual
  pub data Value : Type 0 where
    null : Value
    bool : Bool → Value
    str : String → Value
    num : ℤ → Value
    obj : Fields → Value
    arr : Items → Value

  pub data Fields : Type 0 where
    end : Fields
    field : String → Value → Fields → Fields

  pub data Items : Type 0 where
    nil : Items
    cons : Value → Items → Items

-- `d.get(k)` on an object: `none` is a missing key.
unfoldable pub get_field : Fields → String → Option Value
get_field end k = none
get_field (field j v fs) k = if str_eq j k then some v else get_field fs k

-- `d[k] = v`: a key that is there keeps its place, a new one goes to the end.
unfoldable pub set_field : Fields → String → Value → Fields
set_field end k v = field k v end
set_field (field j w fs) k v = if str_eq j k then field j v fs else field j w (set_field fs k v)

abbrev pub empty_object : Value
empty_object = obj end
