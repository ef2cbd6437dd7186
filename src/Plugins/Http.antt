-- ===== src/Plugins/Http.antt =====
-- `HttpPlugin.execute` of engine/steps/builtin.py.
use nutanix_hack.Prelude.{Bool, String, concat, Option, none, some, if◌then◌else◌}
use nutanix_hack.Prelude.Int.{ℤ, pos, ltb_ℤ}
use nutanix_hack.Json.{
  Value, Fields, null, num, str, obj, end, field, get_field, set_field, empty_object,
}
use nutanix_hack.Predicates.Values.{same_value}
use nutanix_hack.Plugins.{config_get, is_object}
use nutanix_hack.Plugins.Acts.{
  Acted, returns, step_error, unexpected, missing_key, wrong_type, Request, Answer, responded,
  request_failed, not_asked, Machine, truncate, dict_of, or_default,
}

abbrev pub default_http_timeout : Value
default_http_timeout = num (pos 10)

-- `headers.setdefault("Idempotency-Key", idem_key)`
unfoldable pub with_key : Fields → String → Fields
with_key headers key = elim (get_field headers "Idempotency-Key") [
  | none ↦ set_field headers "Idempotency-Key" (str key)
  | some own ↦ headers
]

unfoldable pub request_of : Value → String → String → Value → Fields → Request
request_of config key method url headers = record {
  method = method;
  url = url;
  json = or_default (config_get config "body") null;
  headers = with_key headers key;
  timeout = or_default (config_get config "timeout_s") default_http_timeout;
}

-- `response.json()`, or the text under the cap.
unfoldable pub body_of : Machine → Option Value → String → Value
body_of m (some json) text = json
body_of m none text = str (truncate m text)

unfoldable pub output_of : Machine → ℤ → Option Value → String → Value
output_of m status json text =
    obj (field "status_code" (num status) (field "body" (body_of m json text) end))

-- Of `expect_status`, with None for a key that is missing.
unfoldable pub is_accepted : Value → ℤ → Bool
is_accepted null status = ltb_ℤ status (pos 400)
is_accepted expected status = same_value (num status) expected

abbrev status_error : Machine → String → ℤ → Value → String
status_error m called status null = concat called (concat " returned " (m.show (num status)))
status_error m called status expected =
    concat called
      (concat " returned " (concat (m.show (num status)) (concat ", expected " (m.show expected))))

unfoldable pub answered : Machine → String → Value → Answer → Acted
answered m called expected (not_asked e) = unexpected e
answered m called expected (request_failed text) =
    step_error (concat called (concat " failed: " text)) empty_object
answered m called expected (responded status json text) =
    if is_accepted expected status
    then returns (output_of m status json text)
    else step_error (status_error m called status expected) (output_of m status json text)

unfoldable pub ask_for : Machine → Value → String → String → Option Value → Option Fields → Acted
ask_for m config key method none headers = unexpected (missing_key "url")
ask_for m config key method (some url) none = unexpected wrong_type
ask_for m config key method (some url) (some headers) =
    answered m (concat method (concat " " (m.show url)))
      (or_default (config_get config "expect_status") null)
      (m.ask (request_of config key method url headers))

unfoldable pub call_method : Machine → Value → String → Value → Acted
call_method m config key (str method) =
    ask_for m config key (m.upper method) (config_get config "url")
      (dict_of m (config_get config "headers"))
call_method m config key method = unexpected wrong_type

unfoldable pub execute_http : Machine → Value → String → Acted
execute_http m config key =
    if is_object config
    then call_method m config key (or_default (config_get config "method") (str "GET"))
    else unexpected wrong_type
