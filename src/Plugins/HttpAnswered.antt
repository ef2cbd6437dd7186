-- ===== src/Plugins/HttpAnswered.antt =====
-- What a result of the http plugin tells.
use nutanix_hack.Prelude.{
  ◌≡◌, refl, subst, Bool, true, false, str_eq, eq_iff, if◌then◌else◌, String, Option, none, some,
  Bool-cases, Option-cases, inl, inr,
}
use nutanix_hack.Prelude.Int.{ℤ, pos}
use nutanix_hack.Json.{Value, Fields, num, str, null, get_field}
use nutanix_hack.Replay.State.{Context}
use nutanix_hack.Plugins.{http, Outside, succeeded, execute, config_get, is_object}
use nutanix_hack.Plugins.Acts.{
  Unexpected, unexpected, wrong_type, returns, Answer, responded, request_failed, not_asked,
  Machine, or_default, dict_of,
}
use nutanix_hack.Plugins.Http.{
  with_key, request_of, output_of, is_accepted, answered, ask_for, call_method, execute_http,
}
use nutanix_hack.Graph.Proper.{get_field-set_field}
use nutanix_hack.Plugins.Executed.{with_machine, returned}

-- What the config asks for: its method in upper case, its url and its headers.
pub record Asks (m : Machine) (config : Value) (method : String) (url : Value) (headers : Fields)
    : Type 0 where
  pub name : String
  pub names : or_default (config_get config "method") (str "GET") ≡ str name
  pub upper : method ≡ m.upper name
  pub has_url : config_get config "url" ≡ some url
  pub has_headers : dict_of m (config_get config "headers") ≡ some headers

-- The value of a header of the request: the key of the task where the config has none of its own,
-- and otherwise what the config has.
abbrev pub header_sent : Fields → String → String → Option Value
header_sent headers key name =
    if str_eq "Idempotency-Key" name
    then some (or_default (get_field headers "Idempotency-Key") (str key))
    else get_field headers name

-- One request that the config asks for was answered, with a status that the step accepts.
pub record HasAnswer (m : Machine) (config : Value) (key : String) (out : Value) : Type 0 where
  pub method : String
  pub url : Value
  pub headers : Fields
  pub sent : Fields
  pub status : ℤ
  pub json : Option Value
  pub text : String
  pub asks : Asks m config method url headers
  pub sends : (name : String) → get_field sent name ≡ header_sent headers key name
  pub answer :
      m.ask (record {
        method = method;
        url = url;
        json = or_default (config_get config "body") null;
        headers = sent;
        timeout = or_default (config_get config "timeout_s") (num (pos 10));
      })
      ≡ responded status json text
  pub accepted : is_accepted (or_default (config_get config "expect_status") null) status ≡ true
  pub output : out ≡ output_of m status json text

get_field-with_key :
    (headers : Fields) (key name : String)
    → get_field (with_key headers key) name ≡ header_sent headers key name
unfolding with_key
get_field-with_key headers key name = elim (Option-cases (get_field headers "Idempotency-Key")) [
  | inl e ↦ rw (e, with_key) (get_field-set_field headers "Idempotency-Key" name (str key))
  | inr (own, e) ↦ elim (Bool-cases (str_eq "Idempotency-Key" name)) [
    | inl same ↦
        let is : "Idempotency-Key" ≡ name = (eq_iff "Idempotency-Key" name).0 same in
        rw (e, with_key, same) (subst (λ n. get_field headers n ≡ some own) is e)
    | inr other ↦ rw (e, with_key, other) refl
  ]
]

answered-HasAnswer :
    (m : Machine) (config : Value) (key called method : String) (url : Value) (headers : Fields)
    (a : Answer) (out : Value)
    → Asks m config method url headers
    → m.ask (request_of config key method url headers) ≡ a
    → answered m called (or_default (config_get config "expect_status") null) a ≡ returns out
    → HasAnswer m config key out
unfolding answered request_of
answered-HasAnswer m config key called method url headers (not_asked e) out asks asked h = cc h
answered-HasAnswer m config key called method url headers (request_failed e) out asks asked h = cc h
answered-HasAnswer m config key called method url headers (responded status json text) out asks
      asked h =
    elim (Bool-cases (is_accepted (or_default (config_get config "expect_status") null) status)) [
      | inl e ↦ record {
        method = method;
        url = url;
        headers = headers;
        sent = with_key headers key;
        status = status;
        json = json;
        text = text;
        asks = asks;
        sends = get_field-with_key headers key;
        answer = asked;
        accepted = e;
        output = cc (rw e at h);
      }
      | inr e ↦ cc (rw e at h)
    ]

ask_for-HasAnswer :
    (m : Machine) (config : Value) (key name : String) (url : Option Value)
    (headers : Option Fields) (out : Value)
    → or_default (config_get config "method") (str "GET") ≡ str name
    → config_get config "url" ≡ url
    → dict_of m (config_get config "headers") ≡ headers
    → ask_for m config key (m.upper name) url headers ≡ returns out
    → HasAnswer m config key out
unfolding ask_for
ask_for-HasAnswer m config key name none headers out n u d h = cc h
ask_for-HasAnswer m config key name (some url) none out n u d h = cc h
ask_for-HasAnswer m config key name (some url) (some headers) out n u d h =
    answered-HasAnswer m config key _ (m.upper name) url headers _ out
      (record { name = name; names = n; upper = refl; has_url = u; has_headers = d }) refl h

call_method-HasAnswer :
    (m : Machine) (config : Value) (key : String) (method out : Value)
    → or_default (config_get config "method") (str "GET") ≡ method
    → call_method m config key method ≡ returns out
    → HasAnswer m config key out
unfolding call_method
call_method-HasAnswer m config key (str method) out e h =
    ask_for-HasAnswer m config key method _ _ out e refl refl h
call_method-HasAnswer m config key null out e h = cc h
call_method-HasAnswer m config key method out e h = cc h

if_object-HasAnswer :
    (m : Machine) (config : Value) (key : String) (object : Bool) (out : Value)
    → (if object
        then call_method m config key (or_default (config_get config "method") (str "GET"))
        else unexpected wrong_type)
      ≡ returns out
    → HasAnswer m config key out
if_object-HasAnswer m config key true out h = call_method-HasAnswer m config key _ out refl h
if_object-HasAnswer m config key false out h = cc h

-- If the execution of an http step succeeds, then one request was made with the method of the
-- config or else GET, in upper case, its url, body and timeout_s or else 10, and with the headers
-- of the config, to which the key of the task is added as Idempotency-Key only where the config has
-- none; it was answered with a status that the step accepts, and the output is the status and the
-- body of the answer.
pub http-HasAnswer :
    (m : Machine) (print : Unexpected → String) (outside : Outside) (config : Value) (c : Context)
    (key sid : String) {out : Value}
    → execute (with_machine m print outside) http config c key sid ≡ succeeded out
    → HasAnswer m config key out
unfolding execute with_machine execute_http
http-HasAnswer m print outside config c key sid h =
    if_object-HasAnswer m config key (is_object config) _ (returned print _ h)
