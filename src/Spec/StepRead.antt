-- ===== src/Spec/StepRead.antt =====
-- What the checks of one step in `validate_spec` guarantee of the step that the engine then reads.
use Prim.Native.String.{String}
use nutanix_hack.Prelude.{
  ◌≡◌, refl, Bool, true, false, not, Option, none, some, List, [], ◌∷◌, arith, contains, All,
  str_eq, eq_iff, Bool-cases, inl, inr,
}
use nutanix_hack.Json.{
  Value, Fields, Items, null, bool, num, str, arr, obj, nil, cons, end, field, get_field,
}
use nutanix_hack.Spec.{Compensation, Step, Needs, absent, one, many, OnError, needs_of, list_of}
use nutanix_hack.Spec.Validate.{
  bad_compensate_type, SpecError, unknown_need, need_not_text, unknown_type, bad_on_error,
  duplicate_id, Check, ◌then_check◌, refuse_if, unless_in, or_value, known_step_types,
  valid_on_error, validate_retry, validate_compensate, check_config, check_needs, check_step,
  needs_known, check_known, needs_items, all_texts, keys_as_items,
}
use nutanix_hack.Spec.Read.{
  optional, as_on_error, on_error_named, read_retry, read_compensation, texts_in, keys_in,
  read_needs, read_step,
}

-- Both checks passed.
pub passed_both : (a b : Check) → (a then_check b) ≡ none → (a ≡ none) × (b ≡ none)
passed_both none b h = (refl, h)
passed_both (some e) b h = cc h

not_refused : (b : Bool) (e : SpecError) → refuse_if b e ≡ none → b ≡ false
not_refused true e h = cc h
not_refused false e h = refl

passed_if :
    (b : Bool) (e : SpecError) (rest : Check)
    → (refuse_if (not b) e then_check rest) ≡ none
    → (b ≡ true) × (rest ≡ none)
passed_if true e rest h = (refl, h)
passed_if false e rest h = cc h

-- A value that is among some names is a text among them.
named_in :
    (names : List String) (o : Option Value) (e : SpecError)
    → unless_in names o e ≡ none
    → (s : String) × (o ≡ some (str s)) × (contains names s ≡ true)
unfolding unless_in
named_in names none e h = cc h
named_in names (some (str s)) e h =
    (s, refl, ground (arith, not_refused (not (contains names s)) e h))
named_in names (some null) e h = cc h
named_in names (some (bool b)) e h = cc h
named_in names (some (num n)) e h = cc h
named_in names (some (arr xs)) e h = cc h
named_in names (some (obj fs)) e h = cc h

str_eq_comm : (a b : String) → str_eq a b ≡ str_eq b a
str_eq_comm a b = ground (arith, eq_iff a b, eq_iff b a)

on_error_known :
    (s : String) → contains valid_on_error s ≡ true → (r : OnError) × (on_error_named s ≡ some r)
on_error_known s h = elim (Bool-cases (str_eq s "fail")) [
  | inl e ↦ (OnError.fail, rw e refl)
  | inr e ↦ elim (Bool-cases (str_eq s "compensate")) [
    | inl f ↦ (OnError.compensate, rw (e, f) refl)
    | inr f ↦ elim (Bool-cases (str_eq s "continue")) [
      | inl g ↦ (OnError.«continue», rw (e, f, g) refl)
      | inr g ↦ absurd (
          ground
            (arith, str_eq_comm s "fail", str_eq_comm s "compensate", str_eq_comm s "continue"))
    ]
  ]
]

optional-some {ℓ} :
    {A : Type ℓ} (read : Value → Option A) (v : Value) (a : A)
    → read v ≡ some a
    → optional read (some v) ≡ some (some a)
optional-some read v a h = rw (h, optional) refl

on_error_read :
    (o : Option Value) (e : SpecError)
    → unless_in valid_on_error (or_value o (str "fail")) e ≡ none
    → (r : Option OnError) × (optional as_on_error o ≡ some r)
unfolding as_on_error unless_in
on_error_read none e h = (none, refl)
on_error_read (some (str s)) e h =
    let (r, read) =
      on_error_known s (ground (arith, not_refused (not (contains valid_on_error s)) e h)) in
    (some r, optional-some as_on_error (str s) r read)
on_error_read (some null) e h = cc h
on_error_read (some (bool b)) e h = cc h
on_error_read (some (num n)) e h = cc h
on_error_read (some (arr xs)) e h = cc h
on_error_read (some (obj fs)) e h = cc h

abbrev pub AreKnown : List String → List String → Type 0
AreKnown seen deps = All (λ d. contains seen d ≡ true) deps

list_read :
    (sid : String) (seen : List String) (xs : Items)
    → all_texts xs ≡ true
    → check_known sid seen xs ≡ none
    → (deps : List String) × (texts_in xs ≡ some deps) × AreKnown seen deps
list_read sid seen nil h k = ([], refl, tt)
list_read sid seen (cons (str d) xs) h k =
    let (here, later) =
      passed_if (contains seen d) (unknown_need sid d) (check_known sid seen xs) k in
    let (deps, read, known) = list_read sid seen xs h later in
    (d ∷ deps, rw read refl, (here, known))
list_read sid seen (cons null xs) h k = cc h
list_read sid seen (cons (bool b) xs) h k = cc h
list_read sid seen (cons (num n) xs) h k = cc h
list_read sid seen (cons (arr ys) xs) h k = cc h
list_read sid seen (cons (obj fs) xs) h k = cc h

keys_known :
    (sid : String) (seen : List String) (fs : Fields)
    → check_known sid seen (keys_as_items fs) ≡ none
    → AreKnown seen (keys_in fs)
keys_known sid seen end k = tt
keys_known sid seen (field d v fs) k =
    let (here, later) =
      passed_if (contains seen d) (unknown_need sid d) (check_known sid seen (keys_as_items fs))
        k in
    (here, keys_known sid seen fs later)

-- The needs of a step, read and checked against the ids that are there.
needs_read :
    (sid : String) (seen : List String) (o : Option Value)
    → check_needs sid (needs_items o) ≡ none
    → needs_known sid seen (needs_items o) ≡ none
    → (n : Needs) × (read_needs o ≡ some n) × AreKnown seen (list_of n)
unfolding needs_items read_needs
needs_read sid seen none h k = (absent, refl, tt)
needs_read sid seen (some (str d)) h k =
    let (here, later) = passed_if (contains seen d) (unknown_need sid d) none k in
    (one d, refl, (here, tt))
needs_read sid seen (some (arr xs)) h k =
    let (deps, read, known) =
      list_read sid seen xs (ground (arith, not_refused (not (all_texts xs)) (need_not_text sid) h))
        k in
    (many deps, rw read refl, known)
needs_read sid seen (some (obj fs)) h k = (many (keys_in fs), refl, keys_known sid seen fs k)
needs_read sid seen (some null) h k = cc h
needs_read sid seen (some (bool b)) h k = cc h
needs_read sid seen (some (num n)) h k = cc h

-- A step that passed the checks reads as a step with its id, a known type and known needs.
pub record StepRead (sid : String) (seen : List String) (fs : Fields) : Type 0 where
  pub step : Step
  pub read : read_step sid fs ≡ some step
  pub named : step.id ≡ sid
  pub typed : contains known_step_types step.type ≡ true
  pub needs : AreKnown seen (needs_of step)
  pub needed : read_needs (get_field fs "needs") ≡ some step.needs

-- A compensate block that passes has a type that is a text.
compensation_read :
    (sid : String) (o : Option Value)
    → validate_compensate sid o ≡ none
    → (c : Option Compensation) × (read_compensation o ≡ some c)
unfolding validate_compensate read_compensation
compensation_read sid none h = (none, refl)
compensation_read sid (some null) h = (none, refl)
compensation_read sid (some (obj fs)) h =
    let (t, is, known) =
      named_in known_step_types (get_field fs "type") (bad_compensate_type sid) h in
    (
      some (record {
        type = some t;
        config = get_field fs "config";
        retry = read_retry (get_field fs "retry");
      }),
      rw is refl,
    )
compensation_read sid (some (bool b)) h = cc h
compensation_read sid (some (num n)) h = cc h
compensation_read sid (some (str s)) h = cc h
compensation_read sid (some (arr xs)) h = cc h

pub step_read :
    (before seen : List String) (sid : String) (fs : Fields)
    → check_step before sid fs ≡ none
    → needs_known sid seen (needs_items (get_field fs "needs")) ≡ none
    → StepRead sid seen fs
unfolding check_step read_step needs_of
step_read before seen sid fs h k =
    let type_check = unless_in known_step_types (get_field fs "type") (unknown_type sid) in
    let config_check = check_config sid (get_field fs "config") in
    let on_error_check =
      unless_in valid_on_error (or_value (get_field fs "on_error") (str "fail"))
        (bad_on_error sid) in
    let retry_check = validate_retry sid (get_field fs "retry") in
    let compensate_check = validate_compensate sid (get_field fs "compensate") in
    let needs_check = check_needs sid (needs_items (get_field fs "needs")) in
    let after_retry = compensate_check then_check needs_check in
    let after_on_error = retry_check then_check after_retry in
    let after_config = on_error_check then_check after_on_error in
    let after_type = config_check then_check after_config in
    let after_id = type_check then_check after_type in
    let (fresh, h1) = passed_both (refuse_if (contains before sid) (duplicate_id sid)) after_id h in
    let (type, h2) = passed_both type_check after_type h1 in
    let (config, h3) = passed_both config_check after_config h2 in
    let (on_error, h4) = passed_both on_error_check after_on_error h3 in
    let (retry, h5) = passed_both retry_check after_retry h4 in
    let (compensate, needs) = passed_both compensate_check needs_check h5 in
    let (t, is, known) = named_in known_step_types (get_field fs "type") (unknown_type sid) type in
    let (n, n_read, n_known) = needs_read sid seen (get_field fs "needs") needs k in
    let (e, e_read) = on_error_read (get_field fs "on_error") (bad_on_error sid) on_error in
    let (c', c_read) = compensation_read sid (get_field fs "compensate") compensate in
    record {
      step = record {
        id = sid;
        type = t;
        needs = n;
        config = get_field fs "config";
        on_error = e;
        retry = read_retry (get_field fs "retry");
        compensate = c';
      };
      read = rw (is, n_read, e_read, c_read) refl;
      named = refl;
      typed = known;
      needs = n_known;
      needed = n_read;
    }
