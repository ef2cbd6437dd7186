-- ===== src/Seeds/Examples.antt =====
-- The seeded definitions pass `validate_spec`: tests.
use nutanix_hack.Prelude.{◌≡◌, refl, none, []}
use nutanix_hack.Prelude.Dict
use nutanix_hack.Json.{Value, Fields, get_field, str, arr, obj, nil, cons, end, field}
use nutanix_hack.Spec.Validate.{
  check_steps, check_step, check_dangling, needs_items, id_of, ids_of, unless_in, validate_retry,
  validate_compensate, is_int_from,
}
use nutanix_hack.Spec.Cycle.{
  detect_cycle, edges_of, explore, follow, scan, search_roots, validate_spec,
}
use nutanix_hack.Graph.Proper.{AreProper}
use nutanix_hack.Seeds.Store.{seed_workflow}
use nutanix_hack.Seeds.Again.{seed_workflow_again}
use nutanix_hack.Seeds.Demo.{linear, diamond, failing}
use nutanix_hack.Seeds.Patience.{slow, flaky, waiting, approval}
use nutanix_hack.Seeds.Upgrade.{rolling_upgrade}
use nutanix_hack.Seeds.Employees.{onboarding}
use nutanix_hack.Seeds.Joiner.{new_joiner}
use nutanix_hack.Seeds.Acme.{acme_workflow}

linear_valid : validate_spec linear ≡ none
unfolding validate_spec check_steps check_step check_dangling needs_items id_of ids_of unless_in
    validate_retry validate_compensate get_field edges_of detect_cycle search_roots explore follow
    scan Dict.get Dict.set is_int_from
linear_valid = refl

diamond_valid : validate_spec diamond ≡ none
unfolding validate_spec check_steps check_step check_dangling needs_items id_of ids_of unless_in
    validate_retry validate_compensate get_field edges_of detect_cycle search_roots explore follow
    scan Dict.get Dict.set is_int_from
diamond_valid = refl

failing_valid : validate_spec failing ≡ none
unfolding validate_spec check_steps check_step check_dangling needs_items id_of ids_of unless_in
    validate_retry validate_compensate get_field edges_of detect_cycle search_roots explore follow
    scan Dict.get Dict.set is_int_from
failing_valid = refl

slow_valid : validate_spec slow ≡ none
unfolding validate_spec check_steps check_step check_dangling needs_items id_of ids_of unless_in
    validate_retry validate_compensate get_field edges_of detect_cycle search_roots explore follow
    scan Dict.get Dict.set is_int_from
slow_valid = refl

flaky_valid : validate_spec flaky ≡ none
unfolding validate_spec check_steps check_step check_dangling needs_items id_of ids_of unless_in
    validate_retry validate_compensate get_field edges_of detect_cycle search_roots explore follow
    scan Dict.get Dict.set is_int_from
flaky_valid = refl

waiting_valid : validate_spec waiting ≡ none
unfolding validate_spec check_steps check_step check_dangling needs_items id_of ids_of unless_in
    validate_retry validate_compensate get_field edges_of detect_cycle search_roots explore follow
    scan Dict.get Dict.set is_int_from
waiting_valid = refl

approval_valid : validate_spec approval ≡ none
unfolding validate_spec check_steps check_step check_dangling needs_items id_of ids_of unless_in
    validate_retry validate_compensate get_field edges_of detect_cycle search_roots explore follow
    scan Dict.get Dict.set is_int_from
approval_valid = refl

rolling_upgrade_valid : validate_spec rolling_upgrade ≡ none
unfolding validate_spec check_steps check_step check_dangling needs_items id_of ids_of unless_in
    validate_retry validate_compensate get_field edges_of detect_cycle search_roots explore follow
    scan Dict.get Dict.set is_int_from
rolling_upgrade_valid = refl

onboarding_valid : validate_spec onboarding ≡ none
unfolding validate_spec check_steps check_step check_dangling needs_items id_of ids_of unless_in
    validate_retry validate_compensate get_field edges_of detect_cycle search_roots explore follow
    scan Dict.get Dict.set is_int_from
onboarding_valid = refl

new_joiner_valid : validate_spec new_joiner ≡ none
unfolding validate_spec check_steps check_step check_dangling needs_items id_of ids_of unless_in
    validate_retry validate_compensate get_field edges_of detect_cycle search_roots explore follow
    scan Dict.get Dict.set is_int_from
new_joiner_valid = refl

acme_workflow_valid : validate_spec acme_workflow ≡ none
unfolding validate_spec check_steps check_step check_dangling needs_items id_of ids_of unless_in
    validate_retry validate_compensate get_field edges_of detect_cycle search_roots explore follow
    scan Dict.get Dict.set is_int_from
acme_workflow_valid = refl

abbrev one_step : Value
one_step = arr (cons (obj (field "id" (str "start") (field "type" (str "noop") end))) nil)

abbrev small : Fields
small = field "name" (str "small") (field "steps" one_step end)

small_valid : validate_spec (obj small) ≡ none
unfolding validate_spec check_steps check_step check_dangling needs_items id_of ids_of unless_in
    validate_retry validate_compensate get_field edges_of detect_cycle search_roots explore follow
    scan Dict.get Dict.set is_int_from
small_valid = refl

small-AreProper : AreProper small
unfolding AreProper get_field
small-AreProper = (refl, tt, (refl, ((refl, tt, (refl, tt, tt)), tt), tt))

seed_workflow_again_example :
    seed_workflow "acme" (obj small) (seed_workflow "acme" (obj small) []).1
    ≡ seed_workflow "acme" (obj small) []
unfolding get_field
seed_workflow_again_example =
    seed_workflow_again "acme" small one_step [] small_valid small-AreProper refl
