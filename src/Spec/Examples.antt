-- ===== src/Spec/Examples.antt =====
-- Definitions as a user submits them: tests and instances.
use Prim.Native.String.{String}
use nutanix_hack.Prelude.{
  List, str_eq, ◌⊎◌, Bool-cases, inl, inr, arith, ◌≡◌, refl, none, some, [], ◌∷◌,
}
use nutanix_hack.Prelude.Dict
use nutanix_hack.Json.{Value, Items, null, str, obj, arr, end, field, nil, cons, get_field}
use nutanix_hack.Spec.Validate.{
  cycle, unknown_need, type_error, check_steps, check_step, check_dangling, needs_items, id_of,
  ids_of, unless_in, validate_retry, validate_compensate,
}
use nutanix_hack.Spec.Cycle.{
  Edges, needs_in, detect_cycle, edges_of, explore, follow, path_from, scan, search_roots,
  validate_spec,
}
use nutanix_hack.Spec.Order
use nutanix_hack.Spec.Order.Follows.{IsSorted}
use nutanix_hack.Spec.Order.Sorts.{topological_order_decides}
use nutanix_hack.Spec.Order.{
  in_order, cycle_found, topological_order, no_waits, count_all, count_needs, sort_ids, insert_id,
  roots, release, sort_queue,
}
use nutanix_hack.Spec.Valid.{IsDefinition, validate_spec-IsDefinition}
use nutanix_hack.Spec.Cycle.Reports.{AllAreIds}
use nutanix_hack.Spec.Cycle.Decides.{IsLoop, detect_cycle_decides}
use nutanix_hack.Service.Definitions.{AreVersioned}

abbrev step : String → Value → Value
step sid needs = obj (field "id" (str sid) (field "type" (str "noop") (field "needs" needs end)))

abbrev spec : Items → Value
spec steps = obj (field "name" (str "upgrade") (field "steps" (arr steps) end))

abbrev looped : Edges
looped = ("a", "c" ∷ []) ∷ ("b", "a" ∷ []) ∷ ("c", "b" ∷ []) ∷ []

passes : validate_spec (spec (cons (step "a" (arr nil)) (cons (step "b" (str "a")) nil))) ≡ none
unfolding validate_spec check_steps check_step check_dangling needs_items id_of ids_of unless_in
    validate_retry validate_compensate get_field edges_of detect_cycle search_roots explore follow
    scan Dict.get Dict.set
passes = refl

validate_spec-IsDefinition_example :
    IsDefinition (spec (cons (step "a" (arr nil)) (cons (step "b" (str "a")) nil)))
validate_spec-IsDefinition_example =
    validate_spec-IsDefinition (spec (cons (step "a" (arr nil)) (cons (step "b" (str "a")) nil)))
      passes

dangling : validate_spec (spec (cons (step "a" (str "z")) nil)) ≡ some (unknown_need "a" "z")
unfolding validate_spec check_steps check_step check_dangling needs_items id_of ids_of unless_in
    validate_retry validate_compensate get_field
dangling = refl

-- `needs: null` is a TypeError.
null_needs : validate_spec (spec (cons (step "a" null) nil)) ≡ some type_error
unfolding validate_spec check_steps check_step needs_items id_of unless_in validate_retry
    validate_compensate get_field
null_needs = refl

finds : detect_cycle looped ≡ some (cycle ("a" ∷ "c" ∷ "b" ∷ "a" ∷ []))
unfolding detect_cycle search_roots explore follow scan path_from Dict.get Dict.set
finds = refl

empty-AreVersioned : AreVersioned []
empty-AreVersioned = record { at = λ tenant name. tt }

abbrev diamond : Edges
diamond =
    ("start", [])
    ∷ ("branch_b", "start" ∷ [])
    ∷ ("branch_a", "start" ∷ [])
    ∷ ("join", "branch_a" ∷ "branch_b" ∷ [])
    ∷ []

sorts : topological_order diamond ≡ in_order ("start" ∷ "branch_a" ∷ "branch_b" ∷ "join" ∷ [])
unfolding topological_order no_waits count_all count_needs sort_ids insert_id roots release
    sort_queue Dict.get Dict.set
sorts = refl

never_sorts : topological_order looped ≡ cycle_found
unfolding topological_order no_waits count_all count_needs sort_ids insert_id roots release
    sort_queue Dict.get Dict.set
never_sorts = refl

unknown_needs : topological_order (("a", "z" ∷ []) ∷ []) ≡ Order.key_error
unfolding topological_order no_waits count_all count_needs Dict.get
unknown_needs = refl

diamond-AllAreIds : AllAreIds diamond
unfolding Dict.get
diamond-AllAreIds sid n h = elim (Bool-cases (str_eq "start" sid)) [
  | inl e ↦ cc (rw (e, needs_in, Dict.get) at h)
  | inr e ↦ elim (Bool-cases (str_eq "branch_b" sid)) [
    | inl f ↦ ground (arith, (rw (e, f, needs_in, Dict.get) at h))
    | inr f ↦ elim (Bool-cases (str_eq "branch_a" sid)) [
      | inl g ↦ ground (arith, (rw (e, f, g, needs_in, Dict.get) at h))
      | inr g ↦ elim (Bool-cases (str_eq "join" sid)) [
        | inl j ↦ ground (arith, (rw (e, f, g, j, needs_in, Dict.get) at h))
        | inr j ↦ cc (rw (e, f, g, j, needs_in, Dict.get) at h)
      ]
    ]
  ]
]

topological_order_decides_example :
    ((detect_cycle diamond ≡ none)
      × (ids : List String) × (topological_order diamond ≡ in_order ids)
      × IsSorted diamond ids)
    ⊎ ((xs : List String) × (detect_cycle diamond ≡ some (cycle xs))
        × (topological_order diamond ≡ cycle_found))
topological_order_decides_example =
    topological_order_decides diamond (refl, (refl, (refl, (refl, tt)))) diamond-AllAreIds

looped-AllAreIds : AllAreIds looped
unfolding Dict.get
looped-AllAreIds sid n h = elim (Bool-cases (str_eq "a" sid)) [
  | inl e ↦ ground (arith, (rw (e, needs_in, Dict.get) at h))
  | inr e ↦ elim (Bool-cases (str_eq "b" sid)) [
    | inl f ↦ ground (arith, (rw (e, f, needs_in, Dict.get) at h))
    | inr f ↦ elim (Bool-cases (str_eq "c" sid)) [
      | inl g ↦ ground (arith, (rw (e, f, g, needs_in, Dict.get) at h))
      | inr g ↦ cc (rw (e, f, g, needs_in, Dict.get) at h)
    ]
  ]
]

detect_cycle_decides_example :
    ((detect_cycle looped ≡ none) × ((xs : List String) → ¬ IsLoop looped xs))
    ⊎ ((xs : List String) × (detect_cycle looped ≡ some (cycle xs)) × IsLoop looped xs)
detect_cycle_decides_example = detect_cycle_decides looped looped-AllAreIds
