-- ===== src/Spec/Cycle.antt =====
-- `detect_cycle` and the end of `validate_spec` in engine/spec.py.
pub mod Walks
pub mod Found
pub mod Ends
pub mod Places
pub mod Acyclic
pub mod Reports
pub mod Decides
use nutanix_hack.Prelude.{
  ℕ, zero, suc, ◌+◌, ◌*◌, String, Option, none, some, List, [], ◌∷◌, str_eq, is_empty, length,
  if◌then◌else◌, map, not, ◌||◌,
}
use nutanix_hack.Prelude.Dict
use nutanix_hack.Prelude.Dict.{Dict}
use nutanix_hack.Json.{Value, Fields, Items, str, obj, arr, nil, cons, get_field}
use nutanix_hack.Spec.Validate.{
  SpecError, not_an_object, no_name, no_steps, cycle, key_error, out_of_fuel, Check, ◌then_check◌,
  needs_items, id_of, check_steps, ids_of, check_dangling, is_blank,
}

pub data Colour : Type 0 where
  white grey black : Colour

-- A step's id with what it needs, as `by_id` has it.
abbrev pub Edges : Type 0
Edges = Dict (List String)

abbrev pub texts_of : Items → List String
texts_of nil = []
texts_of (cons (str s) xs) = s ∷ texts_of xs
texts_of (cons _ xs) = texts_of xs

abbrev pub texts_if : Option Items → List String
texts_if none = []
texts_if (some xs) = texts_of xs

-- `steps_by_id`, from what each step needs.
unfoldable pub edges_of : Items → Edges
edges_of nil = []
edges_of (cons (obj step) steps) = elim (id_of step) [
  | none ↦ edges_of steps
  | some sid ↦ (sid, texts_if (needs_items (get_field step "needs"))) ∷ edges_of steps
]
edges_of (cons _ steps) = edges_of steps

-- What the loop over the rest of a node's dependencies comes to.
pub data Scan : Type 0 where
  exhausted missing : Scan
  meets : String → Scan
  descends : String → List String → Scan

abbrev pub scan_on : Option Colour → String → List String → Scan → Scan
scan_on none d ds rest = missing
scan_on (some grey) d ds rest = meets d
scan_on (some white) d ds rest = descends d ds
scan_on (some black) d ds rest = rest

unfoldable pub scan : Dict Colour → List String → Scan
scan colour [] = exhausted
scan colour (d ∷ ds) = scan_on (Dict.get colour d) d ds (scan colour ds)

-- The stack has its top at the head; the ids on it are `path`, from its end.
abbrev pub Stack : Type 0
Stack = List (String × List String)

-- `path[path.index(dep):] + [dep]`, with the part that is done.
unfoldable pub path_from : String → List String → Stack → List String
path_from d tail [] = tail
path_from d tail ((a, deps) ∷ stack) =
    let longer = path_from d (a ∷ tail) stack in if str_eq a d then a ∷ tail else longer

pub data Explored : Type 0 where
  raised : SpecError → Explored
  explored : Dict Colour → Explored

abbrev pub needs_in : Edges → String → List String
needs_in edges sid = elim (Dict.get edges sid) [ none ↦ [] | some deps ↦ deps ]

-- A round of `while stack`, of a node on top; `next` is the rounds after it.
unfoldable pub follow :
    Edges → Dict Colour → String → Stack → Scan → (Dict Colour → Stack → Explored) → Explored
follow edges colour node stack exhausted next = next (Dict.set colour node black) stack
follow edges colour node stack missing next = raised key_error
follow edges colour node stack (meets d) next =
    raised (cycle (path_from d (d ∷ []) ((node, []) ∷ stack)))
follow edges colour node stack (descends d rest) next =
    next (Dict.set colour d grey) ((d, needs_in edges d) ∷ (node, rest) ∷ stack)

unfoldable pub explore : ℕ → Edges → Dict Colour → Stack → Explored
explore zero edges colour stack = raised out_of_fuel
explore (suc n) edges colour [] = explored colour
explore (suc n) edges colour ((node, deps) ∷ stack) =
    follow edges colour node stack (scan colour deps) (explore n edges)

-- Each id is pushed once and popped once from a root on.
abbrev pub fuel_of : Edges → ℕ
fuel_of edges = 2 * length edges + 2

abbrev pub then_explored : Explored → (Dict Colour → Check) → Check
then_explored (raised e) next = some e
then_explored (explored colour) next = next colour

abbrev pub root_if : Option Colour → Check → Check → Check
root_if (some white) start next = start
root_if (some _) start next = next
root_if none start next = some key_error

-- `for root in by_id`
unfoldable pub search_roots : Edges → List String → Dict Colour → Check
search_roots edges [] colour = none
search_roots edges (root ∷ roots) colour =
    root_if (Dict.get colour root)
      (then_explored
        (explore (fuel_of edges) edges (Dict.set colour root grey)
          ((root, needs_in edges root) ∷ []))
        (λ later. search_roots edges roots later))
      (search_roots edges roots colour)

abbrev pub ids_in : Edges → List String
ids_in [] = []
ids_in ((sid, deps) ∷ edges) = sid ∷ ids_in edges

abbrev pub whites : Edges → Dict Colour
whites [] = []
whites ((sid, deps) ∷ edges) = (sid, white) ∷ whites edges

unfoldable pub detect_cycle : Edges → Check
detect_cycle edges = search_roots edges (ids_in edges) (whites edges)

abbrev pub is_name : Option Value → Option String
is_name (some (str s)) = if is_blank s then none else some s
is_name _ = none

abbrev pub validate_steps : Option Value → Check
validate_steps (some (arr nil)) = some no_steps
validate_steps (some (arr steps)) =
    check_steps 0 [] steps
    then_check check_dangling (ids_of steps) steps
    then_check detect_cycle (edges_of steps)
validate_steps _ = some no_steps

abbrev pub validate_named : Option String → Fields → Check
validate_named none spec = some no_name
validate_named (some name) spec = validate_steps (get_field spec "steps")

unfoldable pub validate_spec : Value → Check
validate_spec (obj spec) = validate_named (is_name (get_field spec "name")) spec
validate_spec _ = some not_an_object
