-- ===== src/Spec/Order.antt =====
-- `topological_order` of engine/spec.py, Kahn's algorithm on the ids of a definition and their needs.
mod Release
mod Round
mod Needs
mod Open
mod Drains
mod Starts
mod Complete
mod Loops
pub mod Sorts
pub mod Follows
use Prim.Native.String.{compare}
use text.Mathlib.Text.{is_lt}
use nutanix_hack.Prelude.{
  ℕ, zero, suc, Bool, false, String, Option, none, some, List, [], ◌∷◌, ◌++◌, length, ◌==◌,
  if◌then◌else◌,
}
use nutanix_hack.Prelude.Int.{ℤ, pos, negsuc}
use nutanix_hack.Prelude.Dict
use nutanix_hack.Prelude.Dict.{Dict}
use nutanix_hack.Spec.Cycle.{Edges}

-- `key_error` is a need that is no id; `unfinished` is that the fuel has run out.
pub data Sorted : Type 0 where
  in_order : List String → Sorted
  cycle_found key_error unfinished : Sorted

-- The two dicts; how many needs of an id are left, and the ids that need it.
pub record Waits : Type 0 where
  pub indegree : Dict ℤ
  pub dependents : Dict (List String)

abbrev add_one : Option ℤ → ℤ
add_one none = pos 1
add_one (some (pos n)) = pos (suc n)
add_one (some (negsuc zero)) = pos 0
add_one (some (negsuc (suc n))) = negsuc n

abbrev less_one : Option ℤ → ℤ
less_one none = negsuc 0
less_one (some (pos zero)) = negsuc 0
less_one (some (pos (suc n))) = pos n
less_one (some (negsuc n)) = negsuc (suc n)

abbrev is_zero : ℤ → Bool
is_zero (pos n) = n == 0
is_zero (negsuc n) = false

unfoldable pub no_waits : Edges → Waits
no_waits [] = record { indegree = []; dependents = [] }
no_waits ((sid, needs) ∷ edges) =
    let w = no_waits edges in
    record { indegree = (sid, pos 0) ∷ w.indegree; dependents = (sid, []) ∷ w.dependents }

unfoldable pub count_needs : String → List String → Waits → Option Waits
count_needs sid [] w = some w
count_needs sid (dep ∷ needs) w = elim (Dict.get w.dependents dep) [
  | none ↦ none
  | some children ↦ count_needs sid needs (record {
    indegree = Dict.set w.indegree sid (add_one (Dict.get w.indegree sid));
    dependents = Dict.set w.dependents dep (children ++ sid ∷ []);
  })
]

unfoldable pub count_all : Edges → Waits → Option Waits
count_all [] w = some w
count_all ((sid, needs) ∷ edges) w = elim (count_needs sid needs w) [
  | none ↦ none
  | some counted ↦ count_all edges counted
]

-- Python's order of texts; `sorted` keeps equal ones.
unfoldable pub insert_id : String → List String → List String
insert_id k [] = k ∷ []
insert_id k (j ∷ ks) =
    let rest = insert_id k ks in if is_lt (compare j k) then j ∷ rest else k ∷ j ∷ ks

unfoldable pub sort_ids : List String → List String
sort_ids [] = []
sort_ids (k ∷ ks) = insert_id k (sort_ids ks)

unfoldable pub roots : Dict ℤ → List String
roots [] = []
roots ((sid, d) ∷ indegree) = let rest = roots indegree in if is_zero d then sid ∷ rest else rest

-- One need less for each dependent; those without a need left join the queue.
unfoldable pub release : List String → Dict ℤ → List String → Dict ℤ × List String
release [] indegree queue = (indegree, queue)
release (child ∷ children) indegree queue =
    let left = less_one (Dict.get indegree child) in
    release children (Dict.set indegree child left)
      (if is_zero left then queue ++ child ∷ [] else queue)

abbrev children_of : Option (List String) → List String
children_of none = []
children_of (some children) = children

-- The loop, with what is in order so far.
unfoldable pub sort_queue :
    ℕ → Dict (List String) → Dict ℤ → List String → List String → Option (List String)
sort_queue fuel dependents indegree [] order = some order
sort_queue zero dependents indegree (sid ∷ queue) order = none
sort_queue (suc fuel) dependents indegree (sid ∷ queue) order =
    let (left, more) = release (children_of (Dict.get dependents sid)) indegree queue in
    sort_queue fuel dependents left (sort_ids more) (order ++ sid ∷ [])

abbrev if_complete : ℕ → Option (List String) → Sorted
if_complete count none = unfinished
if_complete count (some order) = if length order == count then in_order order else cycle_found

abbrev sort_waits : ℕ → Option Waits → Sorted
sort_waits count none = key_error
sort_waits count (some w) =
    if_complete count (sort_queue count w.dependents w.indegree (sort_ids (roots w.indegree)) [])

-- `edges` is `by_id`: each id once, with its needs. The fuel is one round for each id.
unfoldable pub topological_order : Edges → Sorted
topological_order edges = sort_waits (length edges) (count_all edges (no_waits edges))
