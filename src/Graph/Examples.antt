-- ===== src/Graph/Examples.antt =====
-- An employee who joins and moves: tests and instances.
use nutanix_hack.Prelude.{◌≡◌, refl, true, false, none, [], ◌∷◌}
use nutanix_hack.Prelude.Int.{pos}
use nutanix_hack.Json.{Fields, null, bool, str, num, end, field, get_field, set_field}
use nutanix_hack.Predicates.Values.{same_value}
use nutanix_hack.Graph.Diff.{diff, merge, keys_of, sorted_set, differs, keep_keys}
use nutanix_hack.Graph.{EntityKey, Graph, find_entity, upsert_entity}
use nutanix_hack.Graph.Proper.{IsProper}
use nutanix_hack.Graph.Resync.{upsert_entity_again}
use nutanix_hack.Graph.History.{IsRecorded}
use nutanix_hack.Graph.Mutations.{upserts, mutate_all, mutate_all-IsRecorded}

abbrev asha : EntityKey
asha = record { tenant = "t"; type = "employee"; external_id = "e_1" }

abbrev joined : Fields
joined = field "geo" (str "IN") (field "department" (str "Sales") end)

abbrev moved : Fields
moved = field "department" (str "Engineering") (field "badge" null end)

abbrev nothing : Graph
nothing = record { entities = []; edges = []; changes = []; next_id = 1 }

-- A key with the value None counts as absent.
moved_keys : diff joined (merge joined moved) ≡ ("department" ∷ [])
unfolding diff merge keys_of sorted_set differs keep_keys set_field get_field same_value
moved_keys = refl

-- True is 1, so this is no change.
one_is_true : diff (field "n" (num (pos 1)) end) (field "n" (bool true) end) ≡ []
unfolding diff keys_of sorted_set differs keep_keys get_field same_value
one_is_true = refl

empty-IsRecorded : IsRecorded nothing
unfolding find_entity
empty-IsRecorded = record { at = λ k. refl }

mutate_all-IsRecorded_example :
    IsRecorded (mutate_all (upserts asha joined false ∷ upserts asha moved false ∷ []) nothing)
mutate_all-IsRecorded_example =
    mutate_all-IsRecorded (upserts asha joined false ∷ upserts asha moved false ∷ []) nothing
      empty-IsRecorded

upsert_entity_again_example :
    upsert_entity asha joined false (upsert_entity asha joined false nothing).1 ≡ (
      ((upsert_entity asha joined false nothing).0.0, none),
      (upsert_entity asha joined false nothing).1,
    )
unfolding IsProper get_field find_entity
upsert_entity_again_example =
    upsert_entity_again asha joined false nothing (refl, tt, (refl, tt, tt)) tt
