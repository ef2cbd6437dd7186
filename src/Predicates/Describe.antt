-- ===== src/Predicates/Describe.antt =====
-- `describe` of graph/predicates.py: a predicate in words, for the API and the admin pages.
use nutanix_hack.Prelude.{String, concat, Option, some, List, [], ◌∷◌, ◌++◌}
use nutanix_hack.Json.{Value, Fields, Items, str, arr, obj, nil, cons, end, field, get_field}

-- `sep.join(parts)`
unfoldable pub join : String → List String → String
join sep [] = ""
join sep (p ∷ []) = p
join sep (p ∷ q ∷ ps) = concat p (concat sep (join sep (q ∷ ps)))

abbrev names_of : Items → List String
names_of nil = []
names_of (cons (str name) xs) = name ∷ names_of xs
names_of (cons _ xs) = names_of xs

-- `f"{k}={v}"` of each entry; `show` is Python's `str`.
abbrev entries_of : (Value → String) → Fields → List String
entries_of show end = []
entries_of show (field k v fs) = concat k (concat "=" (show v)) ∷ entries_of show fs

abbrev changed_part : Option Value → List String
changed_part (some (arr (cons x xs))) =
    concat "when " (concat (join " or " (names_of (cons x xs))) " changes") ∷ []
changed_part _ = []

abbrev block_part : (Value → String) → String → Option Value → List String
block_part show word (some (obj (field k v fs))) =
    concat word (join ", " (entries_of show (field k v fs))) ∷ []
block_part show word _ = []

abbrev or_always : List String → String
or_always [] = "always"
or_always (p ∷ ps) = join "; " (p ∷ ps)

-- Of a predicate that has passed `validate_predicate`: names and objects where they are wanted.
unfoldable pub describe : (Value → String) → Fields → String
describe show fs = or_always (
    changed_part (get_field fs "changed")
    ++ (block_part show "from " (get_field fs "was")
        ++ block_part show "to " (get_field fs "match")))
