-- ===== src/Expressions.antt =====
-- engine/expressions.py: the templates of step configs and of trigger inputs.
pub mod Paths
pub mod Local
mod Examples
use Prim.Native.Char.{Char, code}
use Prim.Native.String
use Prim.Native.String.{String, [], ◌∷◌}
use nutanix_hack.Prelude.{
  ℕ, zero, suc, ◌+◌, ◌-◌, ◌*◌, Bool, true, false, not, ◌&&◌, ◌||◌, concat, Option, none, some, List,
  [], ◌∷◌, ◌++◌, str_eq, contains, ltb, leb, ◌==◌, if◌then◌else◌, arith,
}
use nutanix_hack.Prelude.Int.{ℤ, pos, negsuc}
use nutanix_hack.Prelude.Texts.{split}
use nutanix_hack.Json.{
  Value, Fields, Items, null, bool, str, num, obj, arr, end, field, nil, cons, get_field, set_field,
}
use nutanix_hack.Expressions.Paths.{find_paths, whole_path, Piece, char, path, pieces}

-- What `render` comes to: a value, an ExpressionError, the TypeError of a list or an object as a key
-- of a dict, or a key that is a number, a truth value or None, of which JSON has no dict.
pub data Rendered : Type 0 where
  rendered : Value → Rendered
  expression_error unhashable_key other_key : Rendered

-- `int(part)` after its sign: digits, and single underscores between them.
int_digits : ℕ → Bool → String → Option ℕ
int_digits n after_digit [] = if after_digit then some n else none
int_digits n after_digit (c ∷ s) =
    let digit = int_digits (n * 10 + (code c - b'0')) true s in
    let underscore = int_digits n false s in
    if leb b'0' (code c) && leb (code c) b'9'
    then digit
    else if code c == b'_' && after_digit
    then underscore
    else none

abbrev signed : Option ℕ → Option ℤ
signed none = none
signed (some zero) = some (pos zero)
signed (some (suc n)) = some (negsuc n)

abbrev unsigned : Option ℕ → Option ℤ
unsigned none = none
unsigned (some n) = some (pos n)

-- `int(part)` of a part of a path, whose characters are letters, digits, `_` and `-`.
unfoldable pub int_of : String → Option ℤ
unfolding int_digits
int_of [] = none
int_of (c ∷ s) =
    if code c == b'-' then signed (int_digits 0 false s) else unsigned (int_digits 0 false (c ∷ s))

abbrev count_items : Items → ℕ
count_items nil = 0
count_items (cons v xs) = suc (count_items xs)

abbrev item : Items → ℕ → Option Value
item nil n = none
item (cons v xs) zero = some v
item (cons v xs) (suc n) = item xs n

-- `xs[i]`: a negative index counts from the end.
unfoldable pub item_at : Items → Option ℤ → Option Value
item_at xs none = none
item_at xs (some (pos n)) = item xs n
item_at xs (some (negsuc n)) =
    if ltb n (count_items xs) then item xs (count_items xs - suc n) else none

-- One round of the loop of `lookup`; `none` is an ExpressionError.
unfoldable pub step_into : Value → String → Option Value
step_into (obj fs) part = get_field fs part
step_into (arr xs) part = item_at xs (int_of part)
step_into _ part = none

walk_parts : Option Value → List String → Option Value
walk_parts none parts = none
walk_parts (some v) [] = some v
walk_parts (some v) (part ∷ parts) = walk_parts (step_into v part) parts

unfoldable pub lookup : String → Value → Option Value
unfolding walk_parts
lookup dotted context = walk_parts (some context) (split b'.' dotted)

abbrev or_error : Option Value → Rendered
or_error none = expression_error
or_error (some v) = rendered v

abbrev put_char : Char → Option String → Option String
put_char c none = none
put_char c (some rest) = some (c ∷ rest)

abbrev put_value : (Value → String) → Option Value → Option String → Option String
put_value show none rest = none
put_value show (some v) none = none
put_value show (some v) (some rest) = some (concat (show v) rest)

-- `EXPRESSION.sub(replace, value)`, which stops at the first path that is not there.
unfoldable pub replace_all : (Value → String) → Value → List Piece → Option String
replace_all show context [] = some ""
replace_all show context (char c ∷ ps) = put_char c (replace_all show context ps)
replace_all show context (path p ∷ ps) =
    put_value show (lookup p context) (replace_all show context ps)

abbrev as_text : Option String → Rendered
as_text none = expression_error
as_text (some s) = rendered (str s)

-- `show` is Python's `str`.
unfoldable pub render_string : (Value → String) → String → Value → Rendered
render_string show value context = elim (whole_path value) [
  | some p ↦ or_error (lookup p context)
  | none ↦ as_text (replace_all show context (pieces value))
]

abbrev put_key : Value → Value → Fields → Rendered
put_key (str k) v made = rendered (obj (set_field made k v))
put_key (arr xs) v made = unhashable_key
put_key (obj fs) v made = unhashable_key
put_key _ v made = other_key

-- An entry of the dict that `render` builds: its key, its value, then the insertion.
abbrev put_entry : Rendered → Rendered → Fields → Rendered
put_entry (rendered k) (rendered v) made = put_key k v made
put_entry (rendered k) failed made = failed
put_entry failed v made = failed

abbrev pub with_rest : Rendered → (Fields → Rendered) → Rendered
with_rest (rendered (obj made)) rest = rest made
with_rest (rendered v) rest = rendered v
with_rest failed rest = failed

abbrev put_item : Rendered → Rendered → Rendered
put_item (rendered v) (rendered (arr xs)) = rendered (arr (cons v xs))
put_item (rendered v) rest = rest
put_item failed rest = failed

unfoldable mutual
  pub render : (Value → String) → Value → Value → Rendered
  render show (str s) context = render_string show s context
  render show (obj fs) context = render_fields show fs context end
  render show (arr xs) context = render_items show xs context
  render show value context = rendered value

  render_fields : (Value → String) → Fields → Value → Fields → Rendered
  render_fields show end context made = rendered (obj made)
  render_fields show (field k v fs) context made =
      with_rest (put_entry (render_string show k context) (render show v context) made)
        (λ more. render_fields show fs context more)

  render_items : (Value → String) → Items → Value → Rendered
  render_items show nil context = rendered (arr nil)
  render_items show (cons v xs) context =
      put_item (render show v context) (render_items show xs context)

-- The step that a path names: its second part, after `steps`.
unfoldable pub step_of : List String → Option String
step_of (a ∷ sid ∷ rest) = if str_eq a "steps" then some sid else none
step_of _ = none

abbrev add_found : Option String → List String → List String
add_found none found = found
add_found (some sid) found = if contains found sid then found else sid ∷ found

-- The loop over the matches in one text.
unfoldable pub note_paths : List String → List String → List String
note_paths [] found = found
note_paths (p ∷ ps) found = note_paths ps (add_found (step_of (split b'.' p)) found)

unfoldable mutual
  pub referenced : Value → List String → List String
  referenced (str s) found = note_paths (find_paths (pieces s)) found
  referenced (obj fs) found = referenced_fields fs found
  referenced (arr xs) found = referenced_items xs found
  referenced value found = found

  referenced_fields : Fields → List String → List String
  referenced_fields end found = found
  referenced_fields (field k v fs) found =
      referenced_fields fs (referenced v (note_paths (find_paths (pieces k)) found))

  referenced_items : Items → List String → List String
  referenced_items nil found = found
  referenced_items (cons v xs) found = referenced_items xs (referenced v found)

unfoldable pub referenced_steps : Value → List String
referenced_steps value = referenced value []
