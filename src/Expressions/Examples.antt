-- ===== src/Expressions/Examples.antt =====
-- Rendered templates: tests and instances.
use nutanix_hack.Prelude.{◌≡◌, refl, [], ◌∷◌, String}
use nutanix_hack.Prelude.Texts.{split}
use nutanix_hack.Prelude.Int.{pos}
use nutanix_hack.Json.{Value, null, str, num, obj, arr, end, field, nil, cons, get_field}
use nutanix_hack.Expressions.Paths.{
  whole_path, match_here, skip_space, pieces, pieces_after, find_paths,
}
use nutanix_hack.Expressions.{
  rendered, expression_error, unhashable_key, render, render_string, replace_all, lookup, step_into,
  item_at, int_of, referenced_steps, referenced, note_paths, step_of,
}
use nutanix_hack.Expressions.Local.{render_reads_paths, paths_in}

abbrev show : Value → String
show (str s) = s
show _ = "3"

abbrev nodes : Value
nodes = arr (cons (str "a") (cons (str "b") nil))

abbrev context : Value
context = obj (field "input" (obj (field "count" (num (pos 3)) (field "nodes" nodes end))) end)

whole : render show (str " {{input.count }}") context ≡ rendered (num (pos 3))
unfolding render render_string whole_path match_here skip_space lookup split step_into get_field
whole = refl

mixed : render show (str "node-{{ input.nodes.-1 }}{{x") context ≡ rendered (str "node-b{{x")
unfolding render render_string whole_path match_here skip_space lookup split step_into get_field
    replace_all pieces pieces_after item_at int_of
mixed = refl

missing : render show (str "{{ input.node }}") context ≡ expression_error
unfolding render render_string whole_path match_here skip_space lookup split step_into get_field
missing = refl

-- A key that a template makes a list is a TypeError, which is no ExpressionError.
list_key : render show (obj (field "{{ input.nodes }}" null end)) context ≡ unhashable_key
unfolding render render_string whole_path match_here skip_space lookup split step_into get_field
list_key = refl

-- A path that is `steps` alone reads every step and names none.
bare_steps : referenced_steps (arr (cons (str "{{ steps.a.output }}-{{ steps }}") nil)) ≡ ("a" ∷ [])
unfolding referenced_steps referenced pieces pieces_after match_here skip_space find_paths
    note_paths step_of split
bare_steps = refl

render_reads_paths_example :
    render show (str "v {{ input.count }}") context
    ≡ render show
        (str "v {{ input.count }}")
        (obj (field "input" (obj (field "count" (num (pos 3)) end)) end))
unfolding paths_in pieces pieces_after match_here skip_space find_paths lookup split step_into
    get_field
render_reads_paths_example =
    render_reads_paths show (str "v {{ input.count }}") context
      (obj (field "input" (obj (field "count" (num (pos 3)) end)) end)) (refl, tt)
