-- ===== src/Prelude/Texts.antt =====
-- Texts cut at a character and stripped, and the order of texts.
use Prim.Native.Char.{code}
use Prim.Native.String
use Prim.Native.String.{String, [], ◌∷◌, compare}
use mathlib.Core.Bool.{Bool, true, false}
use mathlib.Core.List.{List, [], ◌∷◌, ◌++◌}
use text.Mathlib.Text.{is_lt}
use Prim.Native.Nat.{ℕ, suc}
use nutanix_hack.Prelude.Tests.{if◌then◌else◌, ◌==◌}

split_from : ℕ → List String → String → String → List String
split_from sep parts part [] = parts ++ part ∷ []
split_from sep parts part (c ∷ s) =
    let closed = split_from sep (parts ++ part ∷ []) "" s in
    let longer = split_from sep parts (String.◌++◌ part (c ∷ [])) s in
    if code c == sep then closed else longer

-- `text.split(sep)` for one character.
unfoldable pub split : ℕ → String → List String
unfolding split_from
split sep text = split_from sep [] "" text

abbrev pub is_text : String → Bool
is_text [] = false
is_text (c ∷ s) = true

-- `a < b`
abbrev pub text_lt : String → String → Bool
text_lt a b = is_lt (compare a b)

-- Python's `len` of a text.
unfoldable pub text_length : String → ℕ
text_length [] = 0
text_length (c ∷ s) = suc (text_length s)
