-- ===== src/Expressions/Paths.antt =====
-- The regular expressions of engine/expressions.py: where a text has `{{ path }}`.
use Prim.Native.Char.{Char, code}
use Prim.Native.String.{String, [], ◌∷◌}
use nutanix_hack.Prelude.{
  ℕ, zero, suc, ◌-◌, Bool, ◌&&◌, ◌||◌, Option, none, some, List, [], ◌∷◌, leb, ◌==◌, if◌then◌else◌,
}

abbrev in_range : ℕ → ℕ → ℕ → Bool
in_range a b n = leb a n && leb n b

-- `\s`
abbrev pub is_space : ℕ → Bool
is_space n =
    in_range 9 13 n
    || in_range 28 32 n
    || n == 133
    || n == 160
    || n == 5760
    || in_range 8192 8202 n
    || n == 8232
    || n == 8233
    || n == 8239
    || n == 8287
    || n == 12288

abbrev starts_path : ℕ → Bool
starts_path n = in_range b'a' b'z' n || in_range b'A' b'Z' n || n == b'_'

abbrev continues_path : ℕ → Bool
continues_path n = starts_path n || in_range b'0' b'9' n || n == b'.' || n == b'-'

unfoldable pub skip_space : String → String
skip_space [] = []
skip_space (c ∷ s) = let rest = skip_space s in if is_space (code c) then rest else c ∷ s

abbrev before : Char → String × String → String × String
before c (p, rest) = (c ∷ p, rest)

-- The longest run of a path's characters, and what follows it.
path_run : String → String × String
path_run [] = ([], [])
path_run (c ∷ s) =
    let more = before c (path_run s) in if continues_path (code c) then more else ([], c ∷ s)

-- The rest after `}}`.
closed : String → Option String
closed (a ∷ b ∷ s) = if code a == b'}' && code b == b'}' then some s else none
closed _ = none

abbrev with_path : String → Option String → Option (String × String)
with_path p none = none
with_path p (some rest) = some (p, rest)

path_from : String → Option (String × String)
path_from [] = none
path_from (c ∷ s) =
    let run = path_run (c ∷ s) in
    if starts_path (code c) then with_path run.0 (closed (skip_space run.1)) else none

-- A match of `EXPRESSION` at the start of a text: its path, and the rest of the text.
unfoldable pub match_here : String → Option (String × String)
unfolding path_from path_run closed
match_here (a ∷ b ∷ s) = if code a == b'{' && code b == b'{' then path_from (skip_space s) else none
match_here _ = none

abbrev pub if_empty : String → String → Option String
if_empty [] p = some p
if_empty (c ∷ s) p = none

abbrev ended : Option (String × String) → Option String
ended none = none
ended (some (p, rest)) = if_empty (skip_space rest) p

-- `WHOLE_EXPRESSION.match(value)`
unfoldable pub whole_path : String → Option String
whole_path value = ended (match_here (skip_space value))

pub data Piece : Type 0 where
  char : Char → Piece
  path : String → Piece

abbrev pub count_chars : String → ℕ
count_chars [] = 0
count_chars (c ∷ s) = suc (count_chars s)

-- The pieces of a text after `skip` more characters of a match: its matches from left to right, and
-- the characters between them.
unfoldable pub pieces_after : ℕ → String → List Piece
pieces_after skip [] = []
pieces_after (suc skip) (c ∷ s) = pieces_after skip s
pieces_after zero (c ∷ s) = elim (match_here (c ∷ s)) [
  | none ↦ char c ∷ pieces_after zero s
  | some (p, rest) ↦ path p ∷ pieces_after (count_chars s - count_chars rest) s
]

unfoldable pub pieces : String → List Piece
pieces value = pieces_after zero value

-- The paths of the matches.
unfoldable pub find_paths : List Piece → List String
find_paths [] = []
find_paths (char c ∷ ps) = find_paths ps
find_paths (path p ∷ ps) = p ∷ find_paths ps
