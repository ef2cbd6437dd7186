-- ===== src/Plugins/Captured.antt =====
-- The cap on captured texts.
use Prim.Native.String.{String, [], ◌∷◌, count}
use text.Mathlib.TextLemmas.{length-append, length-cons}
use nutanix_hack.Prelude.{ℕ, zero, suc, ◌+◌, ◌≤◌, ◌≡◌, arith, leb, leb→le, Bool-cases, inl, inr}
use nutanix_hack.Prelude.Int.{pos}
use nutanix_hack.Json.{num}
use nutanix_hack.Plugins.Acts.{Machine, take, truncate, notice, max_captured_chars}

count-take : (n : ℕ) (text : String) → count (take n text) ≤ n
unfolding take
count-take zero text = omega arith
count-take (suc n) [] = omega arith
count-take (suc n) (c ∷ text) = rw (length-cons c (take n text)) (omega (arith, count-take n text))

count-notice :
    (m : Machine) (text : String)
    → count (notice m text) ≡ 29 + count (m.show (num (pos (count text))))
count-notice m text =
    rw (length-append "... [truncated, " _, length-append (m.show (num (pos (count text)))) _)
      (omega arith)

-- A captured text has at most 8029 characters more than the digits of the number of characters that
-- it stands for.
pub count-truncate-le :
    (m : Machine) (text : String)
    → count (truncate m text) ≤ 8029 + count (m.show (num (pos (count text))))
unfolding truncate
count-truncate-le m text = elim (Bool-cases (leb (count text) max_captured_chars)) [
  | inl e ↦ rw e (omega (arith, leb→le (count text) 8000 e))
  | inr e ↦
      rw (e, length-append (take max_captured_chars text) (notice m text))
        (omega (arith, count-take max_captured_chars text, count-notice m text))
]
