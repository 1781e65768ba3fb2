-- ===== src/Base/Text.antt =====
-- Texts by their characters: `len(text)`, `text[:n]`, `text[n:]`.
use Prim.Native.Nat.{ℕ, zero, suc, ◌≤◌}
use Prim.Native.String.{String, [] as empty, ◌∷◌ as ◌∷ˢ◌}
use Prim.Native.String.count
use native.Mathlib.Omega.{arith}
pub use Prim.Native.String.{count as text_length}
pub use text.Mathlib.TextLemmas.{length-append as text_length-append}

unfoldable pub take_text : ℕ → String → String
take_text zero s = ""
take_text (suc n) empty = ""
take_text (suc n) (c ∷ˢ s) = c ∷ˢ take_text n s

unfoldable pub drop_text : ℕ → String → String
drop_text zero s = s
drop_text (suc n) empty = ""
drop_text (suc n) (c ∷ˢ s) = drop_text n s

pub text_length-take : (n : ℕ) (s : String) → text_length (take_text n s) ≤ n
unfolding take_text
text_length-take zero s = omega arith
text_length-take (suc n) empty = omega arith
text_length-take (suc n) (c ∷ˢ s) =
    rw (count.cons c (take_text n s)) (omega (arith, text_length-take n s))
