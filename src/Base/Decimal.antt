-- ===== src/Base/Decimal.antt =====
-- `str(n)` of a natural number.
use Prim.Native.Nat.{ℕ, zero, suc, ◌/◌, ◌%◌}
use Prim.Native.String.{String, ◌++◌ as ◌<>◌}
use mathlib.Core.Path.{◌≡◌, refl}
use mathlib.Core.List.{List, [], ◌∷◌}
use package.e_commerce_agent.Base.Tests.{ltb, if◌then◌else◌}

digit_of : List String → ℕ → String
digit_of [] n = ""
digit_of (d ∷ ds) zero = d
digit_of (d ∷ ds) (suc n) = digit_of ds n

digit : ℕ → String
unfolding digit_of
digit = digit_of ("0" ∷ "1" ∷ "2" ∷ "3" ∷ "4" ∷ "5" ∷ "6" ∷ "7" ∷ "8" ∷ "9" ∷ [])

-- A number has at most as many digits as its value plus one.
digits_on : ℕ → ℕ → String
unfolding digit
digits_on zero n = ""
digits_on (suc fuel) n =
    let front = digits_on fuel (n / 10) in (if ltb n 10 then "" else front) <> digit (n % 10)

unfoldable pub decimal : ℕ → String
unfolding digits_on
decimal n = digits_on (suc n) n

decimal_1407 : decimal 1407 ≡ "1407"
unfolding decimal
decimal_1407 = refl
