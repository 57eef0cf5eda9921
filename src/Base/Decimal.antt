-- ===== src/Base/Decimal.antt =====
-- `%d` of a natural number.
use Prim.Native.Nat.{ℕ, zero, suc, ◌/◌, ◌%◌}
use Prim.Native.String.{String, ◌++◌ as ◌<>◌}
use mathlib.Core.List.{List, [], ◌∷◌}
use piace.Base.Tests.{ltb, if◌then◌else◌}

unfoldable pub digits : List String
digits = "0" ∷ "1" ∷ "2" ∷ "3" ∷ "4" ∷ "5" ∷ "6" ∷ "7" ∷ "8" ∷ "9" ∷ []

unfoldable pub digit_at : List String → ℕ → String
digit_at [] n = ""
digit_at (d ∷ ds) zero = d
digit_at (d ∷ ds) (suc n) = digit_at ds n

-- One round for each digit; a number has fewer digits than itself plus one.
unfoldable pub decimal_from : ℕ → ℕ → String
unfolding digits digit_at
decimal_from zero n = ""
decimal_from (suc fuel) n =
    let rest = decimal_from fuel (n / 10) in
    let last = digit_at digits (n % 10) in if ltb n 10 then last else rest <> last

unfoldable pub decimal : ℕ → String
unfolding decimal_from
decimal n = decimal_from (suc n) n
