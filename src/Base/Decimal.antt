-- ===== src/Base/Decimal.antt =====
-- The decimal text of a number, as `format!("{}")` prints an unsigned integer.
use Prim.Native.Nat.{ℕ, zero, suc, ◌/◌, ◌%◌}
use Prim.Native.String.{String, ◌++◌}
use mathlib.Core.Path.{◌≡◌, refl}
use mathlib.Core.List.{List, [], ◌∷◌}
use speech_core.Base.Tests.{ltb, if◌then◌else◌}

abbrev nth : List String → ℕ → String
nth [] i = ""
nth (s ∷ ss) zero = s
nth (s ∷ ss) (suc i) = nth ss i

abbrev digit : ℕ → String
digit = nth ("0" ∷ "1" ∷ "2" ∷ "3" ∷ "4" ∷ "5" ∷ "6" ∷ "7" ∷ "8" ∷ "9" ∷ [])

-- The fuel bounds the number of digits.
digits : ℕ → ℕ → String
digits zero n = ""
digits (suc fuel) n =
    let rest = digits fuel (n / 10) in if ltb n 10 then digit n else rest ++ digit (n % 10)

unfoldable pub decimal : ℕ → String
unfolding digits
decimal n = digits (suc n) n

decimal_runs : decimal 40320 ≡ "40320"
unfolding decimal
decimal_runs = refl
