-- ===== src/Prelude/Decimal.antt =====
-- `n.toString()` for a whole number.
use Prim.Native.Nat.{ℕ, zero, suc, ◌+◌, ◌/◌, ◌%◌}
use Prim.Native.String.{String, ◌++◌ as concat}
use mathlib.Core.List.{List, [], ◌∷◌}
use mathlib.Core.Path.{◌≡◌, refl}
use high_throughput_notifica.Prelude.Int.{ℤ, pos, negsuc}
use high_throughput_notifica.Prelude.Tests.{ltb, if◌then◌else◌}

-- The text at an index, and '9' beyond the end.
at_or_nine : List String → ℕ → String
at_or_nine [] n = "9"
at_or_nine (d ∷ ds) zero = d
at_or_nine (d ∷ ds) (suc n) = at_or_nine ds n

digit : ℕ → String
unfolding at_or_nine
digit = at_or_nine ("0" ∷ "1" ∷ "2" ∷ "3" ∷ "4" ∷ "5" ∷ "6" ∷ "7" ∷ "8" ∷ [])

-- The fuel bounds the number of digits.
digits : ℕ → ℕ → String
unfolding digit
digits zero n = ""
digits (suc f) n =
    let front = digits f (n / 10) in if ltb n 10 then digit n else concat front (digit (n % 10))

unfoldable pub decimal : ℕ → String
unfolding digits
decimal n = digits (n + 1) n

decimal_example : decimal 30720 ≡ "30720"
unfolding decimal
decimal_example = refl

-- A whole number with its sign.
unfoldable pub int_text : ℤ → String
unfolding decimal
int_text (pos n) = decimal n
int_text (negsuc n) = concat "-" (decimal (n + 1))
