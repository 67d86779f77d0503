-- ===== src/Tests/Fractions.antt =====
-- Exact fractions in place of doubles.
use high_throughput_notifica.Prelude.{arith, refl, suc, ℕ, ◌*◌, ◌+◌, ◌-◌, ◌/◌}
use high_throughput_notifica.Prelude.Int.{negsuc, pos, pos_part, sub_nat, ℤ}
use high_throughput_notifica.RateLimit.{Doubles, general_limits, tokens_to_add}
use high_throughput_notifica.RateLimit.Throughput.{Rounding}

-- A numerator and a denominator.
unfoldable pub scaled : ℤ → ℕ → ℤ
scaled (pos n) k = pos (n * k)
scaled (negsuc n) k = sub_nat 0 (suc n * k)

unfoldable pub rounded_down : ℤ → ℕ → ℤ
rounded_down (pos n) k = pos (n / k)
rounded_down (negsuc n) k = negsuc (n / k)

pub rounded_up : ℤ → ℕ → ℤ
rounded_up (pos n) k = pos ((n + k - 1) / k)
rounded_up (negsuc n) k = sub_nat 0 (suc n / k)

unfoldable pub fractions : Doubles
fractions = record {
  Number = ℤ × ℕ;
  of_int = λ z. (z, 1);
  div = λ a b. (scaled a.0 b.1, a.1 * pos_part b.0);
  mul = λ a b. (scaled a.0 (pos_part b.0), a.1 * b.1);
  floor = λ a. rounded_down a.0 a.1;
  ceil = λ a. rounded_up a.0 a.1;
}

pub fractions-Rounding : Rounding fractions general_limits
unfolding fractions scaled rounded_down tokens_to_add
fractions-Rounding = record { never_negative = λ e. refl; never_more = λ e. omega arith }
