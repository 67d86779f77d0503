-- ===== src/Tests/RateLimitTests.antt =====
-- The general limit on a bucket of three tokens, computed with exact fractions.
use high_throughput_notifica.Prelude.{[], refl, ◌∷◌, ◌≡◌}
use high_throughput_notifica.Prelude.Int.{pos, ◌+ℤ◌, ◌-ℤ◌}
use high_throughput_notifica.RateLimit.{Bucket, general_limits, refill, take, tokens_to_add}
use high_throughput_notifica.RateLimit.Throughput.{accepted}
use high_throughput_notifica.Tests.Fractions.{fractions, rounded_down, scaled}

abbrev three : Bucket
three = record { tokens = pos 3; last_refill = 1000 }

-- Four requests at once: three are let through, and no more could be.
four_at_once : accepted fractions general_limits three (1000 ∷ 1000 ∷ 1000 ∷ 1000 ∷ []) ≡ 3
unfolding accepted fractions scaled rounded_down tokens_to_add take refill ◌+ℤ◌ ◌-ℤ◌
four_at_once = refl
