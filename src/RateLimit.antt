-- ===== src/RateLimit.antt =====
-- The token buckets of src/common/guards/redis-rate-limiter.guard.ts and
-- src/ai/guards/ai-rate-limiter.guard.ts. The guards compute with doubles, which are the parameter
-- `Doubles`; token counts are whole. Response headers are not modelled.
pub mod Throughput
pub mod Sequence
pub mod Guard
use high_throughput_notifica.Redis
use high_throughput_notifica.Prelude.{
  Bool, Option, String, concat, if◌then◌else◌, none, some, true, ℕ, ◌*◌,
}
use high_throughput_notifica.Prelude.Action.{
  Action, Error, http, limited, pure, returned, throw, try_catch, ◌>>=◌, ◌>>◌,
}
use high_throughput_notifica.Prelude.Int.{leb_int, pos, sub_nat, ℤ, ◌+ℤ◌, ◌-ℤ◌}
use high_throughput_notifica.Redis.{Client, value}
use high_throughput_notifica.Retry.Breaker.{Clock}

pub record Doubles : Type 1 where
  pub Number : Type 0
  pub of_int : ℤ → Number
  pub div : Number → Number → Number
  pub mul : Number → Number → Number
  pub floor : Number → ℤ
  pub ceil : Number → ℤ

pub record Bucket : Type 0 where
  pub tokens : ℤ
  pub last_refill : ℕ

-- The constants of a guard; `interval` is in seconds.
pub record Limits : Type 0 where
  pub max_tokens : ℕ
  pub refill_rate : ℕ
  pub refill_interval : ℕ
  pub message : String

abbrev pub general_limits : Limits
general_limits = record {
  max_tokens = 100;
  refill_rate = 100;
  refill_interval = 60;
  message = "Too many requests. Please try again later.";
}

abbrev pub ai_limits : Limits
ai_limits = record {
  max_tokens = 10;
  refill_rate = 10;
  refill_interval = 60;
  message = "AI generation rate limit exceeded. You can make 10 requests per minute.";
}

abbrev pub min_int : ℤ → ℤ → ℤ
min_int a b = if leb_int a b then a else b

abbrev stored_bucket : Option (Redis.Json Bucket) → Limits → ℕ → Bucket
stored_bucket (some (Redis.value b)) limits now = b
stored_bucket _ limits now = record { tokens = pos limits.max_tokens; last_refill = now }

-- One token for one request, from a refilled bucket.
unfoldable pub take : Bucket → Option Bucket
take b = if leb_int (pos 1) b.tokens then some (record b { tokens = b.tokens -ℤ pos 1 }) else none

module _ (d : Doubles) (limits : Limits) where
  open d use {Number, of_int, div, mul, floor, ceil}
  open limits use {max_tokens, refill_rate, refill_interval, message}

  -- `elapsed` is in milliseconds, and negative if the clock went back.
  unfoldable pub tokens_to_add : ℤ → ℤ
  tokens_to_add elapsed = floor (
      mul (div (div (of_int elapsed) (of_int (pos 1000))) (of_int (pos refill_interval)))
        (of_int (pos refill_rate)))

  unfoldable pub refill : ℕ → Bucket → Bucket
  refill now b = record {
    tokens = min_int (pos max_tokens) (b.tokens +ℤ tokens_to_add (sub_nat now b.last_refill));
    last_refill = now;
  }

  unfoldable pub retry_after : Bucket → ℤ
  retry_after b = ceil (
      mul (div (of_int (pos 1 -ℤ b.tokens)) (of_int (pos refill_rate)))
        (of_int (pos refill_interval)))

  module _ {X : Type 0} (now : Clock X) (client : Redis.Client X Bucket) where
    abbrev save : String → Bucket → Option Bucket → Action X Bool
    save key b none = throw (limited message (retry_after b))
    save key b (some b') = do
      Redis.set client key (Redis.value b') (some (refill_interval * 2))
      pure true

    -- The `try` block.
    unfoldable pub spend : String → ℕ → Action X Bool
    unfolding refill take retry_after
    spend key time = do
      found ← Redis.get client key
      let b = refill time (stored_bucket found limits time)
      save key b (take b)

    -- An HttpException goes on; after any other error the request is let through.
    abbrev fail_open : Error → Action X Bool
    fail_open (limited m r) = throw (limited m r)
    fail_open (http status m) = throw (http status m)
    fail_open _ = pure true

    unfoldable pub check : String → Action X Bool
    unfolding spend
    check key = do
      time ← (λ x. let (n, x') = now x in (returned n, x'))
      try_catch (spend key time) fail_open

module _ (d : Doubles) {X : Type 0} (now : Clock X) (client : Redis.Client X Bucket) where
  -- RedisRateLimiterGuard.canActivate: the user's id, if any, and the endpoint.
  unfoldable pub can_activate : Option String → String → Action X Bool
  can_activate none endpoint = pure true
  can_activate (some user) endpoint =
      check d general_limits now client (concat "rate_limit:" (concat user (concat ":" endpoint)))

  -- AIRateLimiterGuard.canActivate
  unfoldable pub can_activate_ai : Option String → Action X Bool
  can_activate_ai none = throw (http 401 "Authentication required")
  can_activate_ai (some user) =
      check d ai_limits now client (concat "rate_limit:ai:" (concat user ":ai:generate"))
