-- ===== src/RateLimit/Guard.antt =====
-- What one check of a guard decides and stores.
use high_throughput_notifica.Redis
use high_throughput_notifica.Prelude.{String, arith, none, some, true, ℕ, ◌*◌, ◌<◌, ◌≡◌}
use high_throughput_notifica.Prelude.Action.{Error, failure, limited, non_error, returned, threw}
use high_throughput_notifica.Prelude.Int.{pos}
use high_throughput_notifica.RateLimit.{Bucket, Doubles, Limits, check, refill, retry_after, take}
use high_throughput_notifica.Redis.{Client, value}
use high_throughput_notifica.Retry.Breaker.{Clock}

-- The errors that a failing Redis gives: no HttpException.
pub data Ordinary : Error → Type 0 where
  plain : (message : String) → Ordinary (failure message)
  foreign : Ordinary non_error

abbrev pub fresh : Limits → ℕ → Bucket
fresh limits time = record { tokens = pos limits.max_tokens; last_refill = time }

module _ (d : Doubles) (limits : Limits) {X : Type 0} (now : Clock X)
    (client : Redis.Client X Bucket) where
  -- If Redis cannot be read, the request is let through and nothing is written.
  pub check_fails_open :
      (key : String) (x x' : X) (e : Error)
      → Ordinary e
      → client.get key (now x).1 ≡ (threw e, x')
      → check d limits now client key x ≡ (returned true, x')
  unfolding check Redis.get
  check_fails_open key x x' e (plain m) h = ground arith
  check_fails_open key x x' e foreign h = ground arith

  -- A request that finds no token in its refilled bucket is refused with the time to wait, and
  -- the stored bucket stays as it was, time stamp included.
  pub check_refuses :
      (key : String) (x x' : X) (b : Bucket)
      → client.get key (now x).1 ≡ (returned (some (Redis.encoded (Redis.value b))), x')
      → take (refill d limits (now x).0 b) ≡ none
      → check d limits now client key x
        ≡ (threw (limited limits.message (retry_after d limits (refill d limits (now x).0 b))), x')
  unfolding check Redis.get
  check_refuses key x x' b h t = ground arith

  -- A request that finds one stores the bucket less one token, under its key and for twice the
  -- refill interval, and is let through.
  pub check_allows :
      (key : String) (x x' : X) (b b' : Bucket)
      → 0 < limits.refill_interval
      → client.get key (now x).1 ≡ (returned (some (Redis.encoded (Redis.value b))), x')
      → take (refill d limits (now x).0 b) ≡ some b'
      → (client.setex key (limits.refill_interval * 2) (Redis.encoded (Redis.value b')) x').0
        ≡ returned tt
      → check d limits now client key x ≡ (
        returned true,
        (client.setex key (limits.refill_interval * 2) (Redis.encoded (Redis.value b')) x').1,
      )
  unfolding check Redis.get Redis.set
  check_allows key x x' b b' i h t s = ground arith
