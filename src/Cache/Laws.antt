-- ===== src/Cache/Laws.antt =====
-- What the cache returns, with Redis up or down.
use high_throughput_notifica.Redis
use high_throughput_notifica.Cache
use high_throughput_notifica.Cache.{CacheOptions, generate_key, get, get_or_set, set, ttl_of}
use high_throughput_notifica.Prelude.{Option, String, arith, some, true, ◌≡◌}
use high_throughput_notifica.Prelude.Action.{Action, Error, returned, threw}
use high_throughput_notifica.Redis.{Client, Stored}
use high_throughput_notifica.Redis.Store.{Store}
use high_throughput_notifica.Cache.{invalidate}
use high_throughput_notifica.Prelude.{eq_iff, if◌then◌else◌, inl, inr, none, str_eq, suc, ◌-◌}
use high_throughput_notifica.Prelude.Action.{Outcome, Outcome-cases}

module _ {X V : Type 0} (client : Redis.Client X V) where
  -- A hit is returned without a fetch, and nothing is written.
  pub get_or_set_hit :
      (key : String) (fetch : Action X (Redis.Json V)) (options : Option CacheOptions)
      (v : Redis.Json V) (x x' : X)
      → client.get (generate_key key options) x ≡ (returned (some (Redis.encoded v)), x')
      → Cache.get_or_set client key fetch options x ≡ (returned v, x')
  unfolding Cache.get_or_set Cache.get Redis.get
  get_or_set_hit key fetch options v x x' h = ground arith

  -- What a read can give that is no hit: Redis fails, or the key is missing or holds '', null or
  -- a text that does not parse.
  pub data Miss : Outcome (Option (Redis.Stored V)) → Type 0 where
    down : (e : Error) → Miss (threw e)
    missing : Miss (returned none)
    blank : Miss (returned (some Redis.empty))
    garbled : Miss (returned (some Redis.malformed))
    nothing : Miss (returned (some Redis.null))

  -- Without a hit the caller has the outcome of the fetch; whether the value could be written to
  -- the cache does not show.
  pub get_or_set_miss :
      (key : String) (fetch : Action X (Redis.Json V)) (options : Option CacheOptions)
      {r : Outcome (Option (Redis.Stored V))} (x x' : X)
      → Miss r
      → client.get (generate_key key options) x ≡ (r, x')
      → (Cache.get_or_set client key fetch options x).0 ≡ (fetch x').0
  unfolding Cache.get_or_set Cache.get Redis.get Cache.set
  get_or_set_miss key fetch options x x' (down e) h = ground arith
  get_or_set_miss key fetch options x x' missing h = ground arith
  get_or_set_miss key fetch options x x' blank h = ground arith
  get_or_set_miss key fetch options x x' garbled h = ground arith
  get_or_set_miss key fetch options x x' nothing h = ground arith

  -- A read of the cache always returns.
  pub get_returns :
      (key : String) (options : Option CacheOptions) (x : X)
      → (o : Option (Redis.Json V)) × ((Cache.get client key options x).0 ≡ returned o)
  unfolding Cache.get
  get_returns key options x =
      elim (Outcome-cases (Redis.get client (generate_key key options) x).0) [
        | inl (o, e) ↦ (o, ground (arith, e))
        | inr (err, e) ↦ (none, ground (arith, e))
      ]

  module _ (store : Store client) where
    open store use {stored, get_reads, setex_writes, del_removes}

    set_stores :
        (key : String) (v : Redis.Json V) (options : Option CacheOptions) (x x' : X)
        → Cache.set client key v options x ≡ (returned true, x')
        → (j : String)
        → stored x' j
          ≡ (if str_eq (generate_key key options) j then some (Redis.encoded v) else stored x j)
    unfolding Cache.set Redis.set
    set_stores key v options x x' s j =
        let positive : ttl_of options ≡ suc (ttl_of options - 1) = ground arith in
        ground (
          arith,
          positive,
          setex_writes (generate_key key options) (ttl_of options) (Redis.encoded v) x j,
        )

    -- After `set` has returned true, a `get` of the same key returns the value, if Redis can be
    -- read.
    pub get-set :
        (key : String) (v : Redis.Json V) (options : Option CacheOptions) (x x' : X)
        {o : Option (Redis.Stored V)}
        → Cache.set client key v options x ≡ (returned true, x')
        → (client.get (generate_key key options) x').0 ≡ returned o
        → (Cache.get client key options x').0 ≡ returned (some v)
    unfolding Cache.get Redis.get
    get-set key v options x x' s g = ground (
      arith,
      eq_iff (generate_key key options) (generate_key key options),
      set_stores key v options x x' s (generate_key key options),
      get_reads (generate_key key options) x' g,
    )

    -- After `invalidate` has returned true, a `get` of the same key finds nothing.
    pub get-invalidate :
        (key : String) (options : Option CacheOptions) (x x' : X) {o : Option (Redis.Stored V)}
        → Cache.invalidate client key options x ≡ (returned true, x')
        → (client.get (generate_key key options) x').0 ≡ returned o
        → (Cache.get client key options x').0 ≡ returned none
    unfolding Cache.get Redis.get Cache.invalidate Redis.del
    get-invalidate key options x x' s g =
        let k = generate_key key options in
        elim (Outcome-cases (client.del k x).0) [
          | inl (n, e) ↦ ground (arith, eq_iff k k, del_removes k x k e, get_reads k x' g)
          | inr (err, e) ↦ ground arith
        ]
