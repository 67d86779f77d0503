-- ===== src/Cache.antt =====
-- src/redis/cache.service.ts, over the Redis service. Its log lines are not modelled.
pub mod Laws
pub mod Versions
pub mod Tags
use high_throughput_notifica.Redis
use high_throughput_notifica.Prelude.{
  Bool, List, Option, String, [], concat, decimal, false, if◌then◌else◌, length, none, or_text,
  some, true, ℕ, ◌==◌, ◌∷◌,
}
use high_throughput_notifica.Prelude.Action.{Action, pure, try_catch, ◌>>=◌, ◌>>◌}
use high_throughput_notifica.Redis.{Client, number}

pub record CacheOptions : Type 0 where
  pub ttl : Option ℕ
  pub prefix : Option String

-- `options` is `none` where the caller passes none.
abbrev prefix_of : Option CacheOptions → Option String
prefix_of none = none
prefix_of (some o) = o.prefix

-- `options?.ttl || this.defaultTTL`
abbrev pub ttl_of : Option CacheOptions → ℕ
ttl_of none = 3600
ttl_of (some o) = elim o.ttl [ none ↦ 3600 | some t ↦ if t == 0 then 3600 else t ]

unfoldable pub generate_key : String → Option CacheOptions → String
generate_key key options = concat (or_text (prefix_of options) "cache") (concat ":" key)

abbrev pub tag_key : String → String
tag_key tag = concat "tag:" tag

abbrev pub version_key : String → String
version_key resource = concat "version:" resource

module _ {X V : Type 0} (client : Redis.Client X V) where
  unfoldable pub get : String → Option CacheOptions → Action X (Option (Redis.Json V))
  get key options = try_catch (Redis.get client (generate_key key options)) (λ e. pure none)

  unfoldable pub set : String → Redis.Json V → Option CacheOptions → Action X Bool
  set key v options =
      try_catch
        (do Redis.set client (generate_key key options) v (some (ttl_of options)); pure true)
        (λ e. pure false)

  unfoldable pub invalidate : String → Option CacheOptions → Action X Bool
  invalidate key options =
      try_catch (do Redis.del client (generate_key key options); pure true) (λ e. pure false)

  -- The loop over the keys; each deletion is awaited before the next.
  unfoldable pub delete_all : List String → Action X (Unit {0})
  delete_all [] = pure tt
  delete_all (k ∷ ks) = do Redis.del client k; delete_all ks

  abbrev delete_found : List String → Action X ℕ
  delete_found [] = pure 0
  delete_found (k ∷ ks) = do delete_all (k ∷ ks); pure (length (k ∷ ks))

  unfoldable pub invalidate_pattern : String → Action X ℕ
  invalidate_pattern pattern =
      try_catch (do found ← Redis.keys client pattern; delete_found found) (λ e. pure 0)

  abbrev fetch_missing :
      String
      → Action X (Redis.Json V)
      → Option CacheOptions
      → Option (Redis.Json V)
      → Action X (Redis.Json V)
  fetch_missing key fetch options (some v) = pure v
  fetch_missing key fetch options none = do v ← fetch; set key v options; pure v

  -- The write to the cache is not awaited in the source; it begins at once and its outcome is
  -- dropped.
  unfoldable pub get_or_set :
      String → Action X (Redis.Json V) → Option CacheOptions → Action X (Redis.Json V)
  get_or_set key fetch options = do cached ← get key options; fetch_missing key fetch options cached

  unfoldable pub increment_version : String → Action X ℕ
  increment_version resource = Redis.incr client (version_key resource)

  -- `version || 1`
  abbrev version_or_one : Option (Redis.Json V) → ℕ
  version_or_one (some (Redis.number n)) = if n == 0 then 1 else n
  version_or_one _ = 1

  unfoldable pub get_version : String → Action X ℕ
  get_version resource = do
    found ← Redis.get client (version_key resource)
    pure (version_or_one found)

  unfoldable pub get_versioned_key : String → String → Action X String
  get_versioned_key resource key = do
    version ← get_version resource
    pure (concat resource (concat ":v" (concat (decimal version) (concat ":" key))))

  unfoldable pub write_through :
      String
      → Redis.Json V
      → (Redis.Json V → Action X (Unit {0}))
      → Option CacheOptions
      → Action X (Unit {0})
  write_through key v update options = do update v; set key v options; pure tt

  -- The loop over the tags.
  unfoldable pub add_tags : String → List String → Action X (Unit {0})
  add_tags cache_key [] = pure tt
  add_tags cache_key (tag ∷ tags) = do client.sadd (tag_key tag) cache_key; add_tags cache_key tags

  unfoldable pub set_with_tags :
      String → Redis.Json V → List String → Option CacheOptions → Action X Bool
  set_with_tags key v tags options = do
    set key v options
    add_tags (generate_key key options) tags
    pure true

  abbrev drop_tagged : String → List String → Action X ℕ
  drop_tagged tag [] = pure 0
  drop_tagged tag (k ∷ ks) = do
    delete_all (k ∷ ks)
    Redis.del client (tag_key tag)
    pure (length (k ∷ ks))

  unfoldable pub invalidate_by_tag : String → Action X ℕ
  invalidate_by_tag tag =
      try_catch (do members ← client.smembers (tag_key tag); drop_tagged tag members) (λ e. pure 0)
