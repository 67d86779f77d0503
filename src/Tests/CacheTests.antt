-- ===== src/Tests/CacheTests.antt =====
-- The cache over a Redis that works.
use high_throughput_notifica.Redis
use high_throughput_notifica.Cache
use high_throughput_notifica.Cache.{
  generate_key, get, get_or_set, get_version, increment_version, invalidate, set,
}
use high_throughput_notifica.Cache.Versions.{get_version-increment_version}
use high_throughput_notifica.Prelude.{String, insert, lookup, none, refl, ◌+◌, ◌≡◌}
use high_throughput_notifica.Prelude.Action.{Action, returned}
use high_throughput_notifica.Redis.{value}
use high_throughput_notifica.Tests.World.{World, dawn, redis, redis-Sets, redis-Store}
use high_throughput_notifica.Cache.{add_tags, delete_all, invalidate_by_tag, set_with_tags}
use high_throughput_notifica.Cache.Tags.{invalidate_by_tag-Dropped}
use high_throughput_notifica.Prelude.{[], arith, length, ◌∷◌}

abbrev fetch : Action World (Redis.Json String)
fetch w = (returned (Redis.value "fetched"), record w { clock = w.clock + 5 })

abbrev cached : World
cached = (Cache.set redis "page" (Redis.value "v") none dawn).1

abbrev cleared : World
cleared = (Cache.invalidate redis "page" none cached).1

get_version-increment_version_example :
    (Cache.get_version redis "users" (Cache.increment_version redis "users" dawn).1).0 ≡ returned 1
unfolding redis-Store lookup insert Cache.get_version Cache.increment_version Redis.incr Redis.get
get_version-increment_version_example =
    get_version-increment_version redis redis-Store "users" none dawn
      (Cache.increment_version redis "users" dawn).1 1 1 1 refl refl refl refl

-- Two pages under one tag.
abbrev tagged : World
tagged =
    (Cache.set_with_tags redis "about" (Redis.value "b") ("public" ∷ []) none
      (Cache.set_with_tags redis "page" (Redis.value "v") ("public" ∷ []) none dawn).1).1

abbrev untagged : World
untagged = (Cache.invalidate_by_tag redis "public" tagged).1

invalidate_by_tag-Dropped_example :
    (2 ≡ length (redis-Store.members tagged "tag:public"))
    × ((redis-Store.stored untagged "tag:public" ≡ none)
        × (redis-Store.members untagged "tag:public" ≡ []))
unfolding Cache.set Redis.set Cache.add_tags Cache.set_with_tags Cache.invalidate_by_tag
    Cache.delete_all Redis.del generate_key insert lookup redis-Store
invalidate_by_tag-Dropped_example =
    invalidate_by_tag-Dropped redis redis-Store redis-Sets "public" tagged untagged 2 "tag:public"
      refl (omega arith)
