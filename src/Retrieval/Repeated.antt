-- ===== src/Retrieval/Repeated.antt =====
-- A query that is searched for again, and templates that are similar to one.
use high_throughput_notifica.Redis
use high_throughput_notifica.Cache
use high_throughput_notifica.Cache.{generate_key}
use high_throughput_notifica.Prelude.{take, List, Option, String, none, some, true, ℕ, ◌≡◌}
use high_throughput_notifica.Prelude.Action.{returned}
use high_throughput_notifica.Redis.{Stored, value}
use high_throughput_notifica.Redis.Store.{Store}
use high_throughput_notifica.Retrieval.{
  Query, Result, Runtime, SearchAnswer, Services, State, get_search_cache_key, max_cached_results,
  search, search_anew,
}
use high_throughput_notifica.Prelude.{arith, eq_iff, inl, inr}
use high_throughput_notifica.Prelude.Action.{Outcome-cases}
use high_throughput_notifica.Retrieval.{normalize_scores, with_defaults}
use high_throughput_notifica.Prelude.{ap, false, if◌then◌else◌, refl, str_eq, ◌+◌, ◌∙◌}
use high_throughput_notifica.Prelude.Int.{sub_nat, ℤ}
use high_throughput_notifica.Retrieval.{update_avg_search_time}
use high_throughput_notifica.Cache.Laws.{get_returns}
use high_throughput_notifica.Prelude.{Option-cases}
use high_throughput_notifica.Retrieval.{cached_results}

-- What the service relies on of a Redis that works: it answers every read and write, and reading the
-- clock changes no key.
pub record Working {X Embedding : Type 0} (runtime : Runtime)
    (services : Services runtime X Embedding) : Type 0 where
  pub store : Store services.redis
  pub reads : (k : String) (x : X) → (services.redis.get k x).0 ≡ returned (store.stored x k)
  pub writes :
      (k : String) (ttl : ℕ) (v : Redis.Stored (List (Result runtime))) (x : X)
      → (services.redis.setex k ttl v x).0 ≡ returned tt
  pub clock_keeps : (x : X) (k : String) → store.stored (services.now x).1 k ≡ store.stored x k

module _ (runtime : Runtime) {X Embedding : Type 0} (services : Services runtime X Embedding)
    (working : Working runtime services) where
  open working use {store, reads, writes, clock_keeps}

  -- What is stored for a query.
  abbrev pub kept_for : Query runtime → X → Option (Redis.Stored (List (Result runtime)))
  kept_for q x = store.stored x (generate_key (get_search_cache_key runtime q) none)

  if_same : {A : Type 0} (k : String) (a b : A) → (if str_eq k k then a else b) ≡ a
  if_same k a b = ground (arith, eq_iff k k)

  search_anew-stores :
      (q : Query runtime) (begun : ℕ) (s s' : State runtime services)
      (a : SearchAnswer runtime.Number)
      → search_anew runtime services q begun s ≡ (returned a, s')
      → kept_for q s'.world ≡ some (Redis.encoded (Redis.value (take max_cached_results a.results)))
  unfolding search_anew Cache.set Redis.set generate_key update_avg_search_time
  search_anew-stores q begun s s' a h =
      elim (Outcome-cases (services.generate_embedding q.query_text s.world).0) [
        | inl (embedding, e) ↦
            let x : X = (services.generate_embedding q.query_text s.world).1 in
            let asked : Query runtime = with_defaults runtime services q in
            let found = services.qdrant_search embedding asked x in
            elim (Outcome-cases found.0) [
              | inl (l, e') ↦
                  let k : String = generate_key (get_search_cache_key runtime q) none in
                  let kept : List (Result runtime) =
                    take max_cached_results (normalize_scores runtime l) in
                  let v = Redis.encoded (Redis.value kept) in
                  let written = services.redis.setex k 3600 v found.1 in
                  let wrote : written.0 ≡ returned tt = writes k 3600 v found.1 in
                  let world : s'.world ≡ (services.now written.1).1 =
                    ground (arith, e, e', wrote) in
                  let same : normalize_scores runtime l ≡ a.results =
                    ground (arith, e, e', wrote) in
                  ap (λ y. store.stored y k) world
                  ∙ clock_keeps written.1 k
                  ∙ store.setex_writes k 3600 v found.1 k wrote
                  ∙ if_same k (some v) (store.stored found.1 k)
                  ∙ ap (λ r. some (Redis.encoded (Redis.value (take max_cached_results r)))) same
              | inr (err, e') ↦ absurd (ground (arith, e, e'))
            ]
        | inr (err, e) ↦ absurd (ground (arith, e))
      ]

  search_hit :
      (q : Query runtime) (s : State runtime services) (l : List (Result runtime))
      → kept_for q s.world ≡ some (Redis.encoded (Redis.value l))
      → (a : SearchAnswer runtime.Number) × (s' : State runtime services) × (search runtime services
            q s
          ≡ (returned a, s'))
        × (a.cached ≡ true)
        × (a.results ≡ l)
  unfolding search Cache.get Redis.get
  search_hit q s l h =
      let k : String = generate_key (get_search_cache_key runtime q) none in
      let x : X = (services.now s.world).1 in
      let y : X = (services.redis.get k x).1 in
      let took : ℤ = sub_nat (services.now y).0 (services.now s.world).0 in
      let read : State runtime services = record s {
        total_searches = s.total_searches + 1;
        cache_hits = s.cache_hits + 1;
        world = (services.now y).1;
      } in
      let a : SearchAnswer runtime.Number = record {
        results = l;
        search_time_ms = took;
        cached = true;
        query_expanded = false;
        reranked = false;
      } in
      let there : (services.redis.get k x).0 ≡ returned (some (Redis.encoded (Redis.value l))) =
        reads k x ∙ ap returned (clock_keeps s.world k ∙ h) in
      (a, update_avg_search_time runtime services took read, rw there refl, refl, refl)

  -- A query that was searched for in Qdrant, and is searched for again in any later state that has
  -- stored for it what the first search left: the second search returns, from the cache, the first
  -- 50 of the results.
  pub search-search :
      (q : Query runtime) (s s' t : State runtime services) (a : SearchAnswer runtime.Number)
      → search runtime services q s ≡ (returned a, s')
      → a.cached ≡ false
      → kept_for q t.world ≡ kept_for q s'.world
      → (b : SearchAnswer runtime.Number) × (t' : State runtime services) × (search runtime services
            q t
          ≡ (returned b, t'))
        × (b.cached ≡ true)
        × (b.results ≡ take max_cached_results a.results)
  unfolding search
  search-search q s s' t a h new same =
      let k : String = get_search_cache_key runtime q in
      let x : X = (services.now s.world).1 in
      let (o, e) = get_returns services.redis k none x in
      elim (Option-cases (cached_results runtime services o)) [
        | inl m ↦
            let read : State runtime services = record s {
              total_searches = s.total_searches + 1;
              world = (Cache.get services.redis k none x).1;
            } in
            let begun : ℕ = (services.now s.world).0 in
            let anew : search_anew runtime services q begun read ≡ (returned a, s') =
              ground (arith, e, m) in
            search_hit q t (take max_cached_results a.results)
              (same ∙ search_anew-stores q begun read s' a anew)
        | inr (l, m) ↦ absurd (ground (arith, e, m))
      ]
