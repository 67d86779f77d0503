-- ===== src/Tests/RetrievalTests.antt =====
-- Searches over a Qdrant that always finds the same two templates, with whole numbers for the
-- doubles.
use high_throughput_notifica.Redis
use high_throughput_notifica.Tests.ContextTests.{template}
use high_throughput_notifica.Chunker.CodeUnits.{ascii}
use high_throughput_notifica.ContextAssembly.{VectorSearchResult, filter}
use high_throughput_notifica.Prelude.{
  take, List, String, [], arith, count_by, decimal, false, insert, length, lookup, lookup-insert,
  lookup-remove, max, min, none, refl, remove, some, true, ℕ, ◌*◌, ◌+◌, ◌-◌, ◌/◌, ◌==◌, ◌^◌, ◌∷◌,
  ◌≡◌, ◌≤◌,
}
use high_throughput_notifica.Prelude.Action.{Outcome, failure, returned, threw}
use high_throughput_notifica.Prelude.Int.{pos, pos_part}
use high_throughput_notifica.Redis.{Client, Stored}
use high_throughput_notifica.Redis.Store.{Store}
use high_throughput_notifica.Retrieval.{
  Runtime, update_avg_search_time, Services, reset_stats, State, Query, SearchAnswer,
  get_search_cache_key, max_score, min_score, normalize_scores, rescored, search, search_anew,
}
use high_throughput_notifica.Retrieval.Counting.{fresh, Served-Tallied, Tallied, searches, served}
use high_throughput_notifica.Retrieval.Keys.{get_search_cache_key_collides}
use high_throughput_notifica.Retrieval.Ranking.{
  Ranked, SimilarOptions, by_max, find_similar, merge_results, without_original,
}
use high_throughput_notifica.Retrieval.Repeated.{Working, search-search}
use high_throughput_notifica.Retrieval.Similar.{
  find_similar-Excluding, lookup-merge_results, merged_under, named,
}
use high_throughput_notifica.Cache
use high_throughput_notifica.Cache.{generate_key}
use high_throughput_notifica.Retrieval.{simple_hash}
use high_throughput_notifica.Retrieval.Repeated.{kept_for}

abbrev runtime : Runtime
runtime = record {
  Number = ℕ;
  Filter = Unit {0};
  of_int = pos_part;
  add = λ a b. a + b;
  sub = λ a b. a - b;
  mul = λ a b. a * b;
  div = λ a b. a / b;
  is_zero = λ n. n == 0;
  lesser = λ a b. min a b;
  larger = λ a b. max a b;
  number_text = decimal;
  filter_text = λ f. "all";
  code_units = ascii;
  base_36 = decimal;
  default_score_threshold = 7;
  power = λ a n. a ^ n;
  default_keyword_boost = 2;
  original_weight = 6;
  custom_weight = 4;
  lower_case = λ s. s;
  contains = λ s t. false;
  sort_falling = λ A f l. l;
}

abbrev welcome : VectorSearchResult ℕ
welcome = record { id = "a"; score = 9; payload = template "welcome" }

abbrev goodbye : VectorSearchResult ℕ
goodbye = record { id = "b"; score = 4; payload = template "goodbye" }

-- The world is the clock and the keys of Redis.
abbrev Shelf : Type 0
Shelf = ℕ × List (String × Redis.Stored (List (VectorSearchResult ℕ)))

abbrev shelf_redis : Redis.Client Shelf (List (VectorSearchResult ℕ))
shelf_redis = record {
  get = λ k (t, m). (returned (lookup k m), (t, m));
  set = λ k v (t, m). (returned tt, (t, insert k v m));
  setex = λ k ttl v (t, m). (returned tt, (t, insert k v m));
  del = λ k (t, m). (returned 1, (t, remove k m));
  incr = λ k (t, m). (threw (failure "no numbers"), (t, m));
  keys = λ p (t, m). (returned [], (t, m));
  sadd = λ k v (t, m). (returned 0, (t, m));
  smembers = λ k (t, m). (returned [], (t, m));
}

unfoldable shelf_redis-Store : Store shelf_redis
shelf_redis-Store = record {
  stored = λ (t, m) k. lookup k m;
  members = λ w k. [];
  get_reads = λ k x {o} h. ground arith;
  setex_writes = λ k ttl v x j h. lookup-insert k j v x.1;
  del_removes = λ k x j {n} h. lookup-remove k j x.1;
  incr_missing = λ k x {n} h m. absurd (ground arith);
  incr_number = λ k x {n} {m} h e. absurd (ground arith);
  smembers_reads = λ k x {ms} h. ground arith;
  smembers_keeps = λ k x j. refl;
}

abbrev services : Services runtime Shelf ℕ
services = record {
  now = λ (t, m). (t, (t + 1, m));
  redis = shelf_redis;
  generate_embedding = λ text w. (returned 5, w);
  qdrant_search = λ e q w. (returned (welcome ∷ goodbye ∷ []), w);
  get_template = λ id w. (returned (some (template "welcome")), w);
}

works : Working runtime services
unfolding shelf_redis-Store
works = record {
  store = shelf_redis-Store;
  reads = λ k x. refl;
  writes = λ k ttl v x. refl;
  clock_keeps = λ x k. refl;
}

abbrev fresh_engine : State runtime services
fresh_engine = record {
  total_searches = 0;
  cache_hits = 0;
  cache_misses = 0;
  avg_search_time_ms = 0;
  world = (3, []);
}

abbrev query : String → Query runtime
query text = record { query_text = text; top_k = none; filter = none; score_threshold = none }

abbrev searched : Outcome (SearchAnswer ℕ) × State runtime services
searched = search runtime services (query "hi") fresh_engine

abbrev found_first : SearchAnswer ℕ
found_first = record {
  results = rescored runtime 1 welcome ∷ rescored runtime 0 goodbye ∷ [];
  search_time_ms = pos 1;
  cached = false;
  query_expanded = false;
  reranked = false;
}

searched_returns : searched ≡ (returned found_first, searched.1)
unfolding search search_anew Cache.get Redis.get Cache.set Redis.set lookup insert normalize_scores
    min_score max_score update_avg_search_time
searched_returns = refl

-- Another query is searched for in between.
abbrev later : State runtime services
later = (search runtime services (query "other") searched.1).1

still_kept :
    kept_for runtime services works (query "hi") later.world
    ≡ kept_for runtime services works (query "hi") searched.1.world
unfolding search search_anew Cache.get Redis.get Cache.set Redis.set lookup insert normalize_scores
    min_score max_score update_avg_search_time works shelf_redis-Store generate_key
    get_search_cache_key simple_hash decimal
still_kept = refl

search-search_example :
    (b : SearchAnswer ℕ) × (s : State runtime services) × (search runtime services
        (query "hi")
        later
      ≡ (returned b, s))
    × (b.cached ≡ true)
    × (b.results ≡ take 50 found_first.results)
search-search_example =
    search-search runtime services works (query "hi") fresh_engine searched.1 later found_first
      searched_returns refl still_kept

Served-Tallied_example : Tallied runtime services searched.1
unfolding reset_stats
Served-Tallied_example =
    Served-Tallied runtime services (served (fresh fresh_engine) (searches (query "hi")))

get_search_cache_key_collides_example :
    get_search_cache_key runtime (query "Aa") ≡ get_search_cache_key runtime (query "BB")
get_search_cache_key_collides_example =
    get_search_cache_key_collides runtime (query "Aa") "BB" [] (ascii ":none") refl refl

lookup-merge_results_example :
    lookup "a" (merge_results runtime false by_max [] (welcome ∷ goodbye ∷ welcome ∷ []))
    ≡ merged_under runtime false by_max "a" none (welcome ∷ goodbye ∷ welcome ∷ [])
lookup-merge_results_example =
    lookup-merge_results runtime false by_max (welcome ∷ goodbye ∷ welcome ∷ []) "a"

abbrev any_similar : SimilarOptions (Unit {0})
any_similar = record { top_k = some 2; filter = none; exclude_original = none }

abbrev similar : Outcome (Ranked (VectorSearchResult ℕ)) × State runtime services
similar = find_similar runtime services "a" any_similar fresh_engine

-- Two are asked for, two are searched for, and one is the template itself.
abbrev only_goodbye : Ranked (VectorSearchResult ℕ)
only_goodbye = record {
  results = rescored runtime 0 goodbye ∷ [];
  semantic_results = 2;
  search_time_ms = pos 3;
}

similar_returns : similar ≡ (returned only_goodbye, similar.1)
unfolding find_similar without_original filter search search_anew Cache.get Redis.get Cache.set
    Redis.set lookup insert normalize_scores min_score max_score take update_avg_search_time
similar_returns = refl

find_similar-Excluding_example :
    (count_by (named runtime "a") only_goodbye.results ≡ 0) × (length only_goodbye.results ≤ 2)
find_similar-Excluding_example =
    find_similar-Excluding runtime services "a" any_similar fresh_engine similar.1 only_goodbye refl
      similar_returns
