-- ===== src/Retrieval.antt =====
-- src/vector-db/services/retrieval.service.ts: searches for templates through Qdrant, with the
-- results kept in the cache. Qdrant, the embeddings, Redis, the clock, the doubles and the methods of
-- strings are parameters; JSON.stringify of a filter is one of them. A catch only logs and throws
-- again. A number under a key of a search, which no search stores, is taken for a miss.
pub mod Ranking
pub mod Counting
pub mod Repeated
pub mod Keys
pub mod Similar
use high_throughput_notifica.Redis
use high_throughput_notifica.Cache
use high_throughput_notifica.Cache.{CacheOptions}
use high_throughput_notifica.ContextAssembly.{NotificationTemplate, VectorSearchResult}
use high_throughput_notifica.Prelude.{
  take, Bool, List, Option, String, [], concat, decimal, false, if◌then◌else◌, leb, ltb, map, none,
  some, suc, true, zero, ℕ, ◌%◌, ◌*◌, ◌+◌, ◌-◌, ◌∷◌,
}
use high_throughput_notifica.Prelude.Action.{Action, modify, pure, returned, ◌>>=◌, ◌>>◌}
use high_throughput_notifica.Prelude.Int.{pos, sub_nat, ℤ}
use high_throughput_notifica.Redis.{Client, value}
use high_throughput_notifica.Retry.Breaker.{Clock}

pub record VectorSearchQuery (Number F : Type 0) : Type 0 where
  pub query_text : String
  pub top_k : Option ℕ
  pub filter : Option F
  pub score_threshold : Option Number

abbrev pub default_top_k : ℕ
default_top_k = 10

abbrev pub cache_ttl : ℕ
cache_ttl = 3600

abbrev pub max_cached_results : ℕ
max_cached_results = 50

-- `a || b` for a number.
abbrev pub or_number : Option ℕ → ℕ → ℕ
or_number none b = b
or_number (some zero) b = b
or_number (some (suc n)) b = suc n

-- The counters of the service beside the rest of the world.
pub record Engine (X Number : Type 0) : Type 0 where
  pub total_searches : ℕ
  pub cache_hits : ℕ
  pub cache_misses : ℕ
  pub avg_search_time_ms : Number
  pub world : X

pub record RetrievalStats (Number : Type 0) : Type 0 where
  pub total_searches : ℕ
  pub cache_hits : ℕ
  pub cache_misses : ℕ
  pub cache_hit_rate : Number
  pub avg_search_time_ms : Number

-- `code_units` is what charCodeAt gives, and `base_36` is toString(36) of a whole number.
-- `default_score_threshold`, `default_keyword_boost` and the weights are 0.7, 1.2, 0.6 and 0.4.
-- `sort_falling` sorts by a falling score.
pub record Runtime : Type 1 where
  pub Number : Type 0
  pub Filter : Type 0
  pub of_int : ℤ → Number
  pub add : Number → Number → Number
  pub sub : Number → Number → Number
  pub mul : Number → Number → Number
  pub div : Number → Number → Number
  pub is_zero : Number → Bool
  pub lesser : Number → Number → Number
  pub larger : Number → Number → Number
  pub number_text : Number → String
  pub filter_text : Filter → String
  pub code_units : String → List ℕ
  pub base_36 : ℕ → String
  pub default_score_threshold : Number
  pub power : Number → ℕ → Number
  pub default_keyword_boost : Number
  pub original_weight : Number
  pub custom_weight : Number
  pub lower_case : String → String
  pub contains : String → String → Bool
  pub sort_falling : (A : Type 0) → (A → Number) → List A → List A

-- What a search returns: `totalResults` is the number of the results.
pub record SearchAnswer (Number : Type 0) : Type 0 where
  pub results : List (VectorSearchResult Number)
  pub search_time_ms : ℤ
  pub cached : Bool
  pub query_expanded : Bool
  pub reranked : Bool

-- A step of `simpleHash` on the 32 bits of the hash, of which `hash & hash` keeps the last 32.
unfoldable pub hash_step : ℕ → ℕ → ℕ
hash_step hash char = (hash * 32 + 4294967296 - hash + char) % 4294967296

unfoldable pub hash_units : ℕ → List ℕ → ℕ
unfolding hash_step
hash_units hash [] = hash
hash_units hash (c ∷ cs) = hash_units (hash_step hash c) cs

-- `Math.abs(hash)`, where the upper half of the 32 bits are the negative numbers.
abbrev pub absolute : ℕ → ℕ
absolute hash = if leb 2147483648 hash then 4294967296 - hash else hash

module _ (runtime : Runtime) where
  open runtime use {
    Number, Filter, of_int, add, sub, mul, div, is_zero, lesser, larger, number_text, filter_text,
    code_units, base_36, default_score_threshold,
  }

  abbrev pub Result : Type 0
  Result = VectorSearchResult Number

  abbrev pub Query : Type 0
  Query = VectorSearchQuery Number Filter

  unfoldable pub simple_hash : String → String
  unfolding hash_units
  simple_hash str = base_36 (absolute (hash_units 0 (code_units str)))

  -- `query.scoreThreshold || this.defaultScoreThreshold`; NaN is no threshold that is given.
  abbrev pub threshold_of : Option Number → Number
  threshold_of none = default_score_threshold
  threshold_of (some t) = if is_zero t then default_score_threshold else t

  abbrev filter_str : Option Filter → String
  filter_str none = "none"
  filter_str (some f) = filter_text f

  abbrev pub hashed_text : Query → String
  hashed_text query = concat query.query_text (concat ":" (filter_str query.filter))

  unfoldable pub get_search_cache_key : Query → String
  unfolding simple_hash
  get_search_cache_key query = concat "search:" (
      concat (simple_hash (hashed_text query)) (
        concat ":" (
          concat (decimal (or_number query.top_k default_top_k))
            (concat ":" (number_text (threshold_of query.score_threshold))))))

  -- The smallest score and the largest one of results of which there is one at least.
  unfoldable pub min_score : Number → List Result → Number
  min_score found [] = found
  min_score found (r ∷ rs) = min_score (lesser found r.score) rs

  unfoldable pub max_score : Number → List Result → Number
  max_score found [] = found
  max_score found (r ∷ rs) = max_score (larger found r.score) rs

  abbrev pub rescored : Number → Result → Result
  rescored score r = record r { score = score }

  unfoldable pub normalize_scores : List Result → List Result
  unfolding min_score max_score
  normalize_scores [] = []
  normalize_scores (r ∷ rs) =
      let least = min_score r.score rs in
      let range = sub (max_score r.score rs) least in
      if is_zero range
      then map (rescored (of_int (pos 1))) (r ∷ rs)
      else map (λ q. rescored (div (sub q.score least) range) q) (r ∷ rs)

  -- What the service asks of others. Qdrant is given the query with its defaults put in.
  pub record Services (X Embedding : Type 0) : Type 0 where
    pub now : Clock X
    pub redis : Redis.Client X (List Result)
    pub generate_embedding : String → Action X Embedding
    pub qdrant_search : Embedding → Query → Action X (List Result)
    pub get_template : String → Action X (Option NotificationTemplate)

  module _ {X Embedding : Type 0} (services : Services X Embedding) where
    open services use {now, redis, generate_embedding, qdrant_search, get_template}

    abbrev pub State : Type 0
    State = Engine X Number

    abbrev pub outside : {A : Type 0} → Action X A → Action State A
    outside m s = let (r, x) = m s.world in (r, record s { world = x })

    abbrev pub time : Action State ℕ
    time = outside (λ x. let (n, x') = now x in (returned n, x'))

    unfoldable pub update_avg_search_time : ℤ → State → State
    update_avg_search_time search_time_ms s = record s {
      avg_search_time_ms =
          div
            (add (mul s.avg_search_time_ms (of_int (sub_nat s.total_searches 1)))
              (of_int search_time_ms))
            (of_int (pos s.total_searches));
    }

    abbrev pub cached_results : Option (Redis.Json (List Result)) → Option (List Result)
    cached_results (some (Redis.value l)) = some l
    cached_results (some (Redis.number n)) = none
    cached_results none = none

    -- What both ways end with: the time is taken, and it enters the average.
    abbrev pub answer : ℕ → Bool → List Result → Action State (SearchAnswer Number)
    answer begun cached results = do
      ended ← time
      modify (update_avg_search_time (sub_nat ended begun))
      pure (record {
        results = results;
        search_time_ms = sub_nat ended begun;
        cached = cached;
        query_expanded = false;
        reranked = false;
      })

    abbrev pub with_defaults : Query → Query
    with_defaults query = record query {
      top_k = some (or_number query.top_k default_top_k);
      score_threshold = some (threshold_of query.score_threshold);
    }

    abbrev pub cache_options : Option CacheOptions
    cache_options = some (record { ttl = some cache_ttl; prefix = none })

    -- Without a hit.
    unfoldable pub search_anew : Query → ℕ → Action State (SearchAnswer Number)
    unfolding normalize_scores take
    search_anew query begun = do
      modify (λ s. record s { cache_misses = s.cache_misses + 1 })
      embedding ← outside (generate_embedding query.query_text)
      found ← outside (qdrant_search embedding (with_defaults query))
      let normalized = normalize_scores found
      outside (
          Cache.set redis (get_search_cache_key query)
            (Redis.value (take max_cached_results normalized)) cache_options)
      answer begun false normalized

    abbrev pub search_from : Query → ℕ → Option (List Result) → Action State (SearchAnswer Number)
    search_from query begun none = search_anew query begun
    search_from query begun (some l) = do
      modify (λ s. record s { cache_hits = s.cache_hits + 1 })
      answer begun true l

    unfoldable pub search : Query → Action State (SearchAnswer Number)
    unfolding search_anew get_search_cache_key update_avg_search_time
    search query = do
      begun ← time
      modify (λ s. record s { total_searches = s.total_searches + 1 })
      cached ← outside (Cache.get redis (get_search_cache_key query) none)
      search_from query begun (cached_results cached)

    unfoldable pub get_stats : State → RetrievalStats Number
    get_stats s = record {
      total_searches = s.total_searches;
      cache_hits = s.cache_hits;
      cache_misses = s.cache_misses;
      cache_hit_rate =
          if ltb 0 s.total_searches
          then div (of_int (pos s.cache_hits)) (of_int (pos s.total_searches))
          else of_int (pos 0);
      avg_search_time_ms = s.avg_search_time_ms;
    }

    unfoldable pub reset_stats : State → State
    reset_stats s = record s {
      total_searches = 0;
      cache_hits = 0;
      cache_misses = 0;
      avg_search_time_ms = of_int (pos 0);
    }
