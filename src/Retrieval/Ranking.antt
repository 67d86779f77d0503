-- ===== src/Retrieval/Ranking.antt =====
-- The searches of src/vector-db/services/retrieval.service.ts that rank, merge or leave out what
-- `search` finds. The queries of `multiQuerySearch`, which the source starts together, are searched
-- one after the other.
use high_throughput_notifica.ContextAssembly.{filter, NotificationTemplate, VectorSearchResult}
use high_throughput_notifica.Prelude.{
  take, Bool, List, Option, String, [], concat, false, if◌then◌else◌, includes, insert, join,
  length, lookup, ltb, map, none, not, some, str_eq, true, ℕ, ◌&&◌, ◌*◌, ◌++◌, ◌+◌, ◌==◌, ◌||◌, ◌∷◌,
}
use high_throughput_notifica.Prelude.Action.{Action, failure, pure, throw, ◌>>=◌}
use high_throughput_notifica.Prelude.Int.{pos, sub_nat, ℤ}
use high_throughput_notifica.Retrieval.{
  Query, Result, Runtime, SearchAnswer, Services, State, default_top_k, or_number, outside,
  rescored, search, time,
}

-- `a ?? b`
abbrev pub or_given {ℓ} : {A : Type ℓ} → Option A → A → A
or_given none b = b
or_given (some a) b = a

pub data MergeStrategy : Type 0 where
  by_max by_avg by_sum : MergeStrategy

pub record HybridOptions (Number : Type 0) : Type 0 where
  pub keyword_boost : Option Number
  pub require_all_keywords : Option Bool

pub record MultiQueryOptions : Type 0 where
  pub deduplicate_by_id : Option Bool
  pub merge_strategy : Option MergeStrategy

pub record SimilarOptions (F : Type 0) : Type 0 where
  pub top_k : Option ℕ
  pub filter : Option F
  pub exclude_original : Option Bool

-- A result with what is written into `payload.metadata`.
pub record Boosted (Number : Type 0) : Type 0 where
  pub result : VectorSearchResult Number
  pub matched_keywords : List String
  pub keyword_boost : Number

pub record Reranked (Number : Type 0) : Type 0 where
  pub result : VectorSearchResult Number
  pub original_score : Number
  pub custom_score : Number

-- What a ranking returns, with the number of the results that were searched.
pub record Ranked (A : Type 0) : Type 0 where
  pub results : List A
  pub semantic_results : ℕ
  pub search_time_ms : ℤ

module _ (runtime : Runtime) where
  open runtime use {
    Number, Filter, of_int, add, mul, div, is_zero, lesser, larger, power, default_keyword_boost,
    original_weight, custom_weight, lower_case, contains, sort_falling,
  }

  -- The keywords that the content contains or a tag equals, whatever the case.
  unfoldable pub matched_keywords : List String → Result runtime → List String
  unfolding filter
  matched_keywords keywords r =
      filter
        (λ k.
          contains (lower_case r.payload.content) (lower_case k)
          || includes (map lower_case r.payload.tags) (lower_case k))
        keywords

  unfoldable pub kept_by_keywords : Bool → List String → Result runtime → Bool
  unfolding matched_keywords
  kept_by_keywords require_all keywords r =
      not (require_all && not (length (matched_keywords keywords r) == length keywords))

  unfoldable pub boost : Number → List String → Result runtime → Boosted Number
  unfolding matched_keywords
  boost keyword_boost keywords r =
      let matched = matched_keywords keywords r in
      let factor =
        if ltb 0 (length matched) then power keyword_boost (length matched) else of_int (pos 1) in
      record {
        result = rescored runtime (lesser (mul r.score factor) (of_int (pos 1))) r;
        matched_keywords = matched;
        keyword_boost = factor;
      }

  -- `options?.keywordBoost || 1.2`
  abbrev boost_of : Option (HybridOptions Number) → Number
  boost_of none = default_keyword_boost
  boost_of (some o) = elim o.keyword_boost [
    | none ↦ default_keyword_boost
    | some b ↦ if is_zero b then default_keyword_boost else b
  ]

  abbrev require_of : Option (HybridOptions Number) → Bool
  require_of none = false
  require_of (some o) = or_given o.require_all_keywords false

  unfoldable pub rank_by_keywords :
      Option (HybridOptions Number) → List String → List (Result runtime) → List (Boosted Number)
  unfolding filter kept_by_keywords boost
  rank_by_keywords options keywords results =
      sort_falling (Boosted Number) (λ b. b.result.score)
        (map (boost (boost_of options) keywords)
          (filter (kept_by_keywords (require_of options) keywords) results))

  unfoldable pub rerank : (Result runtime → Number) → Result runtime → Reranked Number
  rerank reranking_function r =
      let custom_score = reranking_function r in
      record {
        result =
            rescored runtime (add (mul r.score original_weight) (mul custom_score custom_weight)) r;
        original_score = r.score;
        custom_score = custom_score;
      }

  unfoldable pub merged_score : MergeStrategy → Number → Number → Number
  merged_score by_max a b = larger a b
  merged_score by_avg a b = div (add a b) (of_int (pos 2))
  merged_score by_sum a b = lesser (add a b) (of_int (pos 1))

  abbrev pub merge_found :
      Bool
      → MergeStrategy
      → List (String × Result runtime)
      → Result runtime
      → Option (Result runtime)
      → List (String × Result runtime)
  merge_found deduplicate strategy m r none = insert r.id r m
  merge_found deduplicate strategy m r (some old) =
      if deduplicate
      then insert r.id (rescored runtime (merged_score strategy old.score r.score) old) m
      else m

  -- The loops over the results of all searches, on the map by ids.
  unfoldable pub merge_results :
      Bool
      → MergeStrategy
      → List (String × Result runtime)
      → List (Result runtime)
      → List (String × Result runtime)
  unfolding merged_score
  merge_results deduplicate strategy m [] = m
  merge_results deduplicate strategy m (r ∷ rs) =
      merge_results deduplicate strategy (merge_found deduplicate strategy m r (lookup r.id m)) rs

  abbrev strategy_of : Option MultiQueryOptions → MergeStrategy
  strategy_of none = by_max
  strategy_of (some o) = or_given o.merge_strategy by_max

  abbrev deduplicate_of : Option MultiQueryOptions → Bool
  deduplicate_of none = true
  deduplicate_of (some o) = or_given o.deduplicate_by_id true

  abbrev value_of : String × Result runtime → Result runtime
  value_of (id, r) = r

  abbrev pub other_than : String → Result runtime → Bool
  other_than id r = not (str_eq r.id id)

  -- `options` is given with every field, or with none.
  unfoldable pub without_original :
      SimilarOptions Filter → String → List (Result runtime) → List (Result runtime)
  unfolding filter take
  without_original options template_id results = take (or_number options.top_k default_top_k) (
      if or_given options.exclude_original true
      then filter (other_than template_id) results
      else results)

  module _ {X Embedding : Type 0} (services : Services runtime X Embedding) where
    abbrev begin : Action (State runtime services) ℕ
    begin = time runtime services

    abbrev ranked_since : {A : Type 0} → ℕ → ℕ → List A → Action (State runtime services) (Ranked A)
    ranked_since begun count results = do
      ended ← begin
      pure (record {
        results = results;
        semantic_results = count;
        search_time_ms = sub_nat ended begun;
      })

    unfoldable pub hybrid_search :
        Query runtime
        → List String
        → Option (HybridOptions Number)
        → Action (State runtime services) (Ranked (Boosted Number))
    unfolding rank_by_keywords
    hybrid_search query keywords options = do
      begun ← begin
      found ← search runtime services query
      ranked_since begun (length found.results) (rank_by_keywords options keywords found.results)

    unfoldable pub search_with_expansion :
        Query runtime → List String → Action (State runtime services) (SearchAnswer Number)
    search_with_expansion query expansion_terms = do
      begun ← begin
      found ← search runtime services (record query {
        query_text = concat query.query_text (concat " " (join " " expansion_terms));
      })
      ended ← begin
      pure (record found { search_time_ms = sub_nat ended begun; query_expanded = true })

    unfoldable pub search_with_reranking :
        Query runtime
        → (Result runtime → Number)
        → Option ℕ
        → Action (State runtime services) (Ranked (Reranked Number))
    unfolding rerank take
    search_with_reranking query reranking_function top_k = do
      begun ← begin
      found ←
          search runtime services
            (record query { top_k = some (or_number query.top_k default_top_k * 3) })
      ranked_since begun (length found.results) (
          take (or_number top_k (or_number query.top_k default_top_k)) (
            sort_falling (Reranked Number) (λ r. r.result.score)
              (map (rerank reranking_function) found.results)))

    unfoldable pub search_each :
        List (Query runtime) → Action (State runtime services) (List (Result runtime))
    search_each [] = pure []
    search_each (q ∷ qs) = do
      found ← search runtime services q
      rest ← search_each qs
      pure (found.results ++ rest)

    unfoldable pub multi_query_search :
        List (Query runtime)
        → Option MultiQueryOptions
        → Action (State runtime services) (Ranked (Result runtime))
    unfolding search_each merge_results
    multi_query_search queries options = do
      begun ← begin
      all_results ← search_each queries
      ranked_since begun (length all_results) (
          sort_falling (Result runtime) (λ r. r.score)
            (map value_of
              (merge_results (deduplicate_of options) (strategy_of options) [] all_results)))

    abbrev pub search_like :
        String
        → SimilarOptions Filter
        → ℕ
        → Option NotificationTemplate
        → Action (State runtime services) (Ranked (Result runtime))
    search_like template_id options begun none =
        throw (failure (concat "Template not found: " template_id))
    search_like template_id options begun (some original) = do
      found ← search runtime services (record {
        query_text = original.content;
        top_k = some (or_number options.top_k (default_top_k + 1));
        filter = options.filter;
        score_threshold = none;
      })
      ranked_since begun (length found.results) (without_original options template_id found.results)

    unfoldable pub find_similar :
        String → SimilarOptions Filter → Action (State runtime services) (Ranked (Result runtime))
    unfolding without_original
    find_similar template_id options = do
      begun ← begin
      original ← outside runtime services (services.get_template template_id)
      search_like template_id options begun original
