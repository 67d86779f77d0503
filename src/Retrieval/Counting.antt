-- ===== src/Retrieval/Counting.antt =====
-- The counters of src/vector-db/services/retrieval.service.ts, whatever the services answer.
use high_throughput_notifica.Prelude.{Bool, List, arith, ℕ, ◌+◌, ◌≡◌}
use high_throughput_notifica.Retrieval.{
  Query, Result, Runtime, Services, State, answer, search, search_anew, update_avg_search_time,
}
use high_throughput_notifica.Cache.Laws.{get_returns}
use high_throughput_notifica.Prelude.{Option, String, none, some}
use high_throughput_notifica.Retrieval.{
  cached_results, get_search_cache_key, reset_stats, search_from,
}
use high_throughput_notifica.Retrieval.Ranking.{
  search_like, HybridOptions, MultiQueryOptions, SimilarOptions, find_similar, hybrid_search,
  multi_query_search, search_with_expansion, search_with_reranking,
}
use high_throughput_notifica.Cache
use high_throughput_notifica.ContextAssembly.{NotificationTemplate}
use high_throughput_notifica.Prelude.{[], refl, ◌∷◌}
use high_throughput_notifica.Prelude.Action.{Action, Outcome, proceed, returned, threw}
use high_throughput_notifica.Retrieval.{SearchAnswer}
use high_throughput_notifica.Retrieval.Ranking.{search_like, search_each}

module _ (runtime : Runtime) {X Embedding : Type 0} (services : Services runtime X Embedding) where
  -- Every search was a hit or a miss.
  abbrev pub Tallied : State runtime services → Type 0
  Tallied s = s.total_searches ≡ s.cache_hits + s.cache_misses

  answer-Tallied :
      (begun : ℕ) (cached : Bool) (results : List (Result runtime)) (s : State runtime services)
      → Tallied s
      → Tallied (answer runtime services begun cached results s).1
  unfolding update_avg_search_time
  answer-Tallied begun cached results s h = h

  search_anew-Tallied :
      (q : Query runtime) (begun : ℕ) (s : State runtime services)
      → s.total_searches ≡ s.cache_hits + s.cache_misses + 1
      → Tallied (search_anew runtime services q begun s).1
  unfolding search_anew update_avg_search_time
  search_anew-Tallied q begun s h = ground arith

  search_from-Tallied :
      (q : Query runtime) (begun : ℕ) (found : Option (List (Result runtime)))
      (s : State runtime services)
      → s.total_searches ≡ s.cache_hits + s.cache_misses + 1
      → Tallied (search_from runtime services q begun found s).1
  unfolding update_avg_search_time
  search_from-Tallied q begun none s h = search_anew-Tallied q begun s h
  search_from-Tallied q begun (some l) s h = omega (arith, h)

  search-Tallied :
      (q : Query runtime) (s : State runtime services)
      → Tallied s
      → Tallied (search runtime services q s).1
  unfolding search
  search-Tallied q s h =
      let x : X = (services.now s.world).1 in
      let begun : ℕ = (services.now s.world).0 in
      let key : String = get_search_cache_key runtime q in
      let (o, e) = get_returns services.redis key none x in
      let read : State runtime services = record s {
        total_searches = s.total_searches + 1;
        world = (Cache.get services.redis key none x).1;
      } in
      let after_read =
        search_from-Tallied q begun (cached_results runtime services o) read (omega (arith, h)) in
      rw e after_read

  -- A block keeps the counters tallied if its first action does and so does the rest.
  proceed-Tallied :
      {A B : Type 0} (f : A → Action (State runtime services) B) (r : Outcome A)
      (s : State runtime services)
      → Tallied s
      → ((a : A) (t : State runtime services) → Tallied t → Tallied (f a t).1)
      → Tallied (proceed f r s).1
  proceed-Tallied f (returned a) s h k = k a s h
  proceed-Tallied f (threw e) s h k = h

  then_search-Tallied :
      {B : Type 0} (f : SearchAnswer runtime.Number → Action (State runtime services) B)
      (q : Query runtime) (s : State runtime services)
      → Tallied s
      → ((a : SearchAnswer runtime.Number) (t : State runtime services)
          → Tallied t
          → Tallied (f a t).1)
      → Tallied (proceed f (search runtime services q s).0 (search runtime services q s).1).1
  then_search-Tallied f q s h k =
      proceed-Tallied f (search runtime services q s).0 (search runtime services q s).1
        (search-Tallied q s h) k

  search_each-Tallied :
      (qs : List (Query runtime)) (s : State runtime services)
      → Tallied s
      → Tallied (search_each runtime services qs s).1
  unfolding search_each
  search_each-Tallied [] s h = h
  search_each-Tallied (q ∷ qs) s h = then_search-Tallied _ q s h (λ a t k.
      proceed-Tallied _ (search_each runtime services qs t).0 (search_each runtime services qs t).1
        (search_each-Tallied qs t k) (λ b u l. l))

  -- A call of the service, whatever its outcome.
  pub data Call (s : State runtime services) : State runtime services → Type 0 where
    searches : (q : Query runtime) → Call s (search runtime services q s).1
    searches_hybrid :
        (q : Query runtime) (keywords : List String) (o : Option (HybridOptions runtime.Number))
        → Call s (hybrid_search runtime services q keywords o s).1
    searches_expanded :
        (q : Query runtime) (terms : List String)
        → Call s (search_with_expansion runtime services q terms s).1
    searches_reranked :
        (q : Query runtime) (f : Result runtime → runtime.Number) (k : Option ℕ)
        → Call s (search_with_reranking runtime services q f k s).1
    searches_multiple :
        (qs : List (Query runtime)) (o : Option MultiQueryOptions)
        → Call s (multi_query_search runtime services qs o s).1
    finds_similar :
        (id : String) (o : SimilarOptions runtime.Filter)
        → Call s (find_similar runtime services id o s).1
    resets : Call s (reset_stats runtime services s)

  search_like-Tallied :
      (id : String) (o : SimilarOptions runtime.Filter) (begun : ℕ)
      (original : Option NotificationTemplate) (s : State runtime services)
      → Tallied s
      → Tallied (search_like runtime services id o begun original s).1
  search_like-Tallied id o begun none s h = h
  search_like-Tallied id o begun (some t) s h = then_search-Tallied _ _ s h (λ a u k. k)

  Call-Tallied : (s s' : State runtime services) → Call s s' → Tallied s → Tallied s'
  unfolding hybrid_search search_with_expansion search_with_reranking multi_query_search
      find_similar reset_stats
  Call-Tallied s s' (searches q) h = search-Tallied q s h
  Call-Tallied s s' (searches_hybrid q keywords o) h = then_search-Tallied _ q _ h (λ a t k. k)
  Call-Tallied s s' (searches_expanded q terms) h = then_search-Tallied _ _ _ h (λ a t k. k)
  Call-Tallied s s' (searches_reranked q f n) h = then_search-Tallied _ _ _ h (λ a t k. k)
  Call-Tallied s s' (searches_multiple qs o) h =
      let t : State runtime services = record s { world = (services.now s.world).1 } in
      proceed-Tallied _ (search_each runtime services qs t).0 (search_each runtime services qs t).1
        (search_each-Tallied qs t h) (λ b u k. k)
  Call-Tallied s s' (finds_similar id o) h =
      let x : X = (services.now s.world).1 in
      proceed-Tallied _ (services.get_template id x).0
        (record s { world = (services.get_template id x).1 }) h
        (λ original t k. search_like-Tallied id o (services.now s.world).0 original t k)
  Call-Tallied s s' resets h = refl

  -- The states that calls can lead to from the service's first one.
  pub data Served : State runtime services → Type 0 where
    fresh : (s : State runtime services) → Served (reset_stats runtime services s)
    served : {s s' : State runtime services} → Served s → Call s s' → Served s'

  -- Whatever searches of any kind were made since the start, and whatever the cache, Qdrant and the
  -- embeddings answered, every search was counted as a hit or as a miss, and none as both.
  pub Served-Tallied : {s : State runtime services} → Served s → Tallied s
  unfolding reset_stats
  Served-Tallied (fresh s) = refl
  Served-Tallied (served {s} {s'} v c) = Call-Tallied s s' c (Served-Tallied v)
