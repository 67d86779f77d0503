-- ===== src/ContextAssembly.antt =====
-- src/vector-db/services/context-assembly.service.ts: which search results go into a prompt, and
-- the prompt. The doubles, the methods of strings, Array.prototype.sort and Date.now() are
-- parameters; a set of strings is the list of its members in the order of insertion.
pub mod Prompt
pub mod Measures
pub mod Assembly
pub mod Selection
pub mod Deduplication
pub mod Budget
pub mod Pipeline
use high_throughput_notifica.Prelude.{
  take, or_text, Bool, List, Option, String, [], any, if◌then◌else◌, includes, leb, length, ltb,
  suc, zero, ℕ, ◌++◌, ◌+◌, ◌/◌, ◌==◌, ◌∷◌,
}
use high_throughput_notifica.Prelude.Int.{ℤ}
use high_throughput_notifica.Kafka.Schema.{notification}
use high_throughput_notifica.Prelude.{concat, decimal, join, map, none, some, ◌-◌}
use high_throughput_notifica.Prelude.Int.{negsuc, pos}

pub record NotificationTemplate : Type 0 where
  pub content : String
  pub channel : String
  pub category : String
  pub tone : String
  pub language : String
  pub tags : List String

pub record VectorSearchResult (Number : Type 0) : Type 0 where
  pub id : String
  pub score : Number
  pub payload : NotificationTemplate

-- `length_of` counts UTF-16 units, `words` is `toLowerCase().split(/\s+/)`, and `sort_by_score`
-- sorts by falling score.
pub record Runtime : Type 1 where
  pub Number : Type 0
  pub of_nat : ℕ → Number
  pub add : Number → Number → Number
  pub sub : Number → Number → Number
  pub mul : Number → Number → Number
  pub div : Number → Number → Number
  pub ge : Number → Number → Bool
  pub gt : Number → Number → Bool
  pub minus_infinity : Number
  pub larger : Number → Number → Number
  pub ceil : Number → ℤ
  pub to_fixed_2 : Number → String
  pub length_of : String → ℕ
  pub words : String → List String
  pub sort_by_score : List (VectorSearchResult Number) → List (VectorSearchResult Number)

-- `new Set(texts)`, after the texts that `seen` holds.
unfoldable pub set_from : List String → List String → List String
set_from seen [] = seen
set_from seen (t ∷ ts) = set_from (if includes seen t then seen else seen ++ t ∷ []) ts

-- The members of a list that the test holds for.
unfoldable pub filter {ℓ} : {A : Type ℓ} → (A → Bool) → List A → List A
filter p [] = []
filter p (x ∷ xs) = let rest = filter p xs in if p x then x ∷ rest else rest

pub record AssemblyOptions (Number : Type 0) : Type 0 where
  pub max_tokens : Option ℕ
  pub min_score : Option Number
  pub diversity_weight : Option Number
  pub similarity_threshold : Option Number
  pub system_prompt : Option String

abbrev pub max_context_tokens : ℕ
max_context_tokens = 8000

module _ (runtime : Runtime) where
  open runtime use {
    Number, of_nat, add, sub, mul, div, ge, gt, minus_infinity, larger, ceil, to_fixed_2, length_of,
    words, sort_by_score,
  }

  abbrev pub Result : Type 0
  Result = VectorSearchResult Number

  unfoldable pub filter_by_relevance : List Result → Number → List Result
  filter_by_relevance results min_score = filter (λ r. ge r.score min_score) results

  abbrev token_set : String → List String
  token_set content = set_from [] (filter (λ t. ltb 2 (length_of t)) (words content))

  -- The Jaccard index of the words.
  unfoldable pub calculate_content_similarity : String → String → Number
  unfolding set_from filter
  calculate_content_similarity content1 content2 =
      let tokens1 = token_set content1 in
      let tokens2 = token_set content2 in
      let intersection = set_from [] (filter (λ t. includes tokens2 t) tokens1) in
      let union = set_from [] (tokens1 ++ tokens2) in
      if length union == 0
      then of_nat 0
      else div (of_nat (length intersection)) (of_nat (length union))

  abbrev pub similar : Number → Result → Result → Bool
  similar threshold result existing =
      ge (calculate_content_similarity result.payload.content existing.payload.content) threshold

  -- The loop over the results: `kept` is `deduplicated`, and `seen` the ids in it.
  unfoldable pub deduplicate_loop : Number → List Result → List String → List Result → List Result
  deduplicate_loop threshold kept seen [] = kept
  deduplicate_loop threshold kept seen (r ∷ rs) =
      let skipped = deduplicate_loop threshold kept seen rs in
      let added = deduplicate_loop threshold (kept ++ r ∷ []) (seen ++ r.id ∷ []) rs in
      if includes seen r.id
      then skipped
      else if any (similar threshold r) kept
      then skipped
      else added

  unfoldable pub deduplicate_results : List Result → Number → List Result
  unfolding deduplicate_loop
  deduplicate_results results threshold = deduplicate_loop threshold [] [] results

  -- The largest similarity to a result that was selected before, and at least 0.
  unfoldable pub max_similarity : Result → Number → List Result → Number
  max_similarity candidate found [] = found
  max_similarity candidate found (s ∷ ranked) =
      max_similarity candidate
        (larger found (calculate_content_similarity candidate.payload.content s.payload.content))
        ranked

  unfoldable pub mmr : Number → List Result → Result → Number
  unfolding max_similarity
  mmr weight ranked candidate =
      sub (mul (sub (of_nat 1) weight) candidate.score)
        (mul weight (max_similarity candidate (of_nat 0) ranked))

  -- The loop over the candidates from the index on: the index of the first one with the largest
  -- score, where `best` and `index_of_best` are what was found before.
  unfoldable pub best_index : Number → List Result → List Result → ℕ → Number → ℕ → ℕ
  best_index weight ranked [] i best index_of_best = index_of_best
  best_index weight ranked (c ∷ cs) i best index_of_best =
      let score = mmr weight ranked c in
      let better = gt score best in
      best_index weight ranked cs (i + 1) (if better then score else best)
        (if better then i else index_of_best)

  -- `remaining.splice(index, 1)` on a list with a first element: what is taken out, and the rest.
  unfoldable pub splice : ℕ → Result → List Result → Result × List Result
  splice zero r rs = (r, rs)
  splice (suc i) r [] = (r, [])
  splice (suc i) r (s ∷ rs) = let (taken, rest) = splice i s rs in (taken, r ∷ rest)

  -- The `while` loop, on the number of rounds left.
  unfoldable pub rank_remaining : ℕ → Number → List Result → List Result → List Result
  rank_remaining zero weight ranked remaining = ranked
  rank_remaining (suc n) weight ranked [] = ranked
  rank_remaining (suc n) weight ranked (r ∷ rs) =
      let (taken, rest) = splice (best_index weight ranked (r ∷ rs) 0 minus_infinity 0) r rs in
      rank_remaining n weight (ranked ++ taken ∷ []) rest

  abbrev rank_sorted : Number → List Result → List Result
  rank_sorted weight [] = []
  rank_sorted weight (first ∷ remaining) =
      rank_remaining (length remaining) weight (first ∷ []) remaining

  unfoldable pub rank_with_diversity : List Result → Number → List Result
  unfolding rank_remaining
  rank_with_diversity results weight =
      if leb (length results) 1 then results else rank_sorted weight (sort_by_score results)

  -- `Math.ceil(text.length * 0.25)`, which is exact.
  unfoldable pub estimate_tokens : String → ℕ
  estimate_tokens text = (length_of text + 3) / 4

  -- A result with 10 tokens for its formatting.
  abbrev pub cost : Result → ℕ
  cost r = estimate_tokens r.payload.content + 10

  -- The loop up to its `break`.
  unfoldable pub fit_loop : ℕ → List Result → ℕ → List Result → List Result × ℕ
  fit_loop max_tokens selected total [] = (selected, total)
  fit_loop max_tokens selected total (r ∷ rs) =
      let more = fit_loop max_tokens (selected ++ r ∷ []) (total + cost r) rs in
      if ltb max_tokens (total + cost r) then (selected, total) else more

  unfoldable pub fit_to_context_window : List Result → ℕ → List Result × ℕ
  unfolding fit_loop
  fit_to_context_window results max_tokens = fit_loop max_tokens [] 0 results
