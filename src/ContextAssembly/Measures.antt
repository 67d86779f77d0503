-- ===== src/ContextAssembly/Measures.antt =====
-- `compressContext`, `calculateContextDiversity` and `calculateContextCoverage` of
-- src/vector-db/services/context-assembly.service.ts.
use high_throughput_notifica.Prelude.{take}
use high_throughput_notifica.ContextAssembly.{Runtime}
use high_throughput_notifica.ContextAssembly.{
  Result, calculate_content_similarity, rank_with_diversity, set_from,
}
use high_throughput_notifica.Prelude.{
  List, String, [], if◌then◌else◌, leb, length, map, ℕ, ◌++◌, ◌+◌, ◌-◌, ◌∷◌,
}
use high_throughput_notifica.Prelude.Int.{negsuc, pos, ℤ}

pub record ContextCoverage : Type 0 where
  pub channels : ℕ
  pub categories : ℕ
  pub tones : ℕ
  pub languages : ℕ
  pub unique_tags : ℕ
  pub total_templates : ℕ

module _ (runtime : Runtime) where
  open runtime use {Number, of_nat, add, sub, mul, div, ge, ceil}

  -- `results.slice(0, count)`: a negative count leaves out that many at the end.
  abbrev slice_to : ℤ → List (Result runtime) → List (Result runtime)
  slice_to (pos n) l = take n l
  slice_to (negsuc n) l = take (length l - (n + 1)) l

  -- `target_reduction <= 0` and the weight 0.5 are given as doubles.
  unfoldable pub compress_context : Number → List (Result runtime) → Number → List (Result runtime)
  unfolding rank_with_diversity
  compress_context half [] target_reduction = []
  compress_context half (r ∷ rs) target_reduction =
      if ge (of_nat 0) target_reduction
      then r ∷ rs
      else slice_to (ceil (mul (of_nat (length (r ∷ rs))) (sub (of_nat 1) target_reduction)))
          (rank_with_diversity runtime (r ∷ rs) half)

  -- The inner loop of `calculateContextDiversity`: the sum and the number of comparisons.
  unfoldable pub compare_with : Result runtime → List (Result runtime) → Number × ℕ → Number × ℕ
  compare_with r [] s = s
  compare_with r (q ∷ qs) (total, comparisons) = compare_with r qs (
    add total (calculate_content_similarity runtime r.payload.content q.payload.content),
    comparisons + 1,
  )

  unfoldable pub compare_all : List (Result runtime) → Number × ℕ → Number × ℕ
  unfolding compare_with
  compare_all [] s = s
  compare_all (r ∷ rs) s = compare_all rs (compare_with r rs s)

  unfoldable pub calculate_context_diversity : List (Result runtime) → Number
  unfolding compare_all
  calculate_context_diversity results =
      let (total, comparisons) = compare_all results (of_nat 0, 0) in
      if leb (length results) 1 then of_nat 1 else sub (of_nat 1) (div total (of_nat comparisons))

  abbrev all_tags : List (Result runtime) → List String
  all_tags [] = []
  all_tags (r ∷ rs) = r.payload.tags ++ all_tags rs

  unfoldable pub calculate_context_coverage : List (Result runtime) → ContextCoverage
  unfolding set_from
  calculate_context_coverage results = record {
    channels = length (set_from [] (map (λ r. r.payload.channel) results));
    categories = length (set_from [] (map (λ r. r.payload.category) results));
    tones = length (set_from [] (map (λ r. r.payload.tone) results));
    languages = length (set_from [] (map (λ r. r.payload.language) results));
    unique_tags = length (set_from [] (all_tags results));
    total_templates = length results;
  }
