-- ===== src/ContextAssembly/Assembly.antt =====
-- `assembleContext`, `getStats` and `resetStats` of
-- src/vector-db/services/context-assembly.service.ts. The time that an assembly takes is read from
-- the clock; the steps throw nothing.
use high_throughput_notifica.ContextAssembly.{Runtime}
use high_throughput_notifica.ContextAssembly.{
  AssemblyOptions, Result, VectorSearchResult, deduplicate_results, filter_by_relevance,
  fit_to_context_window, max_context_tokens, rank_with_diversity,
}
use high_throughput_notifica.ContextAssembly.Prompt.{assemble_prompt}
use high_throughput_notifica.Prelude.{
  Bool, List, Option, String, if◌then◌else◌, length, ltb, none, some, ℕ, ◌+◌, ◌-◌,
}
use high_throughput_notifica.Prelude.Action.{Action, returned}
use high_throughput_notifica.Prelude.Int.{sub_nat, ℤ}
use high_throughput_notifica.Retry.Breaker.{Clock}

pub record Statistics (Number : Type 0) : Type 0 where
  pub total_assemblies : ℕ
  pub total_tokens_used : ℕ
  pub avg_context_size : Number

pub record AssemblyMetadata (Number : Type 0) : Type 0 where
  pub total_results : ℕ
  pub relevant_results : ℕ
  pub deduplicated_results : ℕ
  pub selected_results : ℕ
  pub total_tokens : ℕ
  pub max_tokens : ℕ
  pub utilization_percent : Number
  pub assembly_time_ms : ℤ
  pub compressed : Bool

pub record AssembledContext (Number : Type 0) : Type 0 where
  pub prompt : String
  pub context : List (VectorSearchResult Number)
  pub metadata : AssemblyMetadata Number

pub record AssemblyStats (Number : Type 0) : Type 0 where
  pub total_assemblies : ℕ
  pub total_tokens_used : ℕ
  pub avg_context_size : Number
  pub avg_tokens_per_assembly : Number

-- The doubles 0.5, 0.95 and 0.3 of the source.
pub record Defaults (Number : Type 0) : Type 0 where
  pub min_relevance_score : Number
  pub similarity_threshold : Number
  pub diversity_weight : Number

-- `a ?? b`
abbrev pub or_else {ℓ} : {A : Type ℓ} → Option A → A → A
or_else none d = d
or_else (some a) d = a

module _ (runtime : Runtime) (defaults : Defaults runtime.Number) where
  open runtime use {Number, of_nat, add, mul, div}

  abbrev pub option_of {ℓ} :
      {A : Type ℓ}
      → Option (AssemblyOptions Number)
      → (AssemblyOptions Number → Option A)
      → Option A
  option_of none field = none
  option_of (some o) field = field o

  -- The steps from the results to the ranked list.
  abbrev pub relevant :
      List (Result runtime) → Option (AssemblyOptions Number) → List (Result runtime)
  relevant results options =
      filter_by_relevance runtime results
        (or_else (option_of options (λ o. o.min_score)) defaults.min_relevance_score)

  abbrev pub deduplicated :
      List (Result runtime) → Option (AssemblyOptions Number) → List (Result runtime)
  deduplicated results options =
      deduplicate_results runtime (relevant results options)
        (or_else (option_of options (λ o. o.similarity_threshold)) defaults.similarity_threshold)

  abbrev pub ranked :
      List (Result runtime) → Option (AssemblyOptions Number) → List (Result runtime)
  ranked results options =
      rank_with_diversity runtime (deduplicated results options)
        (or_else (option_of options (λ o. o.diversity_weight)) defaults.diversity_weight)

  abbrev pub budget : Option (AssemblyOptions Number) → ℕ
  budget options = or_else (option_of options (λ o. o.max_tokens)) max_context_tokens

  module _ {X : Type 0} (now : Clock X) where
    unfoldable pub assemble_context :
        List (Result runtime)
        → String
        → Option (AssemblyOptions Number)
        → Action (Statistics Number × X) (AssembledContext Number)
    assemble_context results user_query options (stats, x) =
        let (begun, x₁) = now x in
        let count = stats.total_assemblies + 1 in
        let (selected, total) =
          fit_to_context_window runtime (ranked results options) (budget options) in
        let prompt =
          assemble_prompt runtime user_query selected (option_of options (λ o. o.system_prompt)) in
        let (ended, x₂) = now x₁ in
        (
          returned (record {
            prompt = prompt;
            context = selected;
            metadata = record {
              total_results = length results;
              relevant_results = length (relevant results options);
              deduplicated_results = length (deduplicated results options);
              selected_results = length selected;
              total_tokens = total;
              max_tokens = budget options;
              utilization_percent = mul (div (of_nat total) (of_nat (budget options))) (of_nat 100);
              assembly_time_ms = sub_nat ended begun;
              compressed =
                  ltb (length (deduplicated results options)) (length (relevant results options));
            };
          }),
          (
            record {
              total_assemblies = count;
              total_tokens_used = stats.total_tokens_used + total;
              avg_context_size =
                  div
                    (add (mul stats.avg_context_size (of_nat (count - 1)))
                      (of_nat (length selected)))
                    (of_nat count);
            },
            x₂,
          ),
        )

  unfoldable pub get_stats : Statistics Number → AssemblyStats Number
  get_stats s = record {
    total_assemblies = s.total_assemblies;
    total_tokens_used = s.total_tokens_used;
    avg_context_size = s.avg_context_size;
    avg_tokens_per_assembly =
        if ltb 0 s.total_assemblies
        then div (of_nat s.total_tokens_used) (of_nat s.total_assemblies)
        else of_nat 0;
  }

  unfoldable pub reset_stats : Statistics Number → Statistics Number
  reset_stats s = record {
    total_assemblies = 0;
    total_tokens_used = 0;
    avg_context_size = of_nat 0;
  }
