-- ===== src/ContextAssembly/Pipeline.antt =====
-- What `assembleContext` promises of the context that it returns.
use high_throughput_notifica.ContextAssembly.{Runtime}
use mathlib.Core.Path.{subst}
use high_throughput_notifica.ContextAssembly.{AssemblyOptions, Result}
use high_throughput_notifica.ContextAssembly.Assembly.{
  AssembledContext, Defaults, Statistics, assemble_context, budget, deduplicated, option_of,
  or_else, ranked,
}
use high_throughput_notifica.ContextAssembly.Selection.{
  SortKeeps, count_by-rank_with_diversity, has_id, total_cost,
}
use high_throughput_notifica.Prelude.{Bool, List, Option, String, count_by, not, ◌+◌, ◌≡◌, ◌≤◌}
use high_throughput_notifica.Prelude.Action.{returned}
use high_throughput_notifica.Retry.Breaker.{Clock}
use high_throughput_notifica.ContextAssembly.{filter_by_relevance, fit_to_context_window}
use high_throughput_notifica.ContextAssembly.Assembly.{relevant}
use high_throughput_notifica.ContextAssembly.Budget.{fit_to_context_window-Fitted}
use high_throughput_notifica.ContextAssembly.Deduplication.{deduplicate_results-Spread}
use high_throughput_notifica.ContextAssembly.Selection.{count_by-filter}
use high_throughput_notifica.Prelude.{ap, arith, count_by-append}

module _ (runtime : Runtime) (defaults : Defaults runtime.Number) where
  open runtime use {Number, ge}

  -- The score that a result has to reach.
  abbrev pub threshold : Option (AssemblyOptions Number) → Number
  threshold options =
      or_else (option_of runtime defaults options (λ o. o.min_score)) defaults.min_relevance_score

  -- A context that was selected from the results: it holds no result more often than they do, none
  -- below the threshold, no id twice, and its tokens are within the budget.
  pub record Selected (results : List (Result runtime)) (options : Option (AssemblyOptions Number))
      (context : List (Result runtime)) : Type 0 where
    pub from_results : (p : Result runtime → Bool) → count_by p context ≤ count_by p results
    pub relevant_only : count_by (λ r. not (ge r.score (threshold options))) context ≡ 0
    pub once : (id : String) → count_by (has_id runtime id) context ≤ 1
    pub within : total_cost runtime context ≤ budget runtime defaults options

  module _ {X : Type 0} (now : Clock X) (keeps : SortKeeps runtime) where
    count_by-ranked :
        (results : List (Result runtime)) (options : Option (AssemblyOptions Number))
        (p : Result runtime → Bool)
        → count_by p (ranked runtime defaults results options)
          ≡ count_by p (deduplicated runtime defaults results options)
    count_by-ranked results options p =
        count_by-rank_with_diversity runtime p (deduplicated runtime defaults results options)
          (or_else (option_of runtime defaults options (λ o. o.diversity_weight))
            defaults.diversity_weight)
          keeps

    count_by-selected :
        (results : List (Result runtime)) (options : Option (AssemblyOptions Number))
        (p : Result runtime → Bool)
        → let (selected, total) =
            fit_to_context_window runtime
              (ranked runtime defaults results options)
              (budget runtime defaults options) in
          count_by p selected ≤ count_by p (deduplicated runtime defaults results options)
    count_by-selected results options p =
        let fitted =
          fit_to_context_window-Fitted runtime (ranked runtime defaults results options)
            (budget runtime defaults options) in
        let (selected, total) =
          fit_to_context_window runtime (ranked runtime defaults results options)
            (budget runtime defaults options) in
        omega (
          arith,
          count_by-ranked results options p,
          count_by-append p selected fitted.left,
          ap (count_by p) fitted.split,
        )

    window-Selected :
        (results : List (Result runtime)) (options : Option (AssemblyOptions Number))
        → let (selected, total) =
            fit_to_context_window runtime
              (ranked runtime defaults results options)
              (budget runtime defaults options) in
          Selected results options selected
    unfolding filter_by_relevance
    window-Selected results options =
        let fitted =
          fit_to_context_window-Fitted runtime (ranked runtime defaults results options)
            (budget runtime defaults options) in
        let least : Number = threshold options in
        let (once, spread, fewer) =
          deduplicate_results-Spread runtime (relevant runtime defaults results options) (
            or_else (option_of runtime defaults options (λ o. o.similarity_threshold))
              defaults.similarity_threshold) in
        let relevant_part =
          λ (p : Result runtime → Bool). count_by-filter (λ r. ge r.score least) p results in
        record {
          from_results =
              λ p. omega (arith, count_by-selected results options p, fewer p, (relevant_part p).0);
          relevant_only =
              let bad : Result runtime → Bool = λ r. not (ge r.score least) in
              omega (
                arith,
                count_by-selected results options bad,
                fewer bad,
                (relevant_part bad).1 (λ r h. ground (arith, h)),
              );
          once =
              λ id. omega (arith, count_by-selected results options (has_id runtime id), once id);
          within = omega (arith, fitted.summed, fitted.within);
        }

    -- Every context that `assembleContext` returns is selected from the results; the tokens that it
    -- reports are those of the context; and they are added to the service's total.
    pub assemble_context-Selected :
        (results : List (Result runtime)) (user_query : String)
        (options : Option (AssemblyOptions Number)) (s s' : Statistics Number × X)
        (out : AssembledContext Number)
        → assemble_context runtime defaults now results user_query options s ≡ (returned out, s')
        → Selected results options out.context
          × (out.metadata.total_tokens ≡ total_cost runtime out.context)
          × (s'.0.total_tokens_used ≡ s.0.total_tokens_used + total_cost runtime out.context)
    unfolding assemble_context
    assemble_context-Selected results user_query options s s' out h =
        let (selected, total) =
          fit_to_context_window runtime (ranked runtime defaults results options)
            (budget runtime defaults options) in
        let fitted =
          fit_to_context_window-Fitted runtime (ranked runtime defaults results options)
            (budget runtime defaults options) in
        let same : selected ≡ out.context = ground arith in
        (
          subst (λ (l : List (Result runtime)). Selected results options l) same
              (window-Selected results options),
          ground (arith, same, fitted.summed),
          ground (arith, same, fitted.summed),
        )
