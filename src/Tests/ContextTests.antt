-- ===== src/Tests/ContextTests.antt =====
-- A context from three results, with whole numbers for the doubles.
use Prim.Native.String.{len}
use high_throughput_notifica.ContextAssembly.{
  Runtime, NotificationTemplate, VectorSearchResult, deduplicate_results, fit_to_context_window,
}
use high_throughput_notifica.ContextAssembly.Assembly.{
  AssembledContext, Defaults, Statistics, assemble_context,
}
use high_throughput_notifica.ContextAssembly.Budget.{Fitted, fit_to_context_window-Fitted}
use high_throughput_notifica.ContextAssembly.Deduplication.{Spread, deduplicate_results-Spread}
use high_throughput_notifica.ContextAssembly.Pipeline.{Selected, assemble_context-Selected}
use high_throughput_notifica.ContextAssembly.Selection.{SortKeeps, has_id, total_cost}
use high_throughput_notifica.Prelude.{
  Bool, List, String, [], count_by, decimal, false, leb, ltb, max, none, refl, ℕ, ◌*◌, ◌+◌, ◌-◌,
  ◌/◌, ◌∷◌, ◌≡◌, ◌≤◌,
}
use high_throughput_notifica.Prelude.Action.{Outcome, returned, threw}
use high_throughput_notifica.Prelude.Int.{pos}
use high_throughput_notifica.Retry.Breaker.{Clock}

abbrev runtime : Runtime
runtime = record {
  Number = ℕ;
  of_nat = λ n. n;
  add = λ a b. a + b;
  sub = λ a b. a - b;
  mul = λ a b. a * b;
  div = λ a b. a / b;
  ge = λ a b. leb b a;
  gt = λ a b. ltb b a;
  minus_infinity = 0;
  larger = λ a b. max a b;
  ceil = λ n. pos n;
  to_fixed_2 = decimal;
  length_of = len;
  words = λ t. t ∷ [];
  sort_by_score = λ l. l;
}

abbrev defaults : Defaults ℕ
defaults = record { min_relevance_score = 5; similarity_threshold = 1; diversity_weight = 1 }

abbrev pub template : String → NotificationTemplate
template content = record {
  content = content;
  channel = "email";
  category = "news";
  tone = "friendly";
  language = "en";
  tags = [];
}

abbrev results : List (VectorSearchResult ℕ)
results =
    record { id = "a"; score = 9; payload = template "welcome" }
    ∷ record { id = "b"; score = 2; payload = template "goodbye" }
    ∷ record { id = "c"; score = 8; payload = template "welcome" }
    ∷ []

abbrev now : Clock ℕ
now x = (x, x + 1)

abbrev begun : Statistics ℕ × ℕ
begun = (record { total_assemblies = 0; total_tokens_used = 0; avg_context_size = 0 }, 3)

abbrev assembled : Outcome (AssembledContext ℕ) × (Statistics ℕ × ℕ)
assembled = assemble_context runtime defaults now results "hi" none begun

abbrev context_in : Outcome (AssembledContext ℕ) → AssembledContext ℕ
context_in (returned c) = c
context_in (threw e) = record {
  prompt = "";
  context = [];
  metadata = record {
    total_results = 0;
    relevant_results = 0;
    deduplicated_results = 0;
    selected_results = 0;
    total_tokens = 0;
    max_tokens = 0;
    utilization_percent = 0;
    assembly_time_ms = pos 0;
    compressed = false;
  };
}

assembled_returns : assembled ≡ (returned (context_in assembled.0), assembled.1)
unfolding assemble_context
assembled_returns = refl

keeps : SortKeeps runtime
keeps = λ p l. refl

assemble_context-Selected_example :
    Selected runtime defaults results none (context_in assembled.0).context
    × ((context_in assembled.0).metadata.total_tokens
        ≡ total_cost runtime (context_in assembled.0).context)
    × (assembled.1.0.total_tokens_used ≡ 0 + total_cost runtime (context_in assembled.0).context)
assemble_context-Selected_example =
    assemble_context-Selected runtime defaults now keeps results "hi" none begun assembled.1
      (context_in assembled.0) assembled_returns

fit_to_context_window-Fitted_example :
    let (selected, total) = fit_to_context_window runtime results 30 in
    Fitted runtime 30 results selected total
fit_to_context_window-Fitted_example = fit_to_context_window-Fitted runtime results 30

deduplicate_results-Spread_example :
    ((id : String) → count_by (has_id runtime id) (deduplicate_results runtime results 1) ≤ 1)
    × Spread runtime 1 [] (deduplicate_results runtime results 1)
    × ((p : VectorSearchResult ℕ → Bool)
        → count_by p (deduplicate_results runtime results 1) ≤ count_by p results)
deduplicate_results-Spread_example = deduplicate_results-Spread runtime results 1
