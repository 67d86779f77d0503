-- ===== src/Tests/CostTests.antt =====
-- Three requests to two models, with whole numbers for the doubles.
use high_throughput_notifica.CostTracking.{Figures}
use high_throughput_notifica.CostTracking.{
  LlmMetrics, count_models, inherited_text, is_inherited, number_entry, text_entry,
  get_error_breakdown, get_requests_by_model, max_metrics_in_memory,
}
use high_throughput_notifica.CostTracking.Breakdown.{breakdown-count_by}
use high_throughput_notifica.CostTracking.Window.{track_all, track_all-last}
use high_throughput_notifica.Prelude.{
  decimal, insert, lookup, ◌==◌, List, Option, String, [], count_by, drop, none, not, refl, some,
  truthy, ℕ, ◌*◌, ◌+◌, ◌-◌, ◌/◌, ◌∷◌, ◌≡◌,
}

abbrev figures : Figures
figures = record {
  Number = ℕ;
  of_nat = λ n. n;
  add = λ a b. a + b;
  div = λ a b. a / b;
  falsy = λ n. n == 0;
  text_of = decimal;
  part = λ n p. n * p / 100;
  sort_rising = λ l. l;
}

abbrev request : String → Option String → LlmMetrics ℕ
request model error_code = record {
  request_id = "r";
  model = model;
  latency_ms = 20;
  token_usage = record {
    input_tokens = some 4;
    output_tokens = none;
    prompt_tokens = none;
    completion_tokens = some 3;
    total_tokens = 7;
  };
  cost = 1;
  success = not (truthy error_code);
  error_code = error_code;
  timestamp = 5;
}

abbrev requests : List (LlmMetrics ℕ)
requests = request "small" none ∷ request "large" (some "timeout") ∷ request "small" none ∷ []

breakdown-count_by_example :
    (lookup "small" (get_requests_by_model figures requests) ≡ some (number_entry 2))
    × (lookup "timeout" (get_error_breakdown figures requests) ≡ some (number_entry 1))
unfolding count_by is_inherited
breakdown-count_by_example = breakdown-count_by figures "small" "timeout" requests refl refl refl

-- Names of Object.prototype are no keys that can be counted under.
inherited_runs :
    (lookup "toString" (get_requests_by_model figures (request "toString" none ∷ []))
      ≡ some (text_entry "function toString() { [native code] }1"))
    × (get_requests_by_model figures (request "__proto__" none ∷ []) ≡ [])
unfolding get_requests_by_model count_models is_inherited inherited_text insert lookup
inherited_runs = (refl, refl)

track_all-last_example : track_all figures [] requests ≡ drop (3 - max_metrics_in_memory) requests
track_all-last_example = track_all-last figures requests
