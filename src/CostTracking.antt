-- ===== src/CostTracking.antt =====
-- src/ai/services/cost-tracking.service.ts: the last requests to language models and their figures.
-- Doubles, the sort of the latencies and the rounded indices of the percentiles are parameters. Dates
-- are their times in milliseconds.
pub mod Window
pub mod Breakdown
use high_throughput_notifica.ContextAssembly.{filter}
use high_throughput_notifica.Prelude.{
  Bool, List, Option, String, [], all, drop, get_elem?, if◌then◌else◌, insert, leb, length, lookup,
  ltb, map, none, not, slice_last, some, true, truthy, truthy_text, str_eq, concat, includes, ℕ,
  ◌&&◌, ◌++◌, ◌+◌, ◌∷◌,
}

pub record TokenUsage : Type 0 where
  pub input_tokens : Option ℕ
  pub output_tokens : Option ℕ
  pub prompt_tokens : Option ℕ
  pub completion_tokens : Option ℕ
  pub total_tokens : ℕ

pub record LlmMetrics (Number : Type 0) : Type 0 where
  pub request_id : String
  pub model : String
  pub latency_ms : ℕ
  pub token_usage : TokenUsage
  pub cost : Number
  pub success : Bool
  pub error_code : Option String
  pub timestamp : ℕ

-- What `getTotalTokenUsage` returns.
pub record TokenTotals : Type 0 where
  pub input_tokens : ℕ
  pub output_tokens : ℕ
  pub total_tokens : ℕ

pub record CostStatistics (Number : Type 0) : Type 0 where
  pub total_requests : ℕ
  pub successful_requests : ℕ
  pub failed_requests : ℕ
  pub success_rate : Number
  pub total_cost : Number
  pub average_cost : Number
  pub total_tokens : ℕ
  pub average_tokens : Number
  pub average_latency : Number
  pub p50_latency : ℕ
  pub p95_latency : ℕ
  pub p99_latency : ℕ

abbrev pub max_metrics_in_memory : ℕ
max_metrics_in_memory = 10000

-- `part n p` is `Math.floor(n * (p / 100))` for p = 50, 95 and 99; 0 and NaN are falsy; and `text_of`
-- is how a number is written behind a text.
pub record Figures : Type 1 where
  pub Number : Type 0
  pub of_nat : ℕ → Number
  pub add : Number → Number → Number
  pub div : Number → Number → Number
  pub falsy : Number → Bool
  pub text_of : Number → String
  pub part : ℕ → ℕ → ℕ
  pub sort_rising : List ℕ → List ℕ

-- `a ?? b ?? 0`
abbrev first_of : Option ℕ → Option ℕ → ℕ
first_of (some a) b = a
first_of none (some b) = b
first_of none none = 0

-- `list[index] ?? 0`
abbrev at_or_zero : List ℕ → ℕ → ℕ
at_or_zero l i = elim (get_elem? l i) [ none ↦ 0 | some n ↦ n ]

-- What stands under a key of the object that a breakdown is reduced into: a number, or the text that
-- comes of adding a number to an inherited function.
pub data Entry (N : Type 0) : Type 0 where
  number_entry : N → Entry N
  text_entry : String → Entry N

-- The object's own keys; `{}` has none.
abbrev pub Entries : Type 0 → Type 0
Entries N = List (String × Entry N)

-- The keys that `{}` inherits from Object.prototype.
abbrev inherited_keys : List String
inherited_keys =
    "__proto__" ∷ "constructor" ∷ "__defineGetter__" ∷ "__defineSetter__" ∷ "hasOwnProperty"
    ∷ "__lookupGetter__" ∷ "__lookupSetter__" ∷ "isPrototypeOf" ∷ "propertyIsEnumerable"
    ∷ "toString" ∷ "valueOf" ∷ "toLocaleString" ∷ []

unfoldable pub is_inherited : String → Bool
is_inherited key = includes inherited_keys key

-- What is inherited under a key, as a text.
unfoldable pub inherited_text : String → String
inherited_text key =
    if str_eq key "__proto__"
    then "[object Object]"
    else if str_eq key "constructor"
    then "function Object() { [native code] }"
    else concat "function " (concat key "() { [native code] }")

-- `acc[key] = value`: the setter of __proto__ ignores numbers and texts.
abbrev pub assign : {N : Type 0} → String → Entry N → Entries N → Entries N
assign key v entries = if str_eq key "__proto__" then entries else insert key v entries

-- `(acc[key] || 0) + 1`
abbrev pub one_more : String → Option (Entry ℕ) → Entry ℕ
one_more key none =
    if is_inherited key then text_entry (concat (inherited_text key) "1") else number_entry 1
one_more key (some (number_entry n)) = number_entry (n + 1)
one_more key (some (text_entry s)) =
    if truthy_text s then text_entry (concat s "1") else number_entry 1

abbrev pub counted_in : String → Entries ℕ → Entries ℕ
counted_in key entries = assign key (one_more key (lookup key entries)) entries

module _ (figures : Figures) where
  open figures use {Number, of_nat, add, div, falsy, text_of, part, sort_rising}

  abbrev pub Metric : Type 0
  Metric = LlmMetrics Number

  -- The list of metrics after a request.
  unfoldable pub track_request : Metric → List Metric → List Metric
  unfolding drop
  track_request metric metrics =
      let all = metrics ++ metric ∷ [] in
      if ltb max_metrics_in_memory (length all) then slice_last max_metrics_in_memory all else all

  abbrev not_before : Option ℕ → Metric → Bool
  not_before none m = true
  not_before (some start) m = leb start m.timestamp

  abbrev not_after : Option ℕ → Metric → Bool
  not_after none m = true
  not_after (some end) m = leb m.timestamp end

  unfoldable pub in_period : Option ℕ → Option ℕ → List Metric → List Metric
  unfolding filter
  in_period start_date end_date metrics =
      filter (not_after end_date) (filter (not_before start_date) metrics)

  unfoldable pub sum_cost : Number → List Metric → Number
  sum_cost total [] = total
  sum_cost total (m ∷ ms) = sum_cost (add total m.cost) ms

  unfoldable pub get_total_cost : Option ℕ → Option ℕ → List Metric → Number
  unfolding in_period sum_cost
  get_total_cost start_date end_date metrics =
      sum_cost (of_nat 0) (in_period start_date end_date metrics)

  unfoldable pub sum_usage : TokenTotals → List Metric → TokenTotals
  sum_usage total [] = total
  sum_usage total (m ∷ ms) =
      let usage = m.token_usage in
      sum_usage
        (record {
          input_tokens = total.input_tokens + first_of usage.input_tokens usage.prompt_tokens;
          output_tokens =
              total.output_tokens + first_of usage.output_tokens usage.completion_tokens;
          total_tokens = total.total_tokens + usage.total_tokens;
        })
        ms

  unfoldable pub get_total_token_usage : Option ℕ → Option ℕ → List Metric → TokenTotals
  unfolding in_period sum_usage
  get_total_token_usage start_date end_date metrics =
      sum_usage (record { input_tokens = 0; output_tokens = 0; total_tokens = 0 })
        (in_period start_date end_date metrics)

  unfoldable pub sum_by : (Metric → ℕ) → List Metric → ℕ
  sum_by f [] = 0
  sum_by f (m ∷ ms) = f m + sum_by f ms

  abbrev no_requests : CostStatistics Number
  no_requests = record {
    total_requests = 0;
    successful_requests = 0;
    failed_requests = 0;
    success_rate = of_nat 0;
    total_cost = of_nat 0;
    average_cost = of_nat 0;
    total_tokens = 0;
    average_tokens = of_nat 0;
    average_latency = of_nat 0;
    p50_latency = 0;
    p95_latency = 0;
    p99_latency = 0;
  }

  abbrev statistics_of : List Metric → CostStatistics Number
  statistics_of [] = no_requests
  statistics_of (m ∷ ms) =
      let all = m ∷ ms in
      let count = length all in
      let successful = length (filter (λ q. q.success) all) in
      let latencies = sort_rising (map (λ q. q.latency_ms) all) in
      let cost = sum_cost (of_nat 0) all in
      let tokens = sum_by (λ q. q.token_usage.total_tokens) all in
      record {
        total_requests = count;
        successful_requests = successful;
        failed_requests = length (filter (λ q. not q.success) all);
        success_rate = div (of_nat successful) (of_nat count);
        total_cost = cost;
        average_cost = div cost (of_nat count);
        total_tokens = tokens;
        average_tokens = div (of_nat tokens) (of_nat count);
        average_latency = div (of_nat (sum_by (λ q. q.latency_ms) all)) (of_nat count);
        p50_latency = at_or_zero latencies (part (length latencies) 50);
        p95_latency = at_or_zero latencies (part (length latencies) 95);
        p99_latency = at_or_zero latencies (part (length latencies) 99);
      }

  unfoldable pub get_statistics : Option ℕ → Option ℕ → List Metric → CostStatistics Number
  unfolding in_period sum_cost sum_by filter
  get_statistics start_date end_date metrics = statistics_of (in_period start_date end_date metrics)

  -- The reductions of `getRequestsByModel`, `getCostByModel` and `getErrorBreakdown`.
  unfoldable pub count_models : Entries ℕ → List Metric → Entries ℕ
  count_models counts [] = counts
  count_models counts (m ∷ ms) = count_models (counted_in m.model counts) ms

  unfoldable pub get_requests_by_model : List Metric → Entries ℕ
  unfolding count_models
  get_requests_by_model metrics = count_models [] metrics

  -- `(acc[m.model] || 0) + m.cost`
  abbrev cost_in : String → Number → Option (Entry Number) → Entry Number
  cost_in key cost none =
      if is_inherited key
      then text_entry (concat (inherited_text key) (text_of cost))
      else number_entry (add (of_nat 0) cost)
  cost_in key cost (some (number_entry n)) =
      number_entry (add (if falsy n then of_nat 0 else n) cost)
  cost_in key cost (some (text_entry s)) =
      if truthy_text s
      then text_entry (concat s (text_of cost))
      else number_entry (add (of_nat 0) cost)

  unfoldable pub cost_models : Entries Number → List Metric → Entries Number
  unfolding is_inherited inherited_text
  cost_models costs [] = costs
  cost_models costs (m ∷ ms) =
      cost_models (assign m.model (cost_in m.model m.cost (lookup m.model costs)) costs) ms

  unfoldable pub get_cost_by_model : List Metric → Entries Number
  unfolding cost_models
  get_cost_by_model metrics = cost_models [] metrics

  -- The error code of a request that failed with one.
  abbrev pub error_of : Metric → Option String
  error_of m = if not m.success && truthy m.error_code then m.error_code else none

  abbrev pub error_counted : Option String → Entries ℕ → Entries ℕ
  error_counted none counts = counts
  error_counted (some code) counts = counted_in code counts

  unfoldable pub count_errors : Entries ℕ → List Metric → Entries ℕ
  count_errors counts [] = counts
  count_errors counts (m ∷ ms) = count_errors (error_counted (error_of m) counts) ms

  unfoldable pub get_error_breakdown : List Metric → Entries ℕ
  unfolding count_errors
  get_error_breakdown metrics = count_errors [] metrics
