-- ===== src/ContextAssembly/Budget.antt =====
-- What fits into the context window.
use mathlib.Core.List.{append_assoc}
use high_throughput_notifica.ContextAssembly.{
  Runtime, Result, cost, fit_loop, fit_to_context_window,
}
use high_throughput_notifica.ContextAssembly.Selection.{total_cost, total_cost-append}
use high_throughput_notifica.Prelude.{
  Bool-cases, List, [], arith, inl, inr, ltb, refl, sym, ℕ, ◌++◌, ◌+◌, ◌<◌, ◌∙◌, ◌∷◌, ◌≡◌, ◌≤◌,
}

module _ (runtime : Runtime) where
  -- A selection within the budget: it is the beginning of the list, its tokens are added up, and
  -- the next result, if there is one, does not fit.
  pub record Fitted (max_tokens : ℕ) (results selected : List (Result runtime)) (total : ℕ)
      : Type 0 where
    pub summed : total ≡ total_cost runtime selected
    pub within : total ≤ max_tokens
    pub left : List (Result runtime)
    pub split : results ≡ selected ++ left
    pub full :
        (r : Result runtime) (rs : List (Result runtime))
        → left ≡ r ∷ rs
        → max_tokens < total + cost runtime r

  fit_loop-Fitted :
      (max_tokens : ℕ) (selected : List (Result runtime)) (total : ℕ) (rs : List (Result runtime))
      → total ≡ total_cost runtime selected
      → total ≤ max_tokens
      → let (out, t) = fit_loop runtime max_tokens selected total rs in
        Fitted max_tokens (selected ++ rs) out t
  unfolding fit_loop
  fit_loop-Fitted max_tokens selected total [] s w = record {
    summed = s;
    within = w;
    left = [];
    split = refl;
    full = λ r rs e. absurd (ground arith);
  }
  fit_loop-Fitted max_tokens selected total (r ∷ rs) s w =
      elim (Bool-cases (ltb max_tokens (total + cost runtime r))) [
        | inl over ↦ rw over (record {
          summed = s;
          within = w;
          left = r ∷ rs;
          split = refl;
          full = λ q qs e. ground (arith, over, e);
        })
        | inr fits ↦
            let rest =
              fit_loop-Fitted max_tokens (selected ++ r ∷ []) (total + cost runtime r) rs
                (omega (arith, total_cost-append runtime selected r, s)) (ground (arith, fits)) in
            rw fits (record {
              summed = rest.summed;
              within = rest.within;
              left = rest.left;
              split = sym (append_assoc selected (r ∷ []) rs) ∙ rest.split;
              full = rest.full;
            })
      ]

  -- The window takes the longest beginning of the list whose tokens are within the budget.
  pub fit_to_context_window-Fitted :
      (results : List (Result runtime)) (max_tokens : ℕ)
      → let (selected, total) = fit_to_context_window runtime results max_tokens in
        Fitted max_tokens results selected total
  unfolding fit_to_context_window total_cost
  fit_to_context_window-Fitted results max_tokens =
      fit_loop-Fitted max_tokens [] 0 results refl (omega arith)
