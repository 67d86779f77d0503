-- ===== src/CostTracking/Window.antt =====
-- Which requests the service remembers.
use high_throughput_notifica.CostTracking.{Figures, Metric, max_metrics_in_memory, track_request}
use high_throughput_notifica.Prelude.{
  Bool-cases, List, [], ap, arith, drop, drop-append, drop-drop, inl, inr, length, length-append,
  length-drop, ltb, refl, sym, ℕ, ◌++◌, ◌+◌, ◌-◌, ◌∙◌, ◌∷◌, ◌≡◌,
}
use mathlib.Core.List.{append_assoc, append-nil}

module _ (figures : Figures) where
  -- The requests in the order of their tracking.
  unfoldable pub track_all : List (Metric figures) → List (Metric figures) → List (Metric figures)
  track_all metrics [] = metrics
  track_all metrics (m ∷ ms) = track_all (track_request figures m metrics) ms

  -- The end of a list that may be remembered.
  abbrev pub remembered : List (Metric figures) → List (Metric figures)
  remembered l = drop (length l - max_metrics_in_memory) l

  track_request-remembered :
      (m : Metric figures) (l : List (Metric figures))
      → track_request figures m l ≡ remembered (l ++ m ∷ [])
  unfolding track_request drop
  track_request-remembered m l =
      elim (Bool-cases (ltb max_metrics_in_memory (length (l ++ m ∷ [])))) [
        | inl over ↦ rw over refl
        | inr fits ↦
            let none_out : 0 ≡ length (l ++ m ∷ []) - max_metrics_in_memory =
              ground (arith, fits) in
            rw fits (ap (λ n. drop n (l ++ m ∷ [])) none_out)
      ]

  remembered-append :
      (m : Metric figures) (l : List (Metric figures))
      → remembered (remembered l ++ m ∷ []) ≡ remembered (l ++ m ∷ [])
  remembered-append m l =
      let k : ℕ = length l - max_metrics_in_memory in
      let j : ℕ = length (remembered l ++ m ∷ []) - max_metrics_in_memory in
      let both : k + j ≡ length (l ++ m ∷ []) - max_metrics_in_memory = omega (
        arith,
        length-append {0} (remembered l) (m ∷ []),
        length-append {0} l (m ∷ []),
        length-drop k l,
      ) in
      ap (drop j) (sym (drop-append k l (m ∷ []) (omega arith)))
      ∙ drop-drop j k (l ++ m ∷ [])
      ∙ ap (λ n. drop n (l ++ m ∷ [])) both

  track_all-from :
      (before ms : List (Metric figures))
      → track_all (remembered before) ms ≡ remembered (before ++ ms)
  unfolding track_all
  track_all-from before [] = ap remembered (sym (append-nil before))
  track_all-from before (m ∷ ms) =
      ap (λ l. track_all l ms)
        (track_request-remembered m (remembered before) ∙ remembered-append m before)
      ∙ track_all-from (before ++ m ∷ []) ms
      ∙ ap remembered (append_assoc before (m ∷ []) ms)

  -- After any requests since the start, the service remembers the last 10000 of them, in their
  -- order, and all of them if there were no more.
  pub track_all-last :
      (ms : List (Metric figures)) → track_all [] ms ≡ drop (length ms - max_metrics_in_memory) ms
  unfolding drop
  track_all-last ms = track_all-from [] ms
