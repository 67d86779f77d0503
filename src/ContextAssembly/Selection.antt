-- ===== src/ContextAssembly/Selection.antt =====
-- What each step of the assembly keeps of the results.
use high_throughput_notifica.ContextAssembly.{
  rank_sorted, Runtime, Result, best_index, cost, filter, rank_remaining, splice,
}
use high_throughput_notifica.Prelude.{
  Bool, List, String, [], arith, count_by, false, length, refl, str_eq, suc, true, zero, ℕ, ◌++◌,
  ◌+◌, ◌∷◌, ◌≡◌, ◌≤◌,
}
use high_throughput_notifica.ContextAssembly.{rank_with_diversity}
use high_throughput_notifica.Prelude.{Bool-cases, count_by-append, inl, inr, leb, sym, ◌∙◌}

pub count_by-filter :
    {A : Type 0} (p q : A → Bool) (xs : List A)
    → (count_by q (filter p xs) ≤ count_by q xs)
      × (((x : A) → q x ≡ true → p x ≡ false) → count_by q (filter p xs) ≡ 0)
unfolding count_by filter
count_by-filter p q [] = (omega arith, λ h. refl)
count_by-filter p q (x ∷ xs) =
    let (le, none_of) = count_by-filter p q xs in
    (ground arith, λ h. ground (arith, h x, none_of h))

module _ (runtime : Runtime) where
  open runtime use {Number, sort_by_score, minus_infinity, ge}

  -- How many results of a list have an id.
  abbrev pub has_id : String → Result runtime → Bool
  has_id id r = str_eq r.id id

  -- The tokens of a list of results.
  unfoldable pub total_cost : List (Result runtime) → ℕ
  total_cost [] = 0
  total_cost (r ∷ rs) = cost runtime r + total_cost rs

  pub total_cost-append :
      (rs : List (Result runtime)) (r : Result runtime)
      → total_cost (rs ++ r ∷ []) ≡ total_cost rs + cost runtime r
  unfolding total_cost
  total_cost-append [] r = omega arith
  total_cost-append (q ∷ rs) r = omega (arith, total_cost-append rs r)

  count_by-splice :
      (p : Result runtime → Bool) (i : ℕ) (r : Result runtime) (rs : List (Result runtime))
      → let (taken, rest) = splice runtime i r rs in
        (count_by p (taken ∷ rest) ≡ count_by p (r ∷ rs)) × (length rest ≡ length rs)
  unfolding splice count_by
  count_by-splice p zero r rs = (refl, refl)
  count_by-splice p (suc i) r [] = (refl, refl)
  count_by-splice p (suc i) r (s ∷ rs) = ground (arith, count_by-splice p i s rs)

  -- The loop takes out every result once, if it has a round for each.
  count_by-rank_remaining :
      (p : Result runtime → Bool) (n : ℕ) (weight : Number)
      (ranked remaining : List (Result runtime))
      → length remaining ≤ n
      → count_by p (rank_remaining runtime n weight ranked remaining)
        ≡ count_by p ranked + count_by p remaining
  unfolding rank_remaining count_by
  count_by-rank_remaining p zero weight ranked [] h = omega arith
  count_by-rank_remaining p zero weight ranked (r ∷ rs) h = absurd (omega arith)
  count_by-rank_remaining p (suc n) weight ranked [] h = omega arith
  count_by-rank_remaining p (suc n) weight ranked (r ∷ rs) h =
      let i = best_index runtime weight ranked (r ∷ rs) 0 minus_infinity 0 in
      let (taken, rest) = splice runtime i r rs in
      let (same, shorter) = count_by-splice p i r rs in
      omega (
        arith,
        count_by-rank_remaining p n weight (ranked ++ taken ∷ []) rest (omega (arith, shorter)),
        count_by-append p ranked (taken ∷ []),
        count_by-append p (taken ∷ []) rest,
        same,
      )

  -- What the ranking relies on of Array.prototype.sort: it keeps the elements.
  abbrev pub SortKeeps : Type 0
  SortKeeps =
      (p : Result runtime → Bool) (l : List (Result runtime))
      → count_by p (sort_by_score l) ≡ count_by p l

  -- The ranking holds every result as often as the list that it ranks.
  pub count_by-rank_with_diversity :
      (p : Result runtime → Bool) (results : List (Result runtime)) (weight : Number)
      → SortKeeps
      → count_by p (rank_with_diversity runtime results weight) ≡ count_by p results
  unfolding rank_with_diversity
  count_by-rank_with_diversity p results weight keeps = elim (Bool-cases (leb (length results) 1)) [
    | inl short ↦ rw short refl
    | inr long ↦ rw long (ranked (sort_by_score results) ∙ keeps p results)
  ]
    where
      ranked :
          (l : List (Result runtime)) → count_by p (rank_sorted runtime weight l) ≡ count_by p l
      ranked [] = refl
      ranked (first ∷ rest) =
          count_by-rank_remaining p (length rest) weight (first ∷ []) rest (omega arith)
          ∙ sym (count_by-append p (first ∷ []) rest)
