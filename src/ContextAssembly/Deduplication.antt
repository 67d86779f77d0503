-- ===== src/ContextAssembly/Deduplication.antt =====
-- What deduplication keeps: no id twice, and no two results that are similar.
use mathlib.Core.List.{append-nil, append_assoc}
use high_throughput_notifica.ContextAssembly.{
  Runtime, Result, deduplicate_loop, deduplicate_results, similar,
}
use high_throughput_notifica.ContextAssembly.Selection.{has_id}
use high_throughput_notifica.Prelude.{
  Bool, Bool-cases, List, String, [], any, ap, arith, count_by, count_by-append, eq_iff, false,
  includes, inl, inr, refl, str_eq, sym, ◌++◌, ◌+◌, ◌||◌, ◌∷◌, ◌≡◌, ◌≤◌,
}

module _ (runtime : Runtime) where
  open runtime use {Number}

  includes-append :
      (xs : List String) (y z : String) → includes (xs ++ y ∷ []) z ≡ (includes xs z || str_eq y z)
  includes-append [] y z = ground arith
  includes-append (x ∷ xs) y z = ground (arith, includes-append xs y z)

  -- Each result after `before` is not similar to one that stands before it.
  pub Spread : Number → List (Result runtime) → List (Result runtime) → Type 0
  Spread threshold before [] = Unit
  Spread threshold before (r ∷ rs) =
      (any (similar runtime threshold r) before ≡ false) × Spread threshold (before ++ r ∷ []) rs

  Spread-append :
      (threshold : Number) (before rs : List (Result runtime)) (r : Result runtime)
      → Spread threshold before rs
      → any (similar runtime threshold r) (before ++ rs) ≡ false
      → Spread threshold before (rs ++ r ∷ [])
  unfolding Spread
  Spread-append threshold before [] r s h =
      (rw (sym (ap (any (similar runtime threshold r)) (append-nil before))) h, tt)
  Spread-append threshold before (q ∷ rs) r (d, s) h = (
    d,
    Spread-append threshold (before ++ q ∷ []) rs r s (rw (append_assoc before (q ∷ []) rs) h),
  )

  -- What the loop keeps of the deduplicated results and of their ids.
  record Distinct (threshold : Number) (kept : List (Result runtime)) (seen : List String)
      : Type 0 where
    once : (id : String) → count_by (has_id runtime id) kept ≤ 1
    known : (id : String) → includes seen id ≡ false → count_by (has_id runtime id) kept ≡ 0
    spread : Spread threshold [] kept

  Distinct-append :
      (threshold : Number) (kept : List (Result runtime)) (seen : List String) (r : Result runtime)
      → Distinct threshold kept seen
      → includes seen r.id ≡ false
      → any (similar runtime threshold r) kept ≡ false
      → Distinct threshold (kept ++ r ∷ []) (seen ++ r.id ∷ [])
  unfolding count_by
  Distinct-append threshold kept seen r d new different = record {
    once = λ id. ground (
      arith,
      count_by-append (has_id runtime id) kept (r ∷ []),
      d.once id,
      d.known id,
      eq_iff r.id id,
    );
    known = λ id fresh. ground (
      arith,
      count_by-append (has_id runtime id) kept (r ∷ []),
      includes-append seen r.id id,
      d.known id,
    );
    spread = Spread-append threshold [] kept r d.spread different;
  }

  deduplicate_loop-Distinct :
      (threshold : Number) (kept : List (Result runtime)) (seen : List String)
      (rs : List (Result runtime))
      → Distinct threshold kept seen
      → ((id : String)
          → count_by (has_id runtime id) (deduplicate_loop runtime threshold kept seen rs) ≤ 1)
        × Spread threshold [] (deduplicate_loop runtime threshold kept seen rs)
  unfolding deduplicate_loop
  deduplicate_loop-Distinct threshold kept seen [] d = (d.once, d.spread)
  deduplicate_loop-Distinct threshold kept seen (r ∷ rs) d =
      elim (Bool-cases (includes seen r.id)) [
        | inl old ↦ rw old (deduplicate_loop-Distinct threshold kept seen rs d)
        | inr new ↦ elim (Bool-cases (any (similar runtime threshold r) kept)) [
          | inl near ↦ rw (new, near) (deduplicate_loop-Distinct threshold kept seen rs d)
          | inr different ↦
              rw (new, different)
                (deduplicate_loop-Distinct threshold (kept ++ r ∷ []) (seen ++ r.id ∷ []) rs
                  (Distinct-append threshold kept seen r d new different))
        ]
      ]

  count_by-deduplicate_loop :
      (threshold : Number) (p : Result runtime → Bool) (kept : List (Result runtime))
      (seen : List String) (rs : List (Result runtime))
      → count_by p (deduplicate_loop runtime threshold kept seen rs)
        ≤ count_by p kept + count_by p rs
  unfolding deduplicate_loop count_by
  count_by-deduplicate_loop threshold p kept seen [] = omega arith
  count_by-deduplicate_loop threshold p kept seen (r ∷ rs) = ground (
    arith,
    count_by-deduplicate_loop threshold p kept seen rs,
    count_by-deduplicate_loop threshold p (kept ++ r ∷ []) (seen ++ r.id ∷ []) rs,
    count_by-append p kept (r ∷ []),
  )

  -- Deduplicated results have different ids, none is as similar to an earlier one as the threshold,
  -- and each is one of the results.
  pub deduplicate_results-Spread :
      (results : List (Result runtime)) (threshold : Number)
      → ((id : String)
          → count_by (has_id runtime id) (deduplicate_results runtime results threshold) ≤ 1)
        × Spread threshold [] (deduplicate_results runtime results threshold)
        × ((p : Result runtime → Bool)
            → count_by p (deduplicate_results runtime results threshold) ≤ count_by p results)
  unfolding deduplicate_results count_by Spread
  deduplicate_results-Spread results threshold =
      let (once, spread) =
        deduplicate_loop-Distinct threshold [] [] results
          (record { once = λ id. omega arith; known = λ id h. refl; spread = tt }) in
      (once, spread, λ p. omega (arith, count_by-deduplicate_loop threshold p [] [] results))
