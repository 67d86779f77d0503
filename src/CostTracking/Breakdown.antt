-- ===== src/CostTracking/Breakdown.antt =====
-- What the breakdowns count.
use high_throughput_notifica.CostTracking.{
  counted_in, count_errors, count_models, Entries, Entry, error_counted, error_of, Figures,
  get_error_breakdown, get_requests_by_model, is_inherited, Metric, number_entry, one_more,
}
use high_throughput_notifica.Prelude.{
  ap, arith, Bool, Bool-cases, inl, inr, count_by, eq_iff, false, if◌then◌else◌, List, lookup,
  lookup-insert, none, not, Option, refl, some, str_eq, String, true, truthy, truthy_text, ℕ, [],
  ◌∷◌, ◌&&◌, ◌+◌, ◌==◌, ◌∙◌, ◌≡◌,
}

module _ (figures : Figures) where
  abbrev pub of_model : String → Metric figures → Bool
  of_model model m = str_eq m.model model

  -- The requests that failed with an error code.
  abbrev pub with_error : String → Metric figures → Bool
  with_error code m = not m.success && elim m.error_code [ none ↦ false | some c ↦ str_eq c code ]

  -- The entry for a number of requests: none at all for 0.
  abbrev pub entry_of : ℕ → Option (Entry ℕ)
  entry_of n = if n == 0 then none else some (number_entry n)

  not_proto : (key : String) → is_inherited key ≡ false → str_eq key "__proto__" ≡ false
  unfolding is_inherited
  not_proto key h = ground (arith, eq_iff key "__proto__", eq_iff "__proto__" key)

  lookup-counted_self :
      (key : String) (n : ℕ) (counts : Entries ℕ)
      → is_inherited key ≡ false
      → lookup key counts ≡ entry_of n
      → lookup key (counted_in key counts) ≡ entry_of (n + 1)
  lookup-counted_self key n counts h e = ground (
    arith,
    not_proto key h,
    lookup-insert key key (one_more key (lookup key counts)) counts,
    eq_iff key key,
  )

  lookup-counted_in :
      (key other : String) (n : ℕ) (counts : Entries ℕ)
      → is_inherited other ≡ false
      → lookup other counts ≡ entry_of n
      → lookup other (counted_in key counts) ≡ entry_of (if str_eq key other then n + 1 else n)
  lookup-counted_in key other n counts h e = elim (Bool-cases (str_eq key other)) [
    | inl same ↦
        ap (λ k. lookup other (counted_in k counts)) ((eq_iff key other).0 same)
        ∙ lookup-counted_self other n counts h e
        ∙ ground (arith, same)
    | inr apart ↦
        ground (arith, apart, e, lookup-insert key other (one_more key (lookup key counts)) counts)
  ]

  lookup-count_models :
      (model : String) (n : ℕ) (counts : Entries ℕ) (ms : List (Metric figures))
      → is_inherited model ≡ false
      → lookup model counts ≡ entry_of n
      → lookup model (count_models figures counts ms) ≡ entry_of (n + count_by (of_model model) ms)
  unfolding count_models count_by
  lookup-count_models model n counts [] h e = e ∙ ap entry_of (omega arith)
  lookup-count_models model n counts (m ∷ ms) h e =
      lookup-count_models model (if str_eq m.model model then n + 1 else n)
        (counted_in m.model counts) ms h (lookup-counted_in m.model model n counts h e)
      ∙ ap entry_of (ground arith)

  -- One request; '' is falsy, and no code that is asked for.
  lookup-error_counted :
      (code : String) (n : ℕ) (counts : Entries ℕ) (success : Bool) (o : Option String)
      → truthy_text code ≡ true
      → is_inherited code ≡ false
      → lookup code counts ≡ entry_of n
      → lookup code (error_counted figures (if not success && truthy o then o else none) counts)
        ≡ entry_of
            (if not success && elim o [ none ↦ false | some c ↦ str_eq c code ] then n + 1 else n)
  lookup-error_counted code n counts true o t h e = e
  lookup-error_counted code n counts false none t h e = e
  lookup-error_counted code n counts false (some c) t h e =
      ground
        (arith, lookup-counted_in c code n counts h e, eq_iff c code, eq_iff c "", eq_iff code "")

  lookup-count_errors :
      (code : String) (n : ℕ) (counts : Entries ℕ) (ms : List (Metric figures))
      → truthy_text code ≡ true
      → is_inherited code ≡ false
      → lookup code counts ≡ entry_of n
      → lookup code (count_errors figures counts ms) ≡ entry_of (n + count_by (with_error code) ms)
  unfolding count_errors count_by
  lookup-count_errors code n counts [] t h e = e ∙ ap entry_of (omega arith)
  lookup-count_errors code n counts (m ∷ ms) t h e =
      lookup-count_errors code (if with_error code m then n + 1 else n)
        (error_counted figures (error_of figures m) counts) ms t h
        (lookup-error_counted code n counts m.success m.error_code t h e)
      ∙ ap entry_of (ground arith)

  -- The breakdowns hold, under a model or an error code that is no name of a member of
  -- Object.prototype, the number of the requests to that model, and, unless the code is '', of the
  -- requests that failed with that code; and no entry where there was none.
  pub breakdown-count_by :
      (model code : String) (ms : List (Metric figures))
      → is_inherited model ≡ false
      → is_inherited code ≡ false
      → truthy_text code ≡ true
      → (lookup model (get_requests_by_model figures ms) ≡ entry_of (count_by (of_model model) ms))
        × (lookup code (get_error_breakdown figures ms) ≡ entry_of (count_by (with_error code) ms))
  unfolding get_requests_by_model get_error_breakdown lookup
  breakdown-count_by model code ms h i t = (
    lookup-count_models model 0 [] ms h refl ∙ ap entry_of (omega arith),
    lookup-count_errors code 0 [] ms t i refl ∙ ap entry_of (omega arith),
  )
