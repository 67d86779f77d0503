-- ===== src/Retrieval/Keys.antt =====
-- The keys of src/vector-db/services/retrieval.service.ts: which queries share one.
use high_throughput_notifica.Prelude.{List, String, [], ap, arith, sym, ℕ, ◌++◌, ◌∙◌, ◌∷◌, ◌≡◌}
use high_throughput_notifica.Retrieval.{
  Query, Runtime, get_search_cache_key, hash_step, hash_units, simple_hash,
}
use high_throughput_notifica.Retrieval.{hashed_text}

hash_step_Aa : (h : ℕ) → hash_step (hash_step h 65) 97 ≡ hash_step (hash_step h 66) 66
unfolding hash_step
hash_step_Aa h = omega arith

hash_units-swap :
    (h : ℕ) (front rest : List ℕ)
    → hash_units h (front ++ (65 ∷ 97 ∷ rest)) ≡ hash_units h (front ++ (66 ∷ 66 ∷ rest))
unfolding hash_units
hash_units-swap h [] rest = ap (λ g. hash_units g rest) (hash_step_Aa h)
hash_units-swap h (c ∷ front) rest = hash_units-swap (hash_step h c) front rest

module _ (runtime : Runtime) where
  -- Two queries that differ only in their texts have the same key in the cache wherever one has "Aa"
  -- and the other has "BB", in front of the same rest.
  pub get_search_cache_key_collides :
      (q : Query runtime) (other : String) (front rest : List ℕ)
      → runtime.code_units (hashed_text runtime q) ≡ front ++ (65 ∷ 97 ∷ rest)
      → runtime.code_units (hashed_text runtime (record q { query_text = other }))
        ≡ front ++ (66 ∷ 66 ∷ rest)
      → get_search_cache_key runtime q
        ≡ get_search_cache_key runtime (record q { query_text = other })
  unfolding get_search_cache_key simple_hash
  get_search_cache_key_collides q other front rest a b =
      let same : hash_units 0 (runtime.code_units (hashed_text runtime q))
          ≡ hash_units 0
              (runtime.code_units (hashed_text runtime (record q { query_text = other }))) =
        ap (hash_units 0) a ∙ hash_units-swap 0 front rest ∙ ap (hash_units 0) (sym b) in
      cc
