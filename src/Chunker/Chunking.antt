-- ===== src/Chunker/Chunking.antt =====
-- `chunkTemplate`: that it returns, and what.
use mathlib.Core.Path.{subst}
use high_throughput_notifica.Chunker.FixedSize.{create_chunks_small}
use high_throughput_notifica.Chunker.Chunks.{
  ChunkingStrategy, PartialStrategy, TemplateDocument, TextChunk,
}
use high_throughput_notifica.Chunker.CodeUnits.{Text, tokens_in}
use high_throughput_notifica.Chunker.FixedSize.{create_chunks_covers}
use high_throughput_notifica.Chunker.Marking.{Counted, CountedOf, create_chunks-Counted}
use high_throughput_notifica.Chunker.Splitting.{
  chunk_by_paragraphs, chunk_by_sentences, create_chunks,
}
use high_throughput_notifica.Chunker.Template.{
  Arithmetic, ChunkingResult, chunk_template, final_strategy, prepared_content, result_of,
}
use high_throughput_notifica.Prelude.{
  Bool-cases, List, Option, ap, false, inl, inr, leb, length, refl, some, true, ℕ, ◌<◌, ◌≡◌,
}

module _ (template : TemplateDocument) (strategy : ChunkingStrategy) (share : ℕ → ℕ → ℕ) where
  abbrev Chunked : Option (List TextChunk) → Type 0
  Chunked r = (chunks : List TextChunk) × (r ≡ some chunks)

  create_chunks_paragraphs :
      (fuel : ℕ) (content : Text)
      → leb (tokens_in content) strategy.max_tokens ≡ false
      → strategy.respect_paragraph_boundaries ≡ true
      → create_chunks template strategy share fuel content
        ≡ some (chunk_by_paragraphs template strategy share content)
  unfolding create_chunks
  create_chunks_paragraphs fuel content e p = cc

  create_chunks_sentences :
      (fuel : ℕ) (content : Text)
      → leb (tokens_in content) strategy.max_tokens ≡ false
      → strategy.respect_paragraph_boundaries ≡ false
      → strategy.respect_sentence_boundaries ≡ true
      → create_chunks template strategy share fuel content
        ≡ some (chunk_by_sentences template strategy share content)
  unfolding create_chunks
  create_chunks_sentences fuel content e p q = cc

  create_chunks-Chunked :
      (fuel : ℕ) (content : Text)
      → strategy.overlap_tokens < strategy.max_tokens
      → length content < fuel
      → Chunked (create_chunks template strategy share fuel content)
  create_chunks-Chunked fuel content o f =
      elim (Bool-cases (leb (tokens_in content) strategy.max_tokens)) [
        | inl e ↦ (_, create_chunks_small template strategy share fuel content e)
        | inr e ↦ elim (Bool-cases strategy.respect_paragraph_boundaries) [
          | inl p ↦ (_, create_chunks_paragraphs fuel content e p)
          | inr p ↦ elim (Bool-cases strategy.respect_sentence_boundaries) [
            | inl q ↦ (_, create_chunks_sentences fuel content e p q)
            | inr q ↦
                let r = create_chunks_covers template strategy share fuel content p q o f in
                (r.0, r.1)
          ]
        ]
      ]

module _ (arithmetic : Arithmetic) where
  open arithmetic use {Number, share}

  -- A result whose figures are right.
  pub record Correct (template : TemplateDocument) (given : Option PartialStrategy)
      (r : ChunkingResult Number) : Type 0 where
    pub strategy_used : r.strategy ≡ final_strategy template given
    pub counted : r.total_chunks ≡ length r.chunks
    pub chunks_counted : Counted template r.strategy r.chunks

  -- Where fewer tokens overlap than a chunk may have, `chunkTemplate` returns, in at most as many
  -- rounds of a loop as the prepared text has code units and one more. Its result has the strategy
  -- that the options and the template choose, and the number of its chunks, which each of them has
  -- too. The tokens and the end of each chunk are those of its text, and each says that it is
  -- complete, however many there are.
  pub chunk_template-Correct :
      (fuel : ℕ) (template : TemplateDocument) (given : Option PartialStrategy)
      → (final_strategy template given).overlap_tokens < (final_strategy template given).max_tokens
      → length (prepared_content template (final_strategy template given)) < fuel
      → (r : ChunkingResult Number) × (chunk_template arithmetic fuel template given ≡ some r)
        × Correct template given r
  unfolding chunk_template
  chunk_template-Correct fuel template given o f =
      let strategy : ChunkingStrategy = final_strategy template given in
      let content : Text = prepared_content template strategy in
      let (chunks, e) = create_chunks-Chunked template strategy share fuel content o f in
      (
        _,
        ap (result_of arithmetic template strategy) e,
        record {
          strategy_used = refl;
          counted = refl;
          chunks_counted =
              subst (CountedOf template strategy) (e)
                (create_chunks-Counted template strategy share fuel content);
        },
      )
