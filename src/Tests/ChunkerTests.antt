-- ===== src/Tests/ChunkerTests.antt =====
-- Templates that are split by each of the ways.
use high_throughput_notifica.Chunker.Chunking.{Correct, chunk_template-Correct}
use high_throughput_notifica.Chunker.Chunks.{
  ChunkingStrategy, TemplateDocument, TextChunk, create_single_chunk, custom,
}
use high_throughput_notifica.Chunker.CodeUnits.{Text, ascii, split_into_sentences, tokens_in}
use high_throughput_notifica.Chunker.FixedSize.{
  FitsIn, create_chunks_covers, create_chunks_endless, stitched,
}
use high_throughput_notifica.Chunker.Sentences.{Overlapping, chunk_by_sentences-Overlapping}
use high_throughput_notifica.Chunker.Splitting.{
  chunk_by_paragraphs, chunk_by_sentences, create_chunks, words_of,
}
use high_throughput_notifica.Chunker.Template.{
  Arithmetic, ChunkingResult, chunk_template, final_strategy, prepared_content,
}
use high_throughput_notifica.Prelude.{
  All, List, [], arith, decimal, false, map, none, refl, some, ℕ, ◌*◌, ◌+◌, ◌/◌, ◌∷◌, ◌≡◌,
}
use high_throughput_notifica.Chunker.Chunks.{update_totals}
use high_throughput_notifica.Chunker.CodeUnits.{split_into_paragraphs}
use high_throughput_notifica.Prelude.{drop}

abbrev template : TemplateDocument
template = record {
  id = "t";
  content = ascii "One. Two. Three.";
  metadata = record {
    channel = "email";
    type = "SYSTEM";
    category = none;
    tags = none;
    subject = none;
    tone = none;
    language = none;
  };
}

-- Two tokens for a chunk, of which some overlap, and no boundaries.
abbrev strategy : ℕ → ChunkingStrategy
strategy overlap = record {
  type = custom;
  max_tokens = 2;
  overlap_tokens = overlap;
  overlap_percentage = 10;
  respect_sentence_boundaries = false;
  respect_paragraph_boundaries = false;
  include_subject_in_chunks = false;
}

-- The share rounds up.
abbrev share : ℕ → ℕ → ℕ
share n p = (n * p + 99) / 100

create_chunks_covers_example :
    (chunks : List TextChunk) × (create_chunks template (strategy 1) share 20 template.content
      ≡ some chunks)
    × (stitched 4 chunks ≡ template.content)
    × All (FitsIn 2) chunks
create_chunks_covers_example =
    create_chunks_covers template (strategy 1) share 20 template.content refl refl (omega arith)
      (omega arith)

create_chunks_endless_example :
    create_chunks template (strategy 2) share 1000 template.content ≡ none
unfolding tokens_in
create_chunks_endless_example =
    create_chunks_endless template (strategy 2) share 1000 template.content refl refl (omega arith)
      (omega arith)

chunk_by_sentences-Overlapping_example :
    (groups : List (List Text)) × (map
        (λ c. c.content)
        (chunk_by_sentences template (strategy 1) share template.content)
      ≡ map (words_of template (strategy 1) share) groups)
    × Overlapping [] groups (split_into_sentences template.content)
unfolding split_into_sentences
chunk_by_sentences-Overlapping_example =
    chunk_by_sentences-Overlapping template (strategy 1) share template.content (omega arith)

abbrev arithmetic : Arithmetic
arithmetic = record { Number = ℕ; share = share; quotient = λ a b. a / b }

chunk_template-Correct_example :
    (r : ChunkingResult ℕ) × (chunk_template arithmetic 20 template none ≡ some r)
    × Correct arithmetic template none r
unfolding final_strategy prepared_content
chunk_template-Correct_example =
    chunk_template-Correct arithmetic 20 template none (omega arith) (omega arith)

-- A paragraph that is too large begins with the number 0 again: two chunks of one template have the
-- same id.
same_ids_example :
    map
      (λ c. c.id)
      (chunk_by_paragraphs template (strategy 1) share (ascii "One.\n\nTwo and three. Four."))
    ≡ "t_chunk_0" ∷ "t_chunk_0" ∷ "t_chunk_1" ∷ []
unfolding chunk_by_paragraphs create_single_chunk decimal update_totals split_into_paragraphs
    split_into_sentences drop
same_ids_example = refl
