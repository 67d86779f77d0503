-- ===== src/Chunker/Template.antt =====
-- `chunkTemplate` and `chunkBatch` of
-- src/vector-db/services/text-processing/text-chunker.service.ts. The quotient that is the average,
-- which is NaN without a chunk, is a parameter.
use high_throughput_notifica.Chunker.Chunks.{
  ChunkType, ChunkingStrategy, PartialStrategy, TemplateDocument, TextChunk, default_strategy,
  merge_strategy, select_optimal_strategy, subject_text,
}
use high_throughput_notifica.Chunker.CodeUnits.{Text, ascii, is_empty}
use high_throughput_notifica.Chunker.Splitting.{create_chunks}
use high_throughput_notifica.Prelude.{
  List, Option, String, [], if◌then◌else◌, insert, length, none, not, some, str_eq, ℕ, ◌&&◌, ◌++◌,
  ◌+◌, ◌∷◌,
}

pub record Arithmetic : Type 1 where
  pub Number : Type 0
  pub share : ℕ → ℕ → ℕ
  pub quotient : ℕ → ℕ → Number

pub record ChunkingResult (Number : Type 0) : Type 0 where
  pub chunks : List TextChunk
  pub original_length : ℕ
  pub total_chunks : ℕ
  pub average_chunk_size : Number
  pub strategy : ChunkingStrategy

abbrev no_fields : PartialStrategy
no_fields = record {
  type = none;
  max_tokens = none;
  overlap_tokens = none;
  overlap_percentage = none;
  respect_sentence_boundaries = none;
  respect_paragraph_boundaries = none;
  include_subject_in_chunks = none;
}

abbrev fields_of : Option PartialStrategy → PartialStrategy
fields_of none = no_fields
fields_of (some p) = p

abbrev type_of : Option ChunkType → TemplateDocument → ChunkType
type_of none template = select_optimal_strategy template
type_of (some t) template = t

unfoldable pub final_strategy : TemplateDocument → Option PartialStrategy → ChunkingStrategy
unfolding select_optimal_strategy default_strategy merge_strategy
final_strategy template given =
    let fields = fields_of given in
    merge_strategy (default_strategy (type_of fields.type template)) fields

-- The text that is split: the subject of an e-mail stands above its content where the strategy says
-- so.
unfoldable pub prepared_content : TemplateDocument → ChunkingStrategy → Text
prepared_content template strategy =
    if strategy.include_subject_in_chunks
      && not (is_empty (subject_text template))
      && str_eq template.metadata.channel "email"
    then subject_text template ++ ascii "\n\n" ++ template.content
    else template.content

unfoldable pub total_length : List TextChunk → ℕ
total_length [] = 0
total_length (c ∷ cs) = length c.content + total_length cs

module _ (arithmetic : Arithmetic) where
  open arithmetic use {Number, share, quotient}

  abbrev pub result_of :
      TemplateDocument → ChunkingStrategy → Option (List TextChunk) → Option (ChunkingResult Number)
  result_of template strategy none = none
  result_of template strategy (some chunks) = some (record {
    chunks = chunks;
    original_length = length template.content;
    total_chunks = length chunks;
    average_chunk_size = quotient (total_length chunks) (length chunks);
    strategy = strategy;
  })

  -- None where the rounds of the loop of fixed size do not suffice.
  unfoldable pub chunk_template :
      ℕ → TemplateDocument → Option PartialStrategy → Option (ChunkingResult Number)
  unfolding final_strategy prepared_content create_chunks total_length
  chunk_template fuel template given =
      let strategy = final_strategy template given in
      result_of template strategy
        (create_chunks template strategy share fuel (prepared_content template strategy))

  -- `for (const template of templates)`, with what is stored in `results` before.
  unfoldable pub chunk_each :
      ℕ
      → Option PartialStrategy
      → List (String × ChunkingResult Number)
      → List TemplateDocument
      → Option (List (String × ChunkingResult Number))
  unfolding chunk_template
  chunk_each fuel given results [] = some results
  chunk_each fuel given results (t ∷ ts) = elim (chunk_template fuel t given) [
    | none ↦ none
    | some r ↦ chunk_each fuel given (insert t.id r results) ts
  ]

  unfoldable pub chunk_batch :
      ℕ
      → List TemplateDocument
      → Option PartialStrategy
      → Option (List (String × ChunkingResult Number))
  unfolding chunk_each
  chunk_batch fuel templates given = chunk_each fuel given [] templates
