-- ===== src/Chunker/Chunks.antt =====
-- The data of src/vector-db/services/text-processing/text-chunker.service.ts and of
-- src/vector-db/interfaces/chunk.interface.ts, and how one chunk is made. Templates have the fields
-- that the service reads; the times that it stores in its results are left out.
use high_throughput_notifica.Chunker.CodeUnits.{Text, contains, is_mark, tokens_in, trim}
use high_throughput_notifica.Chunker.Patterns.{has_call_to_action, extract_variables}
use high_throughput_notifica.Prelude.{
  Bool, List, Option, String, [], concat, decimal, false, if◌then◌else◌, length, ltb, map, none,
  some, str_eq, true, ℕ, ◌&&◌, ◌+◌, ◌==◌, ◌∷◌,
}
use high_throughput_notifica.Prelude.Int.{pos, ℤ, ◌+ℤ◌}

pub data ChunkType : Type 0 where
  micro macro mega custom : ChunkType

pub data Completeness : Type 0 where
  complete partial_start partial_middle partial_end : Completeness

pub record TemplateMetadata : Type 0 where
  pub channel : String
  pub type : String
  pub category : Option String
  pub tags : Option (List String)
  pub subject : Option Text
  pub tone : Option String
  pub language : Option String

pub record TemplateDocument : Type 0 where
  pub id : String
  pub content : Text
  pub metadata : TemplateMetadata

pub record ChunkMetadata : Type 0 where
  pub template_id : String
  pub chunk_index : ℕ
  pub total_chunks : ℕ
  pub chunk_type : ChunkType
  pub token_count : ℕ
  pub character_count : ℕ
  pub start_offset : ℤ
  pub end_offset : ℤ
  pub inherited : TemplateMetadata
  pub has_subject : Bool
  pub has_call_to_action : Bool
  pub has_personalization : Bool
  pub variables : List Text
  pub completeness : Completeness
  pub sentence_complete : Bool

pub record TextChunk : Type 0 where
  pub id : String
  pub content : Text
  pub metadata : ChunkMetadata

pub record ChunkingStrategy : Type 0 where
  pub type : ChunkType
  pub max_tokens : ℕ
  pub overlap_tokens : ℕ
  pub overlap_percentage : ℕ
  pub respect_sentence_boundaries : Bool
  pub respect_paragraph_boundaries : Bool
  pub include_subject_in_chunks : Bool

-- `Partial<ChunkingStrategy>`: a field that is given holds a value.
pub record PartialStrategy : Type 0 where
  pub type : Option ChunkType
  pub max_tokens : Option ℕ
  pub overlap_tokens : Option ℕ
  pub overlap_percentage : Option ℕ
  pub respect_sentence_boundaries : Option Bool
  pub respect_paragraph_boundaries : Option Bool
  pub include_subject_in_chunks : Option Bool

-- A field that is missing is read as `false` by the only test of it.
unfoldable pub default_strategy : ChunkType → ChunkingStrategy
default_strategy micro = record {
  type = micro;
  max_tokens = 100;
  overlap_tokens = 10;
  overlap_percentage = 10;
  respect_sentence_boundaries = true;
  respect_paragraph_boundaries = false;
  include_subject_in_chunks = true;
}
default_strategy macro = record {
  type = macro;
  max_tokens = 500;
  overlap_tokens = 50;
  overlap_percentage = 10;
  respect_sentence_boundaries = true;
  respect_paragraph_boundaries = true;
  include_subject_in_chunks = false;
}
default_strategy mega = record {
  type = mega;
  max_tokens = 1500;
  overlap_tokens = 150;
  overlap_percentage = 10;
  respect_sentence_boundaries = true;
  respect_paragraph_boundaries = true;
  include_subject_in_chunks = false;
}
default_strategy custom = record {
  type = custom;
  max_tokens = 300;
  overlap_tokens = 30;
  overlap_percentage = 10;
  respect_sentence_boundaries = true;
  respect_paragraph_boundaries = false;
  include_subject_in_chunks = false;
}

abbrev given_or {ℓ} : {A : Type ℓ} → Option A → A → A
given_or none b = b
given_or (some a) b = a

-- `{ ...defaults, ...strategy }`
unfoldable pub merge_strategy : ChunkingStrategy → PartialStrategy → ChunkingStrategy
merge_strategy d p = record {
  type = given_or p.type d.type;
  max_tokens = given_or p.max_tokens d.max_tokens;
  overlap_tokens = given_or p.overlap_tokens d.overlap_tokens;
  overlap_percentage = given_or p.overlap_percentage d.overlap_percentage;
  respect_sentence_boundaries =
      given_or p.respect_sentence_boundaries d.respect_sentence_boundaries;
  respect_paragraph_boundaries =
      given_or p.respect_paragraph_boundaries d.respect_paragraph_boundaries;
  include_subject_in_chunks = given_or p.include_subject_in_chunks d.include_subject_in_chunks;
}

unfoldable pub select_optimal_strategy : TemplateDocument → ChunkType
unfolding tokens_in
select_optimal_strategy template =
    let token_count = tokens_in template.content in
    if str_eq template.metadata.channel "sms"
    then micro
    else if str_eq template.metadata.channel "push"
    then micro
    else if str_eq template.metadata.channel "email"
    then (if str_eq template.metadata.type "TRANSACTIONAL" && ltb token_count 200
        then macro
        else if str_eq template.metadata.type "MARKETING" && ltb 800 token_count
        then mega
        else macro)
    else macro

abbrev ends_in_mark : Text → Bool
ends_in_mark [] = false
ends_in_mark (c ∷ []) = is_mark c
ends_in_mark (c ∷ d ∷ s) = ends_in_mark (d ∷ s)

-- `metadata.subject || ''`
abbrev pub subject_text : TemplateDocument → Text
subject_text template = given_or template.metadata.subject []

unfoldable pub completeness_of : ℕ → ℕ → Completeness
completeness_of chunk_index total_chunks =
    if ltb 1 total_chunks
    then (if chunk_index == 0
        then partial_start
        else if chunk_index + 1 == total_chunks
        then partial_end
        else partial_middle)
    else complete

unfoldable pub create_single_chunk :
    Text → TemplateDocument → ChunkingStrategy → ℕ → ℤ → ℕ → TextChunk
unfolding tokens_in trim contains extract_variables has_call_to_action completeness_of
create_single_chunk content template strategy chunk_index start_offset total_chunks =
    let variables = extract_variables content in
    record {
      id = concat template.id (concat "_chunk_" (decimal chunk_index));
      content = content;
      metadata = record {
        template_id = template.id;
        chunk_index = chunk_index;
        total_chunks = total_chunks;
        chunk_type = strategy.type;
        token_count = tokens_in content;
        character_count = length content;
        start_offset = start_offset;
        end_offset = start_offset +ℤ pos (length content);
        inherited = template.metadata;
        has_subject = contains (subject_text template) content;
        has_call_to_action = has_call_to_action content;
        has_personalization = ltb 0 (length variables);
        variables = variables;
        completeness = completeness_of chunk_index total_chunks;
        sentence_complete = ends_in_mark (trim content);
      };
    }

abbrev pub with_total : ℕ → TextChunk → TextChunk
with_total n chunk = record chunk { metadata = record chunk.metadata { total_chunks = n } }

-- The last step of each way to chunk: the number of chunks is noted in each of them.
unfoldable pub update_totals : List TextChunk → List TextChunk
update_totals chunks = map (with_total (length chunks)) chunks
