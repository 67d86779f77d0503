-- ===== src/Chunker/Splitting.antt =====
-- How src/vector-db/services/text-processing/text-chunker.service.ts splits a template into chunks.
-- The rounded product of doubles that says how many sentences overlap is a parameter.
use high_throughput_notifica.Chunker.Chunks.{
  ChunkingStrategy, TemplateDocument, TextChunk, create_single_chunk, update_totals,
}
use high_throughput_notifica.Chunker.CodeUnits.{
  Text, ascii, is_empty, join_units, split_into_paragraphs, split_into_sentences, substring,
  tokens_in, trim,
}
use high_throughput_notifica.Prelude.{
  List, Option, [], if◌then◌else◌, leb, length, ltb, min, none, slice_last, some, suc, zero, ℕ,
  ◌&&◌, ◌*◌, ◌++◌, ◌+◌, ◌-◌, ◌∷◌,
}
use mathlib.Core.List.{reverse}
use high_throughput_notifica.Prelude.Int.{leb_int, ltb_ℤ, pos, pos_part, ℤ, ◌+ℤ◌, ◌-ℤ◌}

module _ (template : TemplateDocument) (strategy : ChunkingStrategy) where
  abbrev pub chunk_size : ℕ
  chunk_size = strategy.max_tokens * 4

  abbrev pub overlap_size : ℕ
  overlap_size = strategy.overlap_tokens * 4

  -- The piece of the text from the position on. A position below 0 counts as 0.
  abbrev pub piece : Text → ℤ → ℕ → TextChunk
  piece content position chunk_index =
      create_single_chunk
        (substring (pos_part position)
          (min (pos_part (position +ℤ pos chunk_size)) (length content)) content)
        template strategy chunk_index position 0

  abbrev pub found_first {ℓ} : {A : Type ℓ} → A → Option (List A) → Option (List A)
  found_first a none = none
  found_first a (some l) = some (a ∷ l)

  -- The `while` loop of `chunkByFixedSize` from a position on, on the number of rounds left: none
  -- where they do not suffice.
  unfoldable pub fixed_size_loop : ℕ → Text → ℤ → ℕ → Option (List TextChunk)
  unfolding substring
  fixed_size_loop zero content position chunk_index = none
  fixed_size_loop (suc n) content position chunk_index =
      let next_position = position +ℤ (pos chunk_size -ℤ pos overlap_size) in
      let chunk = piece content position chunk_index in
      let more = found_first chunk (fixed_size_loop n content next_position (chunk_index + 1)) in
      if ltb_ℤ position (pos (length content))
      then (if leb_int (pos (length content) -ℤ pos overlap_size) next_position
          then some (chunk ∷ [])
          else more)
      else some []

  abbrev pub totalled : Option (List TextChunk) → Option (List TextChunk)
  totalled none = none
  totalled (some chunks) = some (update_totals chunks)

  unfoldable pub chunk_by_fixed_size : ℕ → Text → Option (List TextChunk)
  unfolding fixed_size_loop
  chunk_by_fixed_size fuel content = totalled (fixed_size_loop fuel content (pos 0) 0)

  -- What the loop of `getOverlapText` keeps of the sentences, the last one first, when it has
  -- counted some tokens.
  unfoldable pub overlap_sentences : ℕ → List Text → List Text → List Text
  overlap_sentences counted kept [] = kept
  overlap_sentences counted kept (s ∷ ss) =
      let more = overlap_sentences (counted + tokens_in s) (s ∷ kept) ss in
      if ltb strategy.overlap_tokens (counted + tokens_in s) then kept else more

  unfoldable pub get_overlap_text : Text → Text
  unfolding overlap_sentences
  get_overlap_text text =
      join_units (ascii " ") (overlap_sentences 0 [] (reverse (split_into_sentences text)))

  module _ (share : ℕ → ℕ → ℕ) where
    -- The variables of `chunkBySentences`; the offset only grows.
    pub record SentenceState : Type 0 where
      pub chunks : List TextChunk
      pub current : List Text
      pub tokens : ℕ
      pub index : ℕ
      pub start : ℕ

    abbrev pub words_of : List Text → Text
    words_of = join_units (ascii " ")

    -- The current chunk is closed, and its last sentences are kept. `share n p` is
    -- `Math.ceil(n * (p / 100))`.
    unfoldable pub flush_sentences : SentenceState → SentenceState
    flush_sentences s =
        let text = words_of s.current in
        let kept = slice_last (share (length s.current) strategy.overlap_percentage) s.current in
        record {
          chunks =
              s.chunks ++ create_single_chunk text template strategy s.index (pos s.start) 0 ∷ [];
          current = kept;
          tokens = tokens_in (words_of kept);
          index = s.index + 1;
          start = s.start + (length text - length (words_of kept));
        }

    abbrev pub push_sentence : Text → SentenceState → SentenceState
    push_sentence sentence s = record s {
      current = s.current ++ sentence ∷ [];
      tokens = s.tokens + tokens_in sentence;
    }

    unfoldable pub sentence_loop : List Text → SentenceState → SentenceState
    unfolding flush_sentences
    sentence_loop [] s = s
    sentence_loop (sentence ∷ rest) s = sentence_loop rest (
        push_sentence sentence (
          if ltb strategy.max_tokens (s.tokens + tokens_in sentence) && ltb 0 (length s.current)
          then flush_sentences s
          else s))

    -- The last chunk.
    abbrev pub close_sentences : SentenceState → List TextChunk
    close_sentences s =
        if ltb 0 (length s.current)
        then s.chunks
          ++ create_single_chunk (words_of s.current) template strategy s.index (pos s.start) 0 ∷ []
        else s.chunks

    abbrev pub no_sentences : SentenceState
    no_sentences = record { chunks = []; current = []; tokens = 0; index = 0; start = 0 }

    unfoldable pub chunk_by_sentences : Text → List TextChunk
    unfolding sentence_loop
    chunk_by_sentences content =
        update_totals (close_sentences (sentence_loop (split_into_sentences content) no_sentences))

    -- The variables of `chunkByParagraphs`.
    pub record ParagraphState : Type 0 where
      pub chunks : List TextChunk
      pub current : Text
      pub tokens : ℕ
      pub index : ℕ
      pub start : ℕ

    unfoldable pub flush_paragraphs : ParagraphState → ParagraphState
    flush_paragraphs s = if is_empty s.current then s else record s {
      chunks =
          s.chunks
          ++ create_single_chunk (trim s.current) template strategy s.index (pos s.start) 0 ∷ [];
      index = s.index + 1;
    }

    abbrev pub after_break : Text → Text → Text
    after_break front paragraph =
        if is_empty front then paragraph else front ++ ascii "\n\n" ++ paragraph

    -- A paragraph that is too large for a chunk.
    unfoldable pub large_paragraph : Text → ParagraphState → ParagraphState
    unfolding flush_paragraphs chunk_by_sentences
    large_paragraph paragraph s =
        let flushed = flush_paragraphs s in
        record flushed {
          chunks = flushed.chunks ++ chunk_by_sentences paragraph;
          current = [];
          tokens = if is_empty s.current then s.tokens else 0;
          start = s.start + (length paragraph + 2);
        }

    abbrev pub join_paragraph : Text → ParagraphState → ParagraphState
    join_paragraph paragraph s = record s {
      current = after_break s.current paragraph;
      tokens = s.tokens + tokens_in paragraph;
    }

    -- A new chunk, which begins with the overlap of the one before.
    unfoldable pub begin_paragraph : Text → ParagraphState → ParagraphState
    unfolding flush_paragraphs get_overlap_text
    begin_paragraph paragraph s =
        let current = after_break (get_overlap_text s.current) paragraph in
        record (flush_paragraphs s) {
          current = current;
          tokens = tokens_in current;
          start = s.start + (length current - length paragraph);
        }

    unfoldable pub paragraph_loop : List Text → ParagraphState → ParagraphState
    unfolding large_paragraph begin_paragraph
    paragraph_loop [] s = s
    paragraph_loop (paragraph ∷ rest) s = paragraph_loop rest (
        if ltb strategy.max_tokens (tokens_in paragraph)
        then large_paragraph paragraph s
        else if leb (s.tokens + tokens_in paragraph) strategy.max_tokens
        then join_paragraph paragraph s
        else begin_paragraph paragraph s)

    unfoldable pub chunk_by_paragraphs : Text → List TextChunk
    unfolding paragraph_loop flush_paragraphs
    chunk_by_paragraphs content =
        let start : ParagraphState = record {
          chunks = [];
          current = [];
          tokens = 0;
          index = 0;
          start = 0;
        } in
        update_totals
          (flush_paragraphs (paragraph_loop (split_into_paragraphs content) start)).chunks

    unfoldable pub create_chunks : ℕ → Text → Option (List TextChunk)
    unfolding chunk_by_paragraphs chunk_by_sentences chunk_by_fixed_size
    create_chunks fuel content =
        if leb (tokens_in content) strategy.max_tokens
        then some (create_single_chunk content template strategy 0 (pos 0) 1 ∷ [])
        else if strategy.respect_paragraph_boundaries
        then some (chunk_by_paragraphs content)
        else if strategy.respect_sentence_boundaries
        then some (chunk_by_sentences content)
        else chunk_by_fixed_size fuel content
