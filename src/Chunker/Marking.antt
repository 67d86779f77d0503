-- ===== src/Chunker/Marking.antt =====
-- What every chunk of a template says of itself.
use high_throughput_notifica.Chunker.Chunks.{
  ChunkingStrategy, TemplateDocument, TextChunk, complete, completeness_of, create_single_chunk,
  update_totals, with_total,
}
use high_throughput_notifica.Chunker.CodeUnits.{Text, tokens_in}
use high_throughput_notifica.Chunker.Splitting.{
  ParagraphState, SentenceState, chunk_by_sentences, fixed_size_loop, flush_paragraphs,
  paragraph_loop, sentence_loop,
}
use high_throughput_notifica.Prelude.{
  All, List, [], length, length-map, map, refl, some, ℕ, ◌++◌, ◌∷◌, ◌≡◌,
}
use high_throughput_notifica.Prelude.Int.{pos, ℤ, ◌+ℤ◌}
use high_throughput_notifica.Chunker.CodeUnits.{
  is_empty, split_into_paragraphs, split_into_sentences,
}
use high_throughput_notifica.Chunker.Splitting.{
  begin_paragraph, chunk_by_fixed_size, chunk_by_paragraphs, chunk_size, close_sentences,
  create_chunks, flush_sentences, found_first, join_paragraph, large_paragraph, no_sentences,
  overlap_size, piece, totalled,
}
use high_throughput_notifica.Prelude.{
  Bool, Option, false, if◌then◌else◌, leb, ltb, none, suc, true, zero, ◌&&◌, ◌+◌,
}
use high_throughput_notifica.Prelude.Int.{ltb_ℤ, ◌-ℤ◌}

pub All-append {ℓ κ} :
    {A : Type ℓ} (P : A → Type κ) (xs ys : List A) → All P xs → All P ys → All P (xs ++ ys)
All-append P [] ys h k = k
All-append P (x ∷ xs) ys (h, hs) k = (h, All-append P xs ys hs k)

-- What holds on both branches.
if_holds {ℓ κ} :
    {A : Type ℓ} (P : A → Type κ) (b : Bool) (x y : A) → P x → P y → P (if b then x else y)
if_holds P true x y h k = h
if_holds P false x y h k = k

module _ (template : TemplateDocument) (strategy : ChunkingStrategy) where
  -- A chunk that was made from the template: its figures are those of its text, and it is said to
  -- be complete.
  abbrev pub Made : TextChunk → Type 0
  Made c =
      (c.metadata.template_id ≡ template.id)
      × (c.metadata.chunk_type ≡ strategy.type)
      × (c.metadata.token_count ≡ tokens_in c.content)
      × (c.metadata.end_offset ≡ c.metadata.start_offset +ℤ pos (length c.content))
      × (c.metadata.completeness ≡ complete)

  abbrev pub Numbered : ℕ → TextChunk → Type 0
  Numbered n c = (c.metadata.total_chunks ≡ n) × Made c

  All-with_total :
      (n : ℕ) (cs : List TextChunk) → All Made cs → All (Numbered n) (map (with_total n) cs)
  All-with_total n [] h = tt
  All-with_total n (c ∷ cs) (h, hs) = ((refl, h), All-with_total n cs hs)

  Numbered-Made : (n : ℕ) (cs : List TextChunk) → All (Numbered n) cs → All Made cs
  Numbered-Made n [] h = tt
  Numbered-Made n (c ∷ cs) ((e, h), hs) = (h, Numbered-Made n cs hs)

  -- The chunks of a result: each knows how many there are.
  abbrev pub Counted : List TextChunk → Type 0
  Counted cs = All (Numbered (length cs)) cs

  update_totals-Counted : (cs : List TextChunk) → All Made cs → Counted (update_totals cs)
  unfolding update_totals
  update_totals-Counted cs h =
      rw (length-map cs (with_total (length cs))) (All-with_total (length cs) cs h)

  create_single_chunk-Made :
      (content : Text) (i : ℕ) (start : ℤ)
      → Made (create_single_chunk content template strategy i start 0)
  unfolding create_single_chunk completeness_of
  create_single_chunk-Made content i start = (refl, refl, refl, refl, refl)

  abbrev MadeOf : Option (List TextChunk) → Type 0
  MadeOf none = Unit
  MadeOf (some cs) = All Made cs

  abbrev pub CountedOf : Option (List TextChunk) → Type 0
  CountedOf none = Unit
  CountedOf (some cs) = Counted cs

  found_first-Made :
      (c : TextChunk) (r : Option (List TextChunk))
      → Made c
      → MadeOf r
      → MadeOf (found_first template strategy c r)
  found_first-Made c none h k = tt
  found_first-Made c (some cs) h k = (h, k)

  fixed_size_loop-Made :
      (fuel : ℕ) (content : Text) (position : ℤ) (i : ℕ)
      → MadeOf (fixed_size_loop template strategy fuel content position i)
  unfolding fixed_size_loop
  fixed_size_loop-Made zero content position i = tt
  fixed_size_loop-Made (suc n) content position i =
      let k : ℤ = pos (chunk_size template strategy) -ℤ pos (overlap_size template strategy) in
      let more = fixed_size_loop-Made n content (position +ℤ k) (i + 1) in
      let chunk = piece template strategy content position i in
      let made : Made chunk = create_single_chunk-Made _ i position in
      if_holds MadeOf (ltb_ℤ position (pos (length content))) _ (some [])
        (if_holds MadeOf _ (some (chunk ∷ [])) _ (made, tt) (found_first-Made chunk _ made more)) tt

  totalled-Counted :
      (r : Option (List TextChunk)) → MadeOf r → CountedOf (totalled template strategy r)
  totalled-Counted none h = tt
  totalled-Counted (some cs) h = update_totals-Counted cs h

  module _ (share : ℕ → ℕ → ℕ) where
    sentence_loop-Made :
        (ss : List Text) (s : SentenceState template strategy share)
        → All Made s.chunks
        → All Made (sentence_loop template strategy share ss s).chunks
    unfolding sentence_loop flush_sentences
    sentence_loop-Made [] s h = h
    sentence_loop-Made (x ∷ ss) s h = sentence_loop-Made ss _ (
        if_holds (λ (t : SentenceState template strategy share). All Made t.chunks)
          (ltb strategy.max_tokens (s.tokens + tokens_in x) && ltb 0 (length s.current))
          (flush_sentences template strategy share s) s
          (All-append Made s.chunks _ h (create_single_chunk-Made _ s.index (pos s.start), tt)) h)

    chunk_by_sentences-Counted :
        (content : Text) → Counted (chunk_by_sentences template strategy share content)
    unfolding chunk_by_sentences
    chunk_by_sentences-Counted content =
        let s =
          sentence_loop template strategy share (split_into_sentences content)
            (no_sentences template strategy share) in
        let h =
          sentence_loop-Made (split_into_sentences content) (no_sentences template strategy share)
            tt in
        update_totals-Counted (close_sentences template strategy share s) (
          if_holds (All Made) (ltb 0 (length s.current)) _ s.chunks
            (All-append Made s.chunks _ h (create_single_chunk-Made _ s.index (pos s.start), tt)) h)

    abbrev MadeIn : ParagraphState template strategy share → Type 0
    MadeIn s = All Made s.chunks

    flush_paragraphs-Made :
        (s : ParagraphState template strategy share)
        → MadeIn s
        → MadeIn (flush_paragraphs template strategy share s)
    unfolding flush_paragraphs
    flush_paragraphs-Made s h =
        if_holds MadeIn (is_empty s.current) s _ h
          (All-append Made s.chunks _ h (create_single_chunk-Made _ s.index (pos s.start), tt))

    large_paragraph-Made :
        (x : Text) (s : ParagraphState template strategy share)
        → MadeIn s
        → MadeIn (large_paragraph template strategy share x s)
    unfolding large_paragraph
    large_paragraph-Made x s h =
        All-append Made (flush_paragraphs template strategy share s).chunks _
          (flush_paragraphs-Made s h)
          (Numbered-Made _ (chunk_by_sentences template strategy share x)
            (chunk_by_sentences-Counted x))

    paragraph_loop-Made :
        (ps : List Text) (s : ParagraphState template strategy share)
        → MadeIn s
        → MadeIn (paragraph_loop template strategy share ps s)
    unfolding paragraph_loop begin_paragraph
    paragraph_loop-Made [] s h = h
    paragraph_loop-Made (x ∷ ps) s h = paragraph_loop-Made ps _ (
        if_holds MadeIn (ltb strategy.max_tokens (tokens_in x))
          (large_paragraph template strategy share x s) _ (large_paragraph-Made x s h)
          (if_holds MadeIn (leb (s.tokens + tokens_in x) strategy.max_tokens)
            (join_paragraph template strategy share x s)
            (begin_paragraph template strategy share x s) h (flush_paragraphs-Made s h)))

    chunk_by_paragraphs-Counted :
        (content : Text) → Counted (chunk_by_paragraphs template strategy share content)
    unfolding chunk_by_paragraphs
    chunk_by_paragraphs-Counted content = update_totals-Counted _ (
        flush_paragraphs-Made _ (
          paragraph_loop-Made (split_into_paragraphs content)
            (record { chunks = []; current = []; tokens = 0; index = 0; start = 0 }) tt))

    pub create_chunks-Counted :
        (fuel : ℕ) (content : Text) → CountedOf (create_chunks template strategy share fuel content)
    unfolding create_chunks chunk_by_fixed_size create_single_chunk completeness_of
    create_chunks-Counted fuel content =
        if_holds CountedOf (leb (tokens_in content) strategy.max_tokens)
          (some (create_single_chunk content template strategy 0 (pos 0) 1 ∷ [])) _
          ((refl, (refl, refl, refl, refl, refl)), tt)
          (if_holds CountedOf strategy.respect_paragraph_boundaries
            (some (chunk_by_paragraphs template strategy share content)) _
            (chunk_by_paragraphs-Counted content)
            (if_holds CountedOf strategy.respect_sentence_boundaries
              (some (chunk_by_sentences template strategy share content)) _
              (chunk_by_sentences-Counted content)
              (totalled-Counted _ (fixed_size_loop-Made fuel content (pos 0) 0))))
