-- ===== src/Chunker/Sentences.antt =====
-- `chunkBySentences`: which sentences its chunks hold.
use mathlib.Core.Path.{subst}
use mathlib.Core.List.{append-nil, append_assoc}
use high_throughput_notifica.Chunker.Chunks.{
  ChunkingStrategy, TemplateDocument, TextChunk, create_single_chunk,
}
use high_throughput_notifica.Chunker.CodeUnits.{Text}
use high_throughput_notifica.Chunker.Splitting.{
  SentenceState, close_sentences, flush_sentences, sentence_loop, words_of,
}
use high_throughput_notifica.Prelude.{
  take, List, [], length, map, refl, slice_last, suc, sym, take-append-drop, zero, ℕ, ◌++◌, ◌-◌,
  ◌<◌, ◌∷◌, ◌≡◌,
}
use high_throughput_notifica.Chunker.Chunks.{update_totals, with_total}
use high_throughput_notifica.Chunker.CodeUnits.{split_into_sentences, tokens_in}
use high_throughput_notifica.Chunker.Splitting.{chunk_by_sentences, no_sentences, push_sentence}
use high_throughput_notifica.Prelude.{
  Bool-cases, ap, arith, false, inl, inr, length-append, ltb, lt→ltb, ◌&&◌, ◌+◌, ◌∙◌,
}
use high_throughput_notifica.Prelude.{if◌then◌else◌}
use high_throughput_notifica.Prelude.{Bool, true}

-- A list that ends a list.
abbrev pub Ends {ℓ} : {A : Type ℓ} → List A → List A → Type ℓ
Ends {A = A} part whole = (front : List A) × (whole ≡ front ++ part)

-- Groups of a list in its order, each of which begins with an end of the group before: the first
-- one begins with what is carried.
pub data Overlapping {ℓ} {A : Type ℓ} : List A → List (List A) → List A → Type ℓ where
  last_group :
      (carried added group : List A)
      → group ≡ carried ++ added
      → Overlapping carried (group ∷ []) added
  next_group :
      (carried added group kept rest : List A) (groups : List (List A)) (all : List A)
      → group ≡ carried ++ added
      → Ends kept group
      → Overlapping kept groups rest
      → all ≡ added ++ rest
      → Overlapping carried (group ∷ groups) all

slice_last-Ends {ℓ} : {A : Type ℓ} (n : ℕ) (l : List A) → Ends (slice_last n l) l
slice_last-Ends zero l = ([], refl)
slice_last-Ends (suc n) l = (take (length l - suc n) l, sym (take-append-drop (length l - suc n) l))

module _ (template : TemplateDocument) (strategy : ChunkingStrategy) (share : ℕ → ℕ → ℕ) where
  abbrev contents : List TextChunk → List Text
  contents chunks = map (λ c. c.content) chunks

  contents-append : (cs ds : List TextChunk) → contents (cs ++ ds) ≡ contents cs ++ contents ds
  contents-append [] ds = refl
  contents-append (c ∷ cs) ds = ap (◌∷◌ c.content) (contents-append cs ds)

  abbrev words : List Text → Text
  words = words_of template strategy share

  -- What a loop that ends in a state adds to the texts of the chunks: the groups of the sentences.
  abbrev Adds : List Text → SentenceState template strategy share → List Text → List Text → Type 0
  Adds before s carried added =
      (groups : List (List Text)) × (contents (close_sentences template strategy share s)
        ≡ before ++ map words groups)
      × Overlapping carried groups added

  close_sentences-Adds :
      (s : SentenceState template strategy share) (carried added : List Text)
      → s.current ≡ carried ++ added
      → 0 < length s.current
      → Adds (contents s.chunks) s carried added
  unfolding create_single_chunk
  close_sentences-Adds s carried added e p = (
    s.current ∷ [],
    rw (lt→ltb 0 (length s.current) p) (contents-append s.chunks _),
    last_group carried added s.current e,
  )

  -- One round, when the test of whether the current chunk is closed is known.
  Adds-round :
      (before carried added : List Text) (x : Text) (ss : List Text)
      (s : SentenceState template strategy share) (b : Bool)
      → (ltb strategy.max_tokens (s.tokens + tokens_in x) && ltb 0 (length s.current)) ≡ b
      → let flushed = if b then flush_sentences template strategy share s else s in
        Adds before
          (sentence_loop template strategy share ss
            (push_sentence template strategy share x flushed))
          carried
          added
        → Adds before (sentence_loop template strategy share (x ∷ ss) s) carried added
  unfolding sentence_loop
  Adds-round before carried added x ss s b e h =
      subst
        (λ (c : Bool).
          Adds before
            (sentence_loop template strategy share ss (
              push_sentence template strategy share x
                (if c then flush_sentences template strategy share s else s)))
            carried added)
        (sym e) h

  sentence_loop-Adds :
      (ss : List Text) (s : SentenceState template strategy share) (carried added : List Text)
      → s.current ≡ carried ++ added
      → 0 < length s.current
      → Adds (contents s.chunks) (sentence_loop template strategy share ss s) carried (added ++ ss)
  unfolding sentence_loop flush_sentences create_single_chunk
  sentence_loop-Adds [] s carried added e p =
      close_sentences-Adds s carried (added ++ []) (e ∙ ap (◌++◌ carried) (sym (append-nil added)))
        p
  sentence_loop-Adds (x ∷ ss) s carried added e p =
      elim (Bool-cases
        (ltb strategy.max_tokens (s.tokens + tokens_in x) && ltb 0 (length s.current))) [
          | inl full ↦
              let kept : List Text =
                slice_last (share (length s.current) strategy.overlap_percentage) s.current in
              let (groups, same, overlap) =
                sentence_loop-Adds ss
                  (push_sentence template strategy share x
                    (flush_sentences template strategy share s))
                  kept (x ∷ []) refl (omega (arith, length-append {0} kept (x ∷ []))) in
              Adds-round (contents s.chunks) carried (added ++ x ∷ ss) x ss s true full (
                s.current ∷ groups,
                same
                    ∙ ap (λ l. l ++ map words groups) (contents-append s.chunks _)
                    ∙ append_assoc (contents s.chunks) (words s.current ∷ []) (map words groups),
                next_group carried added s.current kept (x ∷ ss) groups (added ++ x ∷ ss) e
                    (slice_last-Ends (share (length s.current) strategy.overlap_percentage)
                      s.current)
                    overlap refl,
              )
          | inr room ↦
              let (groups, same, overlap) =
                sentence_loop-Adds ss (push_sentence template strategy share x s) carried
                  (added ++ x ∷ []) (ap (λ l. l ++ x ∷ []) e ∙ append_assoc carried added (x ∷ []))
                  (omega (arith, length-append {0} s.current (x ∷ []))) in
              Adds-round (contents s.chunks) carried (added ++ x ∷ ss) x ss s false room (
                groups,
                same,
                subst (λ l. Overlapping carried groups l) (append_assoc added (x ∷ []) ss) overlap,
              )
        ]

  contents-update_totals :
      (n : ℕ) (cs : List TextChunk) → contents (map (with_total n) cs) ≡ contents cs
  contents-update_totals n [] = refl
  contents-update_totals n (c ∷ cs) = ap (◌∷◌ c.content) (contents-update_totals n cs)

  first_sentence :
      (ss : List Text)
      → 0 < length ss
      → Adds []
          (sentence_loop template strategy share ss (no_sentences template strategy share))
          []
          ss
  first_sentence [] h = absurd (omega arith)
  first_sentence (x ∷ ss) h =
      let none_yet : SentenceState template strategy share = no_sentences template strategy share in
      let first = push_sentence template strategy share x none_yet in
      let no_flush : (ltb strategy.max_tokens (0 + tokens_in x) && ltb 0 0) ≡ false =
        ground arith in
      Adds-round [] [] (x ∷ ss) x ss none_yet false no_flush
        (sentence_loop-Adds ss first [] (x ∷ []) refl (omega arith))

  -- Where a text has a sentence, the chunks by sentences are groups of its sentences, joined by
  -- spaces: together they hold all the sentences in their order, each group but the first begins with
  -- an end of the group before, and what it adds to that are the sentences that follow.
  pub chunk_by_sentences-Overlapping :
      (content : Text)
      → 0 < length (split_into_sentences content)
      → (groups : List (List Text)) × (map
            (λ c. c.content)
            (chunk_by_sentences template strategy share content)
          ≡ map (words_of template strategy share) groups)
        × Overlapping [] groups (split_into_sentences content)
  unfolding chunk_by_sentences update_totals
  chunk_by_sentences-Overlapping content h =
      let (groups, same, overlap) = first_sentence (split_into_sentences content) h in
      (groups, contents-update_totals _ _ ∙ same, overlap)
