-- ===== src/Chunker/FixedSize.antt =====
-- `chunkByFixedSize`: what its chunks add up to, and when its loop does not end.
use mathlib.Core.List.{append-nil}
use high_throughput_notifica.Chunker.Chunks.{
  ChunkingStrategy, TemplateDocument, TextChunk, create_single_chunk, update_totals, with_total,
}
use high_throughput_notifica.Chunker.CodeUnits.{Text, substring, tokens_in}
use high_throughput_notifica.Chunker.Splitting.{chunk_size, fixed_size_loop, overlap_size, piece}
use high_throughput_notifica.Prelude.{
  arith, length-take_lem, length-drop, take, All, List, Option, [], ap, arith, drop, length, map,
  min, none, refl, some, suc, zero, ℕ, ◌++◌, ◌+◌, ◌-◌, ◌<◌, ◌∷◌, ◌≡◌, ◌≤◌,
}
use high_throughput_notifica.Prelude.Int.{pos-+ℤ, -ℤ_parts, pos, ℤ, ◌+ℤ◌, ◌≤ℤ◌}
use high_throughput_notifica.Chunker.Splitting.{found_first}
use high_throughput_notifica.Prelude.Int.{◌-ℤ◌}
use high_throughput_notifica.Chunker.Splitting.{chunk_by_fixed_size, create_chunks, totalled}
use high_throughput_notifica.Prelude.{
  Bool-cases, drop-append, drop-drop, false, inl, inr, leb, leb→le, sym, take-append-drop, take_all,
  ◌∙◌,
}
use high_throughput_notifica.Prelude.Int.{+ℤ_parts}
use high_throughput_notifica.Prelude.{true}

-- The text that chunks of fixed size stand for, where each but the first repeats so many units.
abbrev rests : ℕ → List TextChunk → Text
rests repeated [] = []
rests repeated (c ∷ cs) = drop repeated c.content ++ rests repeated cs

abbrev pub stitched : ℕ → List TextChunk → Text
stitched repeated [] = []
stitched repeated (c ∷ cs) = c.content ++ rests repeated cs

abbrev pub FitsIn : ℕ → TextChunk → Type 0
FitsIn max_tokens c = c.metadata.token_count ≤ max_tokens

rests-with_total : (o n : ℕ) (cs : List TextChunk) → rests o (map (with_total n) cs) ≡ rests o cs
rests-with_total o n [] = refl
rests-with_total o n (c ∷ cs) = ap (◌++◌ (drop o c.content)) (rests-with_total o n cs)

stitched-update_totals :
    (o : ℕ) (cs : List TextChunk) → stitched o (update_totals cs) ≡ stitched o cs
unfolding update_totals
stitched-update_totals o [] = refl
stitched-update_totals o (c ∷ cs) = ap (◌++◌ c.content) (rests-with_total o (length (c ∷ cs)) cs)

All-with_total :
    (k n : ℕ) (cs : List TextChunk) → All (FitsIn k) cs → All (FitsIn k) (map (with_total n) cs)
All-with_total k n [] h = h
All-with_total k n (c ∷ cs) (h, hs) = (h, All-with_total k n cs hs)

module _ (template : TemplateDocument) (strategy : ChunkingStrategy) where
  -- The chunks of a loop that begins at a position.
  record Stitched (content : Text) (position : ℕ) (result : Option (List TextChunk)) : Type 0 where
    first : TextChunk
    others : List TextChunk
    ends : result ≡ some (first ∷ others)
    whole : first.content ++ rests (overlap_size template strategy) others ≡ drop position content
    long : overlap_size template strategy ≤ length first.content
    fits : All (FitsIn strategy.max_tokens) (first ∷ others)

  piece_content :
      (content : Text) (p i : ℕ)
      → (piece template strategy content (pos p) i).content
        ≡ take (min (p + chunk_size template strategy) (length content) - p) (drop p content)
  unfolding create_single_chunk substring
  piece_content content p i = rw (pos-+ℤ p (chunk_size template strategy)) refl

  piece_fits :
      (content : Text) (p i : ℕ)
      → p ≤ length content
      → FitsIn strategy.max_tokens (piece template strategy content (pos p) i)
  unfolding create_single_chunk tokens_in
  piece_fits content p i h =
      let part : Text = drop p content in
      let n : ℕ = min (p + chunk_size template strategy) (length content) - p in
      let few : length (take n part) ≤ n =
        omega (arith, length-take_lem n part (omega (arith, length-drop p content))) in
      rw (piece_content content p i) (omega (arith, few))

  next_position :
      (p : ℕ)
      → strategy.overlap_tokens < strategy.max_tokens
      → pos p +ℤ (pos (chunk_size template strategy) -ℤ pos (overlap_size template strategy))
        ≡ pos (p + (chunk_size template strategy - overlap_size template strategy))
  unfolding ◌+ℤ◌ ◌-ℤ◌
  next_position p o = ground arith

  last_round :
      (n : ℕ) (content : Text) (p i : ℕ)
      → strategy.overlap_tokens < strategy.max_tokens
      → p < length content
      → length content ≤ p + chunk_size template strategy
      → fixed_size_loop template strategy (suc n) content (pos p) i
        ≡ some (piece template strategy content (pos p) i ∷ [])
  unfolding fixed_size_loop
  last_round n content p i o l e =
      rw (next_position p o)
        (ground (arith, -ℤ_parts (pos (length content)) (pos (overlap_size template strategy))))

  other_round :
      (n : ℕ) (content : Text) (p i : ℕ)
      → strategy.overlap_tokens < strategy.max_tokens
      → p + chunk_size template strategy < length content
      → fixed_size_loop template strategy (suc n) content (pos p) i
        ≡ found_first template strategy (piece template strategy content (pos p) i) (
            fixed_size_loop template strategy n content
              (pos (p + (chunk_size template strategy - overlap_size template strategy)))
              (i + 1))
  unfolding fixed_size_loop
  other_round n content p i o l =
      rw (next_position p o)
        (ground (arith, -ℤ_parts (pos (length content)) (pos (overlap_size template strategy))))

  piece_long :
      (content : Text) (p i : ℕ)
      → strategy.overlap_tokens < strategy.max_tokens
      → p + overlap_size template strategy < length content
      → overlap_size template strategy ≤ length (piece template strategy content (pos p) i).content
  piece_long content p i o l =
      let part : Text = drop p content in
      let n : ℕ = min (p + chunk_size template strategy) (length content) - p in
      rw (piece_content content p i)
        (omega (arith, length-take_lem n part (omega (arith, length-drop p content))))

  piece_last :
      (content : Text) (p i : ℕ)
      → length content ≤ p + chunk_size template strategy
      → (piece template strategy content (pos p) i).content ≡ drop p content
  piece_last content p i e =
      piece_content content p i
      ∙ take_all (min (p + chunk_size template strategy) (length content) - p) (drop p content)
          (omega (arith, length-drop p content))

  piece_before :
      (content : Text) (p i : ℕ)
      → p + chunk_size template strategy < length content
      → (piece template strategy content (pos p) i).content
        ≡ take (chunk_size template strategy) (drop p content)
  piece_before content p i l =
      piece_content content p i ∙ ap (λ n. take n (drop p content)) (omega arith)

  -- A chunk before others, where these begin with what the chunk ends with.
  Stitched-before :
      (content : Text) (p i : ℕ) (r : Option (List TextChunk))
      → strategy.overlap_tokens < strategy.max_tokens
      → p + chunk_size template strategy < length content
      → Stitched content (p + (chunk_size template strategy - overlap_size template strategy)) r
      → Stitched content p
          (found_first template strategy (piece template strategy content (pos p) i) r)
  Stitched-before content p i r o l rest =
      let k : ℕ = chunk_size template strategy in
      let q : ℕ = overlap_size template strategy in
      record {
        first = piece template strategy content (pos p) i;
        others = rest.first ∷ rest.others;
        ends =
            ap (found_first template strategy (piece template strategy content (pos p) i))
              rest.ends;
        whole = rw (piece_before content p i l) (
            ap (◌++◌ (take k (drop p content))) (
              sym (drop-append q rest.first.content (rests q rest.others) rest.long)
              ∙ ap (drop q) rest.whole
              ∙ drop-drop q (p + (k - q)) content
              ∙ ap (λ n. drop n content) (omega arith)
              ∙ sym (drop-drop k p content))
            ∙ take-append-drop k (drop p content));
        long = piece_long content p i o (omega arith);
        fits = (piece_fits content p i (omega arith), rest.fits);
      }

  fixed_size_loop-Stitched :
      (fuel : ℕ) (content : Text) (p i : ℕ)
      → strategy.overlap_tokens < strategy.max_tokens
      → p + overlap_size template strategy < length content
      → length content < fuel + p
      → Stitched content p (fixed_size_loop template strategy fuel content (pos p) i)
  fixed_size_loop-Stitched zero content p i o l f = absurd (omega arith)
  fixed_size_loop-Stitched (suc n) content p i o l f =
      elim (Bool-cases (leb (length content) (p + chunk_size template strategy))) [
        | inl e ↦ record {
          first = piece template strategy content (pos p) i;
          others = [];
          ends = last_round n content p i o (omega arith) (ground (arith, e));
          whole = append-nil _ ∙ piece_last content p i (ground (arith, e));
          long = piece_long content p i o l;
          fits = (piece_fits content p i (omega arith), tt);
        }
        | inr e ↦
            let before : p + chunk_size template strategy < length content = ground (arith, e) in
            rw (other_round n content p i o before) (
              Stitched-before content p i _ o before (
                fixed_size_loop-Stitched n content
                  (p + (chunk_size template strategy - overlap_size template strategy)) (i + 1) o
                  (omega arith) (omega arith)))
      ]

  create_chunks_large :
      (share : ℕ → ℕ → ℕ) (fuel : ℕ) (content : Text)
      → strategy.respect_paragraph_boundaries ≡ false
      → strategy.respect_sentence_boundaries ≡ false
      → leb (tokens_in content) strategy.max_tokens ≡ false
      → create_chunks template strategy share fuel content
        ≡ totalled template strategy (fixed_size_loop template strategy fuel content (pos 0) 0)
  unfolding create_chunks chunk_by_fixed_size
  create_chunks_large share fuel content np ns e = cc

  pub create_chunks_small :
      (share : ℕ → ℕ → ℕ) (fuel : ℕ) (content : Text)
      → leb (tokens_in content) strategy.max_tokens ≡ true
      → create_chunks template strategy share fuel content
        ≡ some (create_single_chunk content template strategy 0 (pos 0) 1 ∷ [])
  unfolding create_chunks
  create_chunks_small share fuel content e = cc

  -- Where neither boundary is respected and fewer tokens overlap than a chunk may have, the loop
  -- ends, in at most as many rounds as the text has code units and one more; the chunks, each but the
  -- first without the code units that overlap, make up the text; and no chunk has more tokens than
  -- it may.
  pub create_chunks_covers :
      (share : ℕ → ℕ → ℕ) (fuel : ℕ) (content : Text)
      → strategy.respect_paragraph_boundaries ≡ false
      → strategy.respect_sentence_boundaries ≡ false
      → strategy.overlap_tokens < strategy.max_tokens
      → length content < fuel
      → (chunks : List TextChunk) × (create_chunks template strategy share fuel content
          ≡ some chunks)
        × (stitched (overlap_size template strategy) chunks ≡ content)
        × All (FitsIn strategy.max_tokens) chunks
  unfolding tokens_in create_single_chunk update_totals drop
  create_chunks_covers share fuel content np ns o f =
      elim (Bool-cases (leb (tokens_in content) strategy.max_tokens)) [
        | inl e ↦ (
          create_single_chunk content template strategy 0 (pos 0) 1 ∷ [],
          create_chunks_small share fuel content e,
          append-nil content,
          (leb→le (tokens_in content) strategy.max_tokens e, tt),
        )
        | inr e ↦
            let r = fixed_size_loop-Stitched fuel content 0 0 o (ground (arith, e)) (omega arith) in
            let all : List TextChunk = r.first ∷ r.others in
            (
              update_totals all,
              create_chunks_large share fuel content np ns e
                  ∙ ap (totalled template strategy) r.ends,
              stitched-update_totals (overlap_size template strategy) all ∙ r.whole,
              All-with_total strategy.max_tokens (length all) all r.fits,
            )
      ]

  fixed_size_loop_endless :
      (fuel : ℕ) (content : Text) (position : ℤ) (i : ℕ)
      → strategy.max_tokens ≤ strategy.overlap_tokens
      → chunk_size template strategy < length content
      → position ≤ℤ pos 0
      → fixed_size_loop template strategy fuel content position i ≡ none
  unfolding fixed_size_loop
  fixed_size_loop_endless zero content position i o l p = refl
  fixed_size_loop_endless (suc n) content position i o l p =
      let k : ℤ = pos (chunk_size template strategy) in
      let q : ℤ = pos (overlap_size template strategy) in
      let later =
        fixed_size_loop_endless n content (position +ℤ (k -ℤ q)) (i + 1) o l
          (omega (arith, +ℤ_parts position (k -ℤ q), -ℤ_parts k q)) in
      rw later (
        ground (arith, +ℤ_parts position (k -ℤ q), -ℤ_parts k q, -ℤ_parts (pos (length content)) q))

  -- Where at least as many tokens overlap as a chunk may have, and the text does not fit into one
  -- chunk, the loop does not end, however many rounds it makes.
  pub create_chunks_endless :
      (share : ℕ → ℕ → ℕ) (fuel : ℕ) (content : Text)
      → strategy.respect_paragraph_boundaries ≡ false
      → strategy.respect_sentence_boundaries ≡ false
      → strategy.max_tokens ≤ strategy.overlap_tokens
      → strategy.max_tokens < tokens_in content
      → create_chunks template strategy share fuel content ≡ none
  unfolding tokens_in
  create_chunks_endless share fuel content np ns o l =
      create_chunks_large share fuel content np ns (ground arith)
      ∙ ap (totalled template strategy)
          (fixed_size_loop_endless fuel content (pos 0) 0 o (omega arith) (omega arith))
