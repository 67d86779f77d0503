-- ===== src/Conversation/Pruning.antt =====
-- What pruning keeps of a conversation.
use high_throughput_notifica.Conversation.{
  ConversationHistory, ConversationTurn, max_tokens, max_turns, prune_tokens, prune_turns,
  push_turn, target_tokens, tokens_of,
}
use high_throughput_notifica.Prelude.{
  Bool-cases, List, String, [], ap, arith, inl, inr, length, ltb, refl, some, ℕ, ◌&&◌, ◌++◌, ◌+◌,
  ◌<◌, ◌∷◌, ◌≡◌, ◌≤◌, ◌⊎◌,
}
use high_throughput_notifica.Prelude.Int.{ltb_ℤ, pos, ℤ, ◌+ℤ◌, ◌-ℤ◌, ◌≤ℤ◌}
use high_throughput_notifica.Conversation.{prune_conversation, prune_if_necessary, should_prune}
use high_throughput_notifica.Prelude.{sym, ◌∙◌}
use mathlib.Core.List.{append_assoc}
use high_throughput_notifica.Prelude.{length-append}

module _ {D : Type 0} where
  -- The tokens of the turns, added up.
  unfoldable pub sum_tokens : List (ConversationTurn D) → ℕ
  sum_tokens [] = 0
  sum_tokens (t ∷ ts) = tokens_of t + sum_tokens ts

  pub sum_tokens-append :
      (ts : List (ConversationTurn D)) (t : ConversationTurn D)
      → sum_tokens (ts ++ t ∷ []) ≡ sum_tokens ts + tokens_of t
  unfolding sum_tokens
  sum_tokens-append [] t = omega arith
  sum_tokens-append (u ∷ ts) t = omega (arith, sum_tokens-append ts t)

  -- A list of turns of which a loop has kept the end: `total` is the sum of what is kept, and of
  -- some turns at least one is kept.
  pub record Kept (ts rs : List (ConversationTurn D)) (total : ℤ) : Type 0 where
    pub dropped : List (ConversationTurn D)
    pub split : ts ≡ dropped ++ rs
    pub summed : total ≡ pos (sum_tokens rs)
    pub some_left : 0 < length ts → 0 < length rs

  minus_tokens :
      (t : ConversationTurn D) (ts : List (ConversationTurn D)) (total : ℤ)
      → total ≡ pos (sum_tokens (t ∷ ts))
      → total -ℤ pos (tokens_of t) ≡ pos (sum_tokens ts)
  unfolding sum_tokens ◌-ℤ◌
  minus_tokens t ts total h = ground arith

  Kept-cons :
      {t : ConversationTurn D} {ts rs : List (ConversationTurn D)} {total : ℤ}
      → 0 < length ts
      → Kept ts rs total
      → Kept (t ∷ ts) rs total
  Kept-cons {t = t} p k = record {
    dropped = t ∷ k.dropped;
    split = ap (◌∷◌ t) k.split;
    summed = k.summed;
    some_left = λ q. k.some_left p;
  }

  Kept-all :
      (ts : List (ConversationTurn D)) (total : ℤ) → total ≡ pos (sum_tokens ts) → Kept ts ts total
  Kept-all ts total h = record { dropped = []; split = refl; summed = h; some_left = λ q. q }

  pub prune_turns-Kept :
      (ts : List (ConversationTurn D)) (total : ℤ)
      → total ≡ pos (sum_tokens ts)
      → Kept ts (prune_turns ts total).0 (prune_turns ts total).1
  unfolding prune_turns
  prune_turns-Kept [] total h = Kept-all [] total h
  prune_turns-Kept (t ∷ ts) total h = elim (Bool-cases (ltb max_turns (length (t ∷ ts)))) [
    | inl over ↦ rw over (
        Kept-cons (ground arith)
          (prune_turns-Kept ts (total -ℤ pos (tokens_of t)) (minus_tokens t ts total h)))
    | inr fits ↦ rw fits (Kept-all (t ∷ ts) total h)
  ]

  length-prune_turns :
      (ts : List (ConversationTurn D)) (total : ℤ) → length (prune_turns ts total).0 ≤ max_turns
  unfolding prune_turns
  length-prune_turns [] total = omega arith
  length-prune_turns (t ∷ ts) total =
      ground (arith, length-prune_turns ts (total -ℤ pos (tokens_of t)))

  prune_tokens-Kept :
      (ts : List (ConversationTurn D)) (total : ℤ)
      → total ≡ pos (sum_tokens ts)
      → Kept ts (prune_tokens ts total).0 (prune_tokens ts total).1
  unfolding prune_tokens
  prune_tokens-Kept [] total h = Kept-all [] total h
  prune_tokens-Kept (t ∷ ts) total h =
      elim (Bool-cases (ltb_ℤ (pos target_tokens) total && ltb 1 (length (t ∷ ts)))) [
        | inl over ↦ rw over (
            Kept-cons (ground arith)
              (prune_tokens-Kept ts (total -ℤ pos (tokens_of t)) (minus_tokens t ts total h)))
        | inr fits ↦ rw fits (Kept-all (t ∷ ts) total h)
      ]

  length-prune_tokens :
      (ts : List (ConversationTurn D)) (total : ℤ) → length (prune_tokens ts total).0 ≤ length ts
  unfolding prune_tokens
  length-prune_tokens [] total = omega arith
  length-prune_tokens (t ∷ ts) total =
      ground (arith, length-prune_tokens ts (total -ℤ pos (tokens_of t)))

  -- The loop ends at the target, or with one turn.
  prune_tokens_light :
      (ts : List (ConversationTurn D)) (total : ℤ)
      → ((prune_tokens ts total).1 ≤ℤ pos target_tokens) ⊎ (length (prune_tokens ts total).0 ≤ 1)
  unfolding prune_tokens
  prune_tokens_light [] total = inr (omega arith)
  prune_tokens_light (t ∷ ts) total =
      ground (arith, prune_tokens_light ts (total -ℤ pos (tokens_of t)))

  -- The total is the sum of the turns' tokens.
  abbrev pub Consistent : ConversationHistory D → Type 0
  Consistent c = c.total_tokens ≡ pos (sum_tokens c.turns)

  -- What the limits allow: at most 20 turns, and at most 8000 tokens unless a single turn has more.
  pub record Bounded (c : ConversationHistory D) : Type 0 where
    pub consistent : Consistent c
    pub few : length c.turns ≤ max_turns
    pub light : (sum_tokens c.turns ≤ max_tokens) ⊎ (length c.turns ≤ 1)

  -- The conversation `c'` after a turn was added to `c`: it is within the limits, its turns are the
  -- old ones and the new one without some of the oldest, the new one is among them, and none is
  -- missing if all of them are within the limits.
  pub record Extended (c : ConversationHistory D) (turn : ConversationTurn D)
      (c' : ConversationHistory D) : Type 0 where
    pub bounded : Bounded c'
    pub dropped : List (ConversationTurn D)
    pub split : c.turns ++ turn ∷ [] ≡ dropped ++ c'.turns
    pub newest : 0 < length c'.turns
    pub nothing_lost :
        length c.turns < max_turns
        → sum_tokens c.turns + tokens_of turn ≤ max_tokens
        → c'.turns ≡ c.turns ++ turn ∷ []

  push_turn-Consistent :
      (stamp active : String) (turn : ConversationTurn D) (c : ConversationHistory D)
      → Consistent c
      → Consistent (push_turn stamp active turn c)
  unfolding push_turn ◌+ℤ◌
  push_turn-Consistent stamp active turn c h =
      ground (arith, sum_tokens-append c.turns (record turn { timestamp = some stamp }))

  prune_conversation-Kept :
      (c : ConversationHistory D)
      → Consistent c
      → Kept c.turns (prune_conversation c).turns (prune_conversation c).total_tokens
  unfolding prune_conversation
  prune_conversation-Kept c h =
      let few = prune_turns c.turns c.total_tokens in
      let first = prune_turns-Kept c.turns c.total_tokens h in
      let second = prune_tokens-Kept few.0 few.1 first.summed in
      record {
        dropped = first.dropped ++ second.dropped;
        split =
            first.split
            ∙ ap (λ (l : List (ConversationTurn D)). first.dropped ++ l) second.split
            ∙ sym (append_assoc first.dropped second.dropped (prune_tokens few.0 few.1).0);
        summed = second.summed;
        some_left = λ p. second.some_left (first.some_left p);
      }

  prune_conversation-Bounded :
      (c : ConversationHistory D) → Consistent c → Bounded (prune_conversation c)
  unfolding prune_conversation
  prune_conversation-Bounded c h =
      let few = prune_turns c.turns c.total_tokens in
      let kept : Kept c.turns (prune_conversation c).turns (prune_conversation c).total_tokens =
        prune_conversation-Kept c h in
      record {
        consistent = kept.summed;
        few =
            omega
              (arith, length-prune_turns c.turns c.total_tokens, length-prune_tokens few.0 few.1);
        light = ground (arith, prune_tokens_light few.0 few.1, kept.summed);
      }

  -- What `addTurn` does to the conversation before it saves it.
  pub prune_if_necessary-Extended :
      (stamp active : String) (turn : ConversationTurn D) (c : ConversationHistory D)
      → Consistent c
      → Extended c
          (record turn { timestamp = some stamp })
          (prune_if_necessary (push_turn stamp active turn c))
  unfolding prune_if_necessary push_turn should_prune
  prune_if_necessary-Extended stamp active turn c h =
      let pushed : ConversationHistory D = push_turn stamp active turn c in
      let consistent : Consistent pushed = push_turn-Consistent stamp active turn c h in
      let more : List (ConversationTurn D) =
        c.turns ++ record turn { timestamp = some stamp } ∷ [] in
      let count : length more ≡ length c.turns + 1 =
        length-append c.turns (record turn { timestamp = some stamp } ∷ []) in
      let summed : sum_tokens more ≡ sum_tokens c.turns + tokens_of turn =
        sum_tokens-append c.turns (record turn { timestamp = some stamp }) in
      elim (Bool-cases (should_prune pushed)) [
        | inl over ↦
            let kept : Kept pushed.turns (prune_conversation pushed).turns
                (prune_conversation pushed).total_tokens =
              prune_conversation-Kept pushed consistent in
            rw over (record {
              bounded = prune_conversation-Bounded pushed consistent;
              dropped = kept.dropped;
              split = kept.split;
              newest = kept.some_left (omega (arith, count));
              nothing_lost = λ few light. ground (arith, over, consistent, count, summed);
            })
        | inr fits ↦ rw fits (record {
          bounded = record {
            consistent = consistent;
            few = ground (arith, fits);
            light = ground (arith, fits, consistent);
          };
          dropped = [];
          split = refl;
          newest = omega (arith, count);
          nothing_lost = λ few light. refl;
        })
      ]
