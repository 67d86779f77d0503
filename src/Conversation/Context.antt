-- ===== src/Conversation/Context.antt =====
-- `getRecentContext` of src/ai/services/conversation-memory.service.ts: the last turns of a
-- conversation as the text of a prompt, each under its number.
use high_throughput_notifica.Redis
use high_throughput_notifica.Conversation.{
  ConversationHistory, ConversationTurn, Memory, Runtime, as_history, get_conversation, parsed,
}
use high_throughput_notifica.Prelude.{
  List, Option, String, [], concat, int_text, join, length, map, none, slice_last, some, ℕ, ◌+◌,
  ◌∷◌,
}
use high_throughput_notifica.Prelude.Action.{Action, pure, ◌>>=◌}
use high_throughput_notifica.Prelude.Int.{sub_nat, ℤ}
use high_throughput_notifica.Redis.{Client}
use high_throughput_notifica.Prelude.{
  arith, drop, get_elem?, get_elem?-drop, suc, sym, zero, ◌-◌, ◌<◌, ◌↔◌, ◌∙◌, ◌≡◌, ◌≤◌,
}
use high_throughput_notifica.Prelude.Int.{pos}
use high_throughput_notifica.Redis.{number}

abbrev answer_lines : Option String → List String
answer_lines none = []
answer_lines (some String.[]) = []
answer_lines (some (String.◌∷◌ c s)) = "**Assistant:**" ∷ String.◌∷◌ c s ∷ "" ∷ []

module _ {D : Type 0} where
  -- The turns from the index on, with the numbers that they are shown under: `total` is the number
  -- of turns of the conversation, and `max_turns` how many were asked for.
  unfoldable pub numbered_from :
      ℕ → ℕ → ℕ → List (ConversationTurn D) → List (ℤ × ConversationTurn D)
  numbered_from total asked index [] = []
  numbered_from total asked index (t ∷ ts) =
      (sub_nat (total + index + 1) asked, t) ∷ numbered_from total asked (index + 1) ts

  -- `conversation.turns.slice(-maxTurns).map(...)`
  unfoldable pub numbered_turns : ℕ → List (ConversationTurn D) → List (ℤ × ConversationTurn D)
  unfolding numbered_from
  numbered_turns asked turns = numbered_from (length turns) asked 0 (slice_last asked turns)

  unfoldable pub turn_text : ℤ × ConversationTurn D → String
  turn_text (n, t) = join "\n" (
      concat "## Turn " (int_text n)
      ∷ ""
      ∷ "**User:**"
      ∷ t.user_query
      ∷ ""
      ∷ answer_lines t.assistant_response)

  abbrev context_of : ℕ → Option (ConversationHistory D) → String
  context_of asked none = ""
  context_of asked (some c) = join "\n" (map turn_text (numbered_turns asked c.turns))

  get_elem?-numbered_from :
      (total asked index : ℕ) (ts : List (ConversationTurn D)) (i : ℕ) (n : ℤ)
      (t : ConversationTurn D)
      → get_elem? (numbered_from total asked index ts) i ≡ some (n, t)
      → (get_elem? ts i ≡ some t) × (n ≡ sub_nat (total + (index + i) + 1) asked)
  unfolding numbered_from
  get_elem?-numbered_from total asked index [] i n t h = absurd (ground arith)
  get_elem?-numbered_from total asked index (u ∷ ts) zero n t h = (ground arith, ground arith)
  get_elem?-numbered_from total asked index (u ∷ ts) (suc i) n t h =
      let (found, shown) = get_elem?-numbered_from total asked (index + 1) ts i n t h in
      (found, ground (arith, shown))

  -- Where some turns are asked for, the i-th turn that is shown is the turn at the index that many
  -- from the end, or at the index i if there are fewer; and its number is its place in the
  -- conversation, counted from 1, exactly if the conversation has as many turns as were asked for.
  pub numbered_turns_iff :
      (asked : ℕ) (turns : List (ConversationTurn D)) (i : ℕ) (n : ℤ) (t : ConversationTurn D)
      → 0 < asked
      → get_elem? (numbered_turns asked turns) i ≡ some (n, t)
      → (get_elem? turns (length turns - asked + i) ≡ some t)
        × ((n ≡ pos (length turns - asked + i + 1)) ↔ (asked ≤ length turns))
  unfolding numbered_turns
  numbered_turns_iff (suc a) turns i n t p h =
      let (found, shown) =
        get_elem?-numbered_from (length turns) (suc a) 0 (drop (length turns - suc a) turns) i n t
          h in
      (
        sym (get_elem?-drop (length turns - suc a) i turns) ∙ found,
        (λ e. ground (arith, shown, e), λ q. ground (arith, shown, q)),
      )
  numbered_turns_iff zero turns i n t p h = absurd (omega arith)

module _ {X D : Type 0} (runtime : Runtime X D)
    (redis : Option (Redis.Client X (ConversationHistory D))) where
  -- A conversation without turns gives '', which is what joining no texts gives.
  unfoldable pub get_recent_context : String → ℕ → Action (Memory X D) String
  get_recent_context id asked = do
    found ← get_conversation runtime redis id
    c ← parsed runtime redis (as_history "length" found)
    pure (context_of asked c)
