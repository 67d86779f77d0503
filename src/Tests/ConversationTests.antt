-- ===== src/Tests/ConversationTests.antt =====
-- A conversation in memory.
use high_throughput_notifica.Conversation.{Runtime}
use high_throughput_notifica.Conversation.{
  ConversationHistory, ConversationTurn, Memory, add_turn, create_conversation,
  generate_conversation_id, get_conversation, prune_if_necessary, push_turn, save_conversation,
  should_prune,
}
use high_throughput_notifica.Conversation.Answers.{add_turn_answers}
use high_throughput_notifica.Conversation.Context.{numbered_turns, numbered_turns_iff}
use high_throughput_notifica.Conversation.Reachable.{
  Added, Reached, Reached-Sound, Sound, add_turn-Added, adds, after, creates, untouched,
}
use high_throughput_notifica.Conversation.Storage.{Backing, in_memory, view}
use high_throughput_notifica.Prelude.{
  [], arith, decimal, drop, get_elem?, insert, lookup, none, refl, some, ℕ, ◌+◌, ◌-◌, ◌↔◌, ◌∷◌, ◌≡◌,
  ◌≤◌, ◌⊎◌,
}
use high_throughput_notifica.Prelude.Action.{Outcome, failure, returned, threw}
use high_throughput_notifica.Prelude.Int.{◌+ℤ◌, negsuc, pos}

-- The world is the clock, and the random part of an id is always the same.
abbrev runtime : Runtime ℕ (Unit {0})
runtime = record {
  now = λ x. (x, x + 1);
  iso = decimal;
  random = λ x. ("r", x);
  sort_by_activity = λ l. l;
}

abbrev turn : ConversationTurn (Unit {0})
turn = record {
  user_query = "q";
  assistant_response = some "a";
  tokens_used = some 12;
  timestamp = none;
  details = tt;
}

abbrev start : Memory ℕ (Unit {0})
start = record { store = []; world = 7 }

abbrev created : Memory ℕ (Unit {0})
created = (create_conversation runtime none "u" none start).1

abbrev turned : Outcome (ConversationHistory (Unit {0})) × Memory ℕ (Unit {0})
turned = add_turn runtime none "conv_7_r" turn created

abbrev history : ConversationHistory (Unit {0})
history = record {
  conversation_id = "conv_7_r";
  user_id = "u";
  turns = record turn { timestamp = some "10" } ∷ [];
  metadata = record {
    created_at = some "8";
    last_activity_at = some "11";
    total_turns = some 1;
    further = [];
  };
  total_tokens = pos 12;
}

abbrev kept : Backing runtime none
kept = in_memory

turned_lem : turned ≡ (returned history, turned.1)
unfolding create_conversation generate_conversation_id save_conversation insert add_turn
    get_conversation lookup push_turn prune_if_necessary should_prune decimal ◌+ℤ◌
turned_lem = refl

created-Reached : Reached kept created
unfolding create_conversation generate_conversation_id save_conversation insert decimal view lookup
created-Reached = after (untouched start (λ j. refl)) (creates "u" none "conv_7_r" refl)

add_turn-Added_example : Added kept "conv_7_r" turn created history turned.1
add_turn-Added_example =
    add_turn-Added kept "conv_7_r" turn created history turned.1
      (Reached-Sound kept created-Reached) turned_lem

Reached-Sound_example : Sound kept turned.1
Reached-Sound_example =
    Reached-Sound kept (after created-Reached (adds "conv_7_r" turn history turned_lem))

-- Five turns are asked for where there is one: it is shown as turn -3.
numbered_turns_iff_example :
    (get_elem? history.turns (1 - 5 + 0) ≡ some (record turn { timestamp = some "10" }))
    × ((negsuc 2 ≡ pos (1 - 5 + 0 + 1)) ↔ (5 ≤ 1))
unfolding numbered_turns drop
numbered_turns_iff_example =
    numbered_turns_iff 5 history.turns 0 (negsuc 2) (record turn { timestamp = some "10" })
      (omega arith) refl

add_turn_answers_example :
    ((lookup "conv_7_r" created.store ≡ none)
      × (add_turn runtime none "conv_7_r" turn created
          ≡ (threw (failure "Conversation conv_7_r not found"), created)))
    ⊎ ((c' : ConversationHistory (Unit {0})) × (s' : Memory ℕ (Unit {0})) × (add_turn runtime none
            "conv_7_r" turn created
          ≡ (returned c', s'))
        × Added kept "conv_7_r" turn created c' s')
add_turn_answers_example =
    add_turn_answers runtime "conv_7_r" turn created (Reached-Sound kept created-Reached)
