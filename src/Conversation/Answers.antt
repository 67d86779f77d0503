-- ===== src/Conversation/Answers.antt =====
-- When `addTurn` returns, where the conversations are kept in memory.
use high_throughput_notifica.Conversation.{
  ConversationHistory, ConversationTurn, Memory, Runtime, add_turn, get_conversation,
  save_conversation,
}
use high_throughput_notifica.Prelude.{String, concat, lookup, none, ◌≡◌, ◌⊎◌}
use high_throughput_notifica.Prelude.Action.{failure, returned, threw}
use high_throughput_notifica.Conversation.{prune_if_necessary, push_turn}
use high_throughput_notifica.Conversation.Reachable.{Added, Sound, add_turn-Added}
use high_throughput_notifica.Conversation.Storage.{in_memory}
use high_throughput_notifica.Prelude.{Option-cases, arith, inl, inr, insert}

-- With the conversations in memory, each stored under its id and within the limits, `addTurn` under
-- the id of a conversation returns it, extended by the turn with a time stamp and pruned, and has
-- stored it so in its place, all others as they were; where there is none under the id, it throws
-- "not found" and changes nothing.
pub add_turn_answers :
    {X D : Type 0} (runtime : Runtime X D) (id : String) (turn : ConversationTurn D)
    (s : Memory X D)
    → Sound {runtime = runtime} in_memory s
    → ((lookup id s.store ≡ none)
        × (add_turn runtime none id turn s
            ≡ (threw (failure (concat "Conversation " (concat id " not found"))), s)))
      ⊎ ((c' : ConversationHistory D) × (s' : Memory X D) × (add_turn runtime none id turn s
            ≡ (returned c', s'))
          × Added {runtime = runtime} in_memory id turn s c' s')
unfolding add_turn get_conversation save_conversation
add_turn_answers {X} {D} runtime id turn s sound =
    let stamp : String = runtime.iso (runtime.now s.world).0 in
    let x : X = (runtime.now s.world).1 in
    let active : String = runtime.iso (runtime.now x).0 in
    elim (Option-cases (lookup id s.store)) [
      | inl e ↦ inl (e, ground (arith, e))
      | inr (c, e) ↦
          let new : ConversationHistory D = prune_if_necessary (push_turn stamp active turn c) in
          let s' : Memory X D = record {
            store = insert new.conversation_id new s.store;
            world = (runtime.now x).1;
          } in
          let done : add_turn runtime none id turn s ≡ (returned new, s') = ground (arith, e) in
          inr (new, s', done, add_turn-Added in_memory id turn s new s' sound done)
    ]
