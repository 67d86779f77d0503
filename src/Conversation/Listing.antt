-- ===== src/Conversation/Listing.antt =====
-- `listConversations` and `clearUserConversations` of
-- src/ai/services/conversation-memory.service.ts.
use high_throughput_notifica.Redis
use high_throughput_notifica.Conversation.{
  ConversationHistory, ConversationSummary, Memory, Runtime, delete_conversation, redis_key,
  summary_of,
}
use high_throughput_notifica.Prelude.{
  List, Option, String, [], if◌then◌else◌, length, none, some, str_eq, ℕ, ◌++◌, ◌∷◌,
}
use high_throughput_notifica.Prelude.Action.{
  Action, Outcome, failure, gets, pure, returned, threw, ◌>>=◌, ◌>>◌,
}
use high_throughput_notifica.Redis.{Client, Stored, number, value}
use high_throughput_notifica.Conversation.{outside}

module _ {X D : Type 0} (runtime : Runtime X D)
    (redis : Option (Redis.Client X (ConversationHistory D))) where
  open runtime use {sort_by_activity}

  -- The summary of a conversation of the user.
  abbrev summary_for : String → ConversationHistory D → List (ConversationSummary D)
  summary_for user_id c = if str_eq c.user_id user_id then summary_of c ∷ [] else []

  -- A stored text: none and '' are skipped, a text that does not parse and `null` throw, and a
  -- number has no user.
  abbrev read_summary :
      String
      → Option (Redis.Stored (ConversationHistory D))
      → Outcome (List (ConversationSummary D))
  read_summary user_id none = returned []
  read_summary user_id (some Redis.empty) = returned []
  read_summary user_id (some Redis.malformed) = threw (failure "Unexpected token in JSON")
  read_summary user_id (some Redis.null) =
      threw (failure "Cannot read properties of null (reading 'userId')")
  read_summary user_id (some (Redis.encoded (Redis.number n))) = returned []
  read_summary user_id (some (Redis.encoded (Redis.value c))) = returned (summary_for user_id c)

  -- The loop over the keys.
  unfoldable pub list_keys :
      Redis.Client X (ConversationHistory D)
      → String
      → List String
      → Action X (List (ConversationSummary D))
  list_keys client user_id [] = pure []
  list_keys client user_id (key ∷ keys) = do
    text ← client.get key
    here ← (λ x. (read_summary user_id text, x))
    rest ← list_keys client user_id keys
    pure (here ++ rest)

  -- The loop over the values of the map.
  unfoldable pub list_store :
      String → List (String × ConversationHistory D) → List (ConversationSummary D)
  list_store user_id [] = []
  list_store user_id ((id, c) ∷ rest) = summary_for user_id c ++ list_store user_id rest

  abbrev list_in :
      Option (Redis.Client X (ConversationHistory D))
      → String
      → Action (Memory X D) (List (ConversationSummary D))
  list_in (some client) user_id =
      outside runtime redis (do keys ← client.keys (redis_key "*"); list_keys client user_id keys)
  list_in none user_id = gets (λ s. list_store user_id s.store)

  unfoldable pub list_conversations : String → Action (Memory X D) (List (ConversationSummary D))
  list_conversations user_id = do found ← list_in redis user_id; pure (sort_by_activity found)

  -- The loop over the conversations that were listed.
  unfoldable pub delete_all : List (ConversationSummary D) → Action (Memory X D) (Unit {0})
  delete_all [] = pure tt
  delete_all (c ∷ cs) = do delete_conversation runtime redis c.conversation_id; delete_all cs

  unfoldable pub clear_user_conversations : String → Action (Memory X D) ℕ
  clear_user_conversations user_id = do
    conversations ← list_conversations user_id
    delete_all conversations
    pure (length conversations)
