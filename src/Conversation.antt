-- ===== src/Conversation.antt =====
-- src/ai/services/conversation-memory.service.ts: conversations in Redis, or in the map
-- `memoryStore` where no Redis is configured. The ioredis client, the clock, Math.random(),
-- toISOString() and Array.prototype.sort are parameters. `D` are the values that the service
-- stores and never reads: sources, figures of the generation, and further metadata.
pub mod Pruning
pub mod Listing
pub mod Storage
pub mod Context
pub mod Reachable
pub mod Answers
use high_throughput_notifica.Redis
use high_throughput_notifica.Cache.{get}
use high_throughput_notifica.Prelude.{
  Bool, List, Option, String, [], concat, if◌then◌else◌, insert, length, lookup, ltb, none, some,
  suc, zero, ℕ, ◌&&◌, ◌++◌, ◌||◌, ◌∷◌,
}
use high_throughput_notifica.Prelude.Action.{
  Action, Outcome, failure, gets, modify, pure, returned, threw, throw, ◌>>=◌, ◌>>◌,
}
use high_throughput_notifica.Prelude.Int.{ltb_ℤ, pos, ℤ, ◌+ℤ◌, ◌-ℤ◌}
use high_throughput_notifica.Redis.{Client, number, value}
use high_throughput_notifica.Retry.Breaker.{Clock}
use high_throughput_notifica.Prelude.{decimal, remove}

pub record ConversationTurn (D : Type 0) : Type 0 where
  pub user_query : String
  pub assistant_response : Option String
  pub tokens_used : Option ℕ
  pub timestamp : Option String
  pub details : D

pub record ConversationMetadata (D : Type 0) : Type 0 where
  pub created_at : Option String
  pub last_activity_at : Option String
  pub total_turns : Option ℕ
  pub further : List (String × D)

pub record ConversationHistory (D : Type 0) : Type 0 where
  pub conversation_id : String
  pub user_id : String
  pub turns : List (ConversationTurn D)
  pub metadata : ConversationMetadata D
  pub total_tokens : ℤ

pub record ConversationSummary (D : Type 0) : Type 0 where
  pub conversation_id : String
  pub user_id : String
  pub total_turns : ℕ
  pub total_tokens : ℤ
  pub created_at : Option String
  pub last_activity_at : Option String
  pub metadata : ConversationMetadata D

abbrev pub max_turns : ℕ
max_turns = 20

abbrev pub max_tokens : ℕ
max_tokens = 8000

-- `this.maxTokensPerConversation * 0.5`
abbrev pub target_tokens : ℕ
target_tokens = 4000

abbrev pub conversation_ttl : ℕ
conversation_ttl = 3600

module _ {D : Type 0} where
  -- `turn.tokensUsed || 0`
  abbrev pub tokens_of : ConversationTurn D → ℕ
  tokens_of t = elim t.tokens_used [ none ↦ 0 | some n ↦ n ]

  unfoldable pub should_prune : ConversationHistory D → Bool
  should_prune c = ltb max_turns (length c.turns) || ltb_ℤ (pos max_tokens) c.total_tokens

  -- The first loop of `pruneConversation`, on the turns and their total.
  unfoldable pub prune_turns : List (ConversationTurn D) → ℤ → List (ConversationTurn D) × ℤ
  prune_turns [] total = ([], total)
  prune_turns (t ∷ ts) total =
      let rest = prune_turns ts (total -ℤ pos (tokens_of t)) in
      if ltb max_turns (length (t ∷ ts)) then rest else (t ∷ ts, total)

  -- The second loop.
  unfoldable pub prune_tokens : List (ConversationTurn D) → ℤ → List (ConversationTurn D) × ℤ
  prune_tokens [] total = ([], total)
  prune_tokens (t ∷ ts) total =
      let rest = prune_tokens ts (total -ℤ pos (tokens_of t)) in
      if ltb_ℤ (pos target_tokens) total && ltb 1 (length (t ∷ ts)) then rest else (t ∷ ts, total)

  unfoldable pub prune_conversation : ConversationHistory D → ConversationHistory D
  prune_conversation c =
      let few = prune_turns c.turns c.total_tokens in
      let light = prune_tokens few.0 few.1 in record c { turns = light.0; total_tokens = light.1 }

  -- What `addTurn` does to the conversation: `stamp` and `active` are the two readings of the clock.
  -- The number of turns is noted before the pruning.
  unfoldable pub push_turn :
      String → String → ConversationTurn D → ConversationHistory D → ConversationHistory D
  push_turn stamp active turn c =
      let turns = c.turns ++ record turn { timestamp = some stamp } ∷ [] in
      record c {
        turns = turns;
        total_tokens = c.total_tokens +ℤ pos (tokens_of turn);
        metadata = record c.metadata {
          last_activity_at = some active;
          total_turns = some (length turns);
        };
      }

  unfoldable pub prune_if_necessary : ConversationHistory D → ConversationHistory D
  prune_if_necessary c = if should_prune c then prune_conversation c else c

  -- A conversation that was parsed: 0 is falsy, and another number has no turns whose `field` could
  -- be read.
  abbrev pub as_history :
      String
      → Option (Redis.Json (ConversationHistory D))
      → Outcome (Option (ConversationHistory D))
  as_history field none = returned none
  as_history field (some (Redis.value c)) = returned (some c)
  as_history field (some (Redis.number zero)) = returned none
  as_history field (some (Redis.number (suc n))) =
      threw (failure (concat "Cannot read properties of undefined (reading '" (concat field "')")))

  unfoldable pub summary_of : ConversationHistory D → ConversationSummary D
  summary_of c = record {
    conversation_id = c.conversation_id;
    user_id = c.user_id;
    total_turns = length c.turns;
    total_tokens = c.total_tokens;
    created_at = c.metadata.created_at;
    last_activity_at = c.metadata.last_activity_at;
    metadata = c.metadata;
  }

  -- A conversation without turns; metadata that were given keep what the service does not set.
  abbrev pub empty_conversation :
      String → String → Option (ConversationMetadata D) → String → String → ConversationHistory D
  empty_conversation id user_id given created active = record {
    conversation_id = id;
    user_id = user_id;
    turns = [];
    metadata = record {
      created_at = some created;
      last_activity_at = some active;
      total_turns = elim given [ none ↦ none | some m ↦ m.total_turns ];
      further = elim given [ none ↦ [] | some m ↦ m.further ];
    };
    total_tokens = pos 0;
  }

-- `conversation:${conversationId}`
abbrev pub redis_key : String → String
redis_key id = concat "conversation:" id

-- The service's map beside the rest of the world.
pub record Memory (X D : Type 0) : Type 0 where
  pub store : List (String × ConversationHistory D)
  pub world : X

-- The clock, its text form, and the random part of an id.
pub record Runtime (X D : Type 0) : Type 0 where
  pub now : Clock X
  pub iso : ℕ → String
  pub random : X → String × X
  pub sort_by_activity : List (ConversationSummary D) → List (ConversationSummary D)

module _ {X D : Type 0} (runtime : Runtime X D)
    (redis : Option (Redis.Client X (ConversationHistory D))) where
  open runtime use {now, iso, random, sort_by_activity}

  abbrev pub outside : {A : Type 0} → Action X A → Action (Memory X D) A
  outside m s = let (r, x) = m s.world in (r, record s { world = x })

  abbrev time : Action (Memory X D) ℕ
  time = outside (λ x. let (n, x') = now x in (returned n, x'))

  abbrev pub parsed : {A : Type 0} → Outcome A → Action (Memory X D) A
  parsed r s = (r, s)

  abbrev from_memory : Option (ConversationHistory D) → Option (Redis.Json (ConversationHistory D))
  from_memory none = none
  from_memory (some c) = some (Redis.value c)

  -- `data ? JSON.parse(data) : null`, or the map.
  abbrev find_in :
      Option (Redis.Client X (ConversationHistory D))
      → String
      → Action (Memory X D) (Option (Redis.Json (ConversationHistory D)))
  find_in (some client) id = outside (Redis.get client (redis_key id))
  find_in none id = gets (λ s. from_memory (lookup id s.store))

  unfoldable pub get_conversation :
      String → Action (Memory X D) (Option (Redis.Json (ConversationHistory D)))
  get_conversation id = find_in redis id

  abbrev save_in :
      Option (Redis.Client X (ConversationHistory D))
      → ConversationHistory D
      → Action (Memory X D) (Unit {0})
  save_in (some client) c =
      outside (
        client.setex (redis_key c.conversation_id) conversation_ttl (Redis.encoded (Redis.value c)))
  save_in none c = modify (λ s. record s { store = insert c.conversation_id c s.store })

  unfoldable pub save_conversation : ConversationHistory D → Action (Memory X D) (Unit {0})
  save_conversation c = save_in redis c

  abbrev pub extend :
      String
      → ConversationTurn D
      → Option (ConversationHistory D)
      → Action (Memory X D) (ConversationHistory D)
  extend id turn none = throw (failure (concat "Conversation " (concat id " not found")))
  extend id turn (some c) = do
    stamp ← time
    active ← time
    let c' = prune_if_necessary (push_turn (iso stamp) (iso active) turn c)
    save_conversation c'
    pure c'

  unfoldable pub add_turn :
      String → ConversationTurn D → Action (Memory X D) (ConversationHistory D)
  add_turn id turn = do
    found ← get_conversation id
    c ← parsed (as_history "push" found)
    extend id turn c

  unfoldable pub generate_conversation_id : Action (Memory X D) String
  generate_conversation_id = do
    t ← time
    suffix ← outside (λ x. let (u, x') = random x in (returned u, x'))
    pure (concat "conv_" (concat (decimal t) (concat "_" suffix)))

  unfoldable pub create_conversation :
      String → Option (ConversationMetadata D) → Action (Memory X D) String
  create_conversation user_id given = do
    id ← generate_conversation_id
    created ← time
    active ← time
    save_conversation (empty_conversation id user_id given (iso created) (iso active))
    pure id

  abbrev delete_in :
      Option (Redis.Client X (ConversationHistory D)) → String → Action (Memory X D) (Unit {0})
  delete_in (some client) id = do outside (client.del (redis_key id)); pure tt
  delete_in none id = modify (λ s. record s { store = remove id s.store })

  unfoldable pub delete_conversation : String → Action (Memory X D) (Unit {0})
  delete_conversation id = delete_in redis id
