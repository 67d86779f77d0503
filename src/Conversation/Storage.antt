-- ===== src/Conversation/Storage.antt =====
-- The conversations as one map from ids, whether they are kept in Redis or in memory: what every
-- operation does to that map, and what holds of it after any of them.
use high_throughput_notifica.Redis
use high_throughput_notifica.Conversation.{
  ConversationHistory, Memory, Runtime, as_history, get_conversation, redis_key,
}
use high_throughput_notifica.Prelude.{Option, String, lookup, none, refl, some, str_eq, ◌≡◌}
use high_throughput_notifica.Prelude.Action.{returned}
use high_throughput_notifica.Redis.{Client, Stored, value}
use high_throughput_notifica.Redis.Store.{Store}
use text.Mathlib.TextLemmas.{append_cancel_left}
use high_throughput_notifica.Conversation.{conversation_ttl, delete_conversation, save_conversation}
use high_throughput_notifica.Prelude.{
  Option-cases, arith, eq_iff, if◌then◌else◌, inl, inr, lookup-insert, lookup-remove,
}
use high_throughput_notifica.Prelude.Action.{Outcome-cases}

module _ {X D : Type 0} where
  -- What the service relies on of its storage. In Redis the clock, the random numbers and a read
  -- change no key.
  pub data Backing (runtime : Runtime X D)
      : Option (Redis.Client X (ConversationHistory D)) → Type 0 where
    in_memory : Backing runtime none
    in_redis :
        (client : Redis.Client X (ConversationHistory D)) (store : Store client)
        (clock_keeps : (x : X) (k : String) → store.stored (runtime.now x).1 k ≡ store.stored x k)
        (random_keeps : (x : X) (k : String)
          → store.stored (runtime.random x).1 k ≡ store.stored x k)
        (read_keeps : (j : String) (x : X) (k : String)
          → store.stored (client.get j x).1 k ≡ store.stored x k)
        → Backing runtime (some client)

abbrev pub conversation_in :
    {D : Type 0} → Option (Redis.Stored (ConversationHistory D)) → Option (ConversationHistory D)
conversation_in (some (Redis.encoded (Redis.value c))) = some c
conversation_in _ = none

str_eq-redis_key : (a b : String) → str_eq (redis_key a) (redis_key b) ≡ str_eq a b
str_eq-redis_key a b =
    ground (
      arith,
      eq_iff a b,
      eq_iff (redis_key a) (redis_key b),
      append_cancel_left "conversation:" a b,
    )

module _ {X D : Type 0} {runtime : Runtime X D} where
  open runtime use {now, iso, random}

  -- The map.
  unfoldable pub view :
      {redis : Option (Redis.Client X (ConversationHistory D))}
      → Backing runtime redis
      → Memory X D
      → String
      → Option (ConversationHistory D)
  view in_memory s id = lookup id s.store
  view (in_redis client store c r k) s id = conversation_in (store.stored s.world (redis_key id))

  -- A conversation that was found is the one under its id, and looking it up changes nothing.
  pub get_conversation-view :
      {redis : Option (Redis.Client X (ConversationHistory D))} (b : Backing runtime redis)
      (field id : String) (s s' : Memory X D) (o : Option (Redis.Json (ConversationHistory D)))
      (c : ConversationHistory D)
      → get_conversation runtime redis id s ≡ (returned o, s')
      → as_history field o ≡ returned (some c)
      → (view b s id ≡ some c) × ((j : String) → view b s' j ≡ view b s j)
  unfolding get_conversation view Redis.get
  get_conversation-view in_memory field id s s' o c h a =
      (ground (arith, Option-cases (lookup id s.store)), λ j. ground arith)
  get_conversation-view (in_redis client store ck rk rd) field id s s' o c h a =
      elim (Outcome-cases (client.get (redis_key id) s.world).0) [
        | inl (text, e) ↦ (
          ground (arith, store.get_reads (redis_key id) s.world e),
          λ j. ground (arith, rd (redis_key id) s.world (redis_key j)),
        )
        | inr (err, e) ↦ absurd (ground arith)
      ]

  pub save_conversation-view :
      {redis : Option (Redis.Client X (ConversationHistory D))} (b : Backing runtime redis)
      (c : ConversationHistory D) (s s' : Memory X D)
      → save_conversation runtime redis c s ≡ (returned tt, s')
      → (j : String) → view b s' j ≡ (if str_eq c.conversation_id j then some c else view b s j)
  unfolding save_conversation view
  save_conversation-view in_memory c s s' h j =
      ground (arith, lookup-insert c.conversation_id j c s.store)
  save_conversation-view (in_redis client store ck rk rd) c s s' h j =
      let key = redis_key c.conversation_id in
      let v = Redis.encoded (Redis.value c) in
      elim (Outcome-cases (client.setex key conversation_ttl v s.world).0) [
        | inl (u, e) ↦ ground (
          arith,
          store.setex_writes key conversation_ttl v s.world (redis_key j) e,
          str_eq-redis_key c.conversation_id j,
        )
        | inr (err, e) ↦ absurd (ground arith)
      ]

  pub delete_conversation-view :
      {redis : Option (Redis.Client X (ConversationHistory D))} (b : Backing runtime redis)
      (id : String) (s s' : Memory X D)
      → delete_conversation runtime redis id s ≡ (returned tt, s')
      → (j : String) → view b s' j ≡ (if str_eq id j then none else view b s j)
  unfolding delete_conversation view
  delete_conversation-view in_memory id s s' h j = ground (arith, lookup-remove id j s.store)
  delete_conversation-view (in_redis client store ck rk rd) id s s' h j =
      elim (Outcome-cases (client.del (redis_key id) s.world).0) [
        | inl (n, e) ↦
            ground (
              arith,
              store.del_removes (redis_key id) s.world (redis_key j) e,
              str_eq-redis_key id j,
            )
        | inr (err, e) ↦ absurd (ground arith)
      ]

  -- Reading the clock leaves the map alone, and so does drawing a number.
  pub now-view :
      {redis : Option (Redis.Client X (ConversationHistory D))} (b : Backing runtime redis)
      (s : Memory X D) (j : String)
      → view b (record s { world = (now s.world).1 }) j ≡ view b s j
  unfolding view
  now-view in_memory s j = refl
  now-view (in_redis client store ck rk rd) s j = ground (arith, ck s.world (redis_key j))

  pub random-view :
      {redis : Option (Redis.Client X (ConversationHistory D))} (b : Backing runtime redis)
      (s : Memory X D) (j : String)
      → view b (record s { world = (runtime.random s.world).1 }) j ≡ view b s j
  unfolding view
  random-view in_memory s j = refl
  random-view (in_redis client store ck rk rd) s j = ground (arith, rk s.world (redis_key j))
