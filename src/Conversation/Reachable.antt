-- ===== src/Conversation/Reachable.antt =====
-- What adding a turn does, and what holds of every stored conversation after any operations.
use high_throughput_notifica.Redis
use mathlib.Core.Path.{subst}
use high_throughput_notifica.Conversation.{
  empty_conversation, ConversationHistory, ConversationTurn, Memory, Runtime, add_turn, extend,
  get_conversation, prune_conversation, prune_if_necessary, push_turn, save_conversation,
}
use high_throughput_notifica.Conversation.Pruning.{Bounded, Extended, prune_if_necessary-Extended}
use high_throughput_notifica.Conversation.Storage.{Backing, now-view, save_conversation-view, view}
use high_throughput_notifica.Prelude.{
  Option, String, arith, if◌then◌else◌, inl, inr, some, str_eq, ◌∙◌, ◌≡◌,
}
use high_throughput_notifica.Prelude.Action.{Outcome-cases, returned}
use high_throughput_notifica.Redis.{Client}
use high_throughput_notifica.Conversation.{as_history}
use high_throughput_notifica.Conversation.Storage.{get_conversation-view}
use high_throughput_notifica.Prelude.{Bool-cases, Option-cases, eq_iff}
use high_throughput_notifica.Conversation.{
  ConversationMetadata, create_conversation, delete_conversation, generate_conversation_id,
}
use high_throughput_notifica.Conversation.Pruning.{sum_tokens}
use high_throughput_notifica.Conversation.Storage.{delete_conversation-view, random-view}
use high_throughput_notifica.Prelude.{none, refl}

pub conversation_id-push_turn :
    {D : Type 0} (stamp active : String) (turn : ConversationTurn D) (c : ConversationHistory D)
    → (prune_if_necessary (push_turn stamp active turn c)).conversation_id ≡ c.conversation_id
unfolding prune_if_necessary push_turn prune_conversation
conversation_id-push_turn stamp active turn c = ground arith

Bounded-empty :
    {D : Type 0} (id user_id : String) (given : Option (ConversationMetadata D)) (c a : String)
    → Bounded (empty_conversation id user_id given c a)
unfolding sum_tokens
Bounded-empty id user_id given c a = record {
  consistent = refl;
  few = omega arith;
  light = inr (omega arith);
}

module _ {X D : Type 0} {runtime : Runtime X D}
    {redis : Option (Redis.Client X (ConversationHistory D))} where
  open runtime use {now, iso, random}

  -- Every conversation is stored under its id and within the limits.
  pub record Sound (b : Backing runtime redis) (s : Memory X D) : Type 0 where
    pub at :
        (id : String) (c : ConversationHistory D)
        → view b s id ≡ some c
        → (c.conversation_id ≡ id) × Bounded c

  -- What a call of `addTurn` that returns `c'` has done: the conversation was stored under the id,
  -- `c'` extends it by the turn, with its time stamp, and is stored in its place; every other
  -- conversation is as it was.
  pub record Added (b : Backing runtime redis) (id : String) (turn : ConversationTurn D)
      (s : Memory X D) (c' : ConversationHistory D) (s' : Memory X D) : Type 0 where
    pub before : ConversationHistory D
    pub stamp : String
    pub found : view b s id ≡ some before
    pub extended : Extended before (record turn { timestamp = some stamp }) c'
    pub named : c'.conversation_id ≡ id
    pub stored : (j : String) → view b s' j ≡ (if str_eq id j then some c' else view b s j)

  -- The part of `addTurn` after the conversation was found.
  extend-Added :
      (b : Backing runtime redis) (id : String) (turn : ConversationTurn D) (s s₁ : Memory X D)
      (c c' : ConversationHistory D) (s' : Memory X D)
      → Sound b s
      → view b s id ≡ some c
      → ((j : String) → view b s₁ j ≡ view b s j)
      → extend runtime redis id turn (some c) s₁ ≡ (returned c', s')
      → Added b id turn s c' s'
  extend-Added b id turn s s₁ c c' s' sound v same h =
      let stamp : String = iso (now s₁.world).0 in
      let s₂ : Memory X D = record s₁ { world = (now s₁.world).1 } in
      let active : String = iso (now s₂.world).0 in
      let s₃ : Memory X D = record s₂ { world = (now s₂.world).1 } in
      let new : ConversationHistory D = prune_if_necessary (push_turn stamp active turn c) in
      let (own, bounded) = sound.at id c v in
      let saved : save_conversation runtime redis new s₃ ≡ (returned tt, s') = ground arith in
      let result : new ≡ c' = ground arith in
      let named : new.conversation_id ≡ id = conversation_id-push_turn stamp active turn c ∙ own in
      record {
        before = c;
        stamp = stamp;
        found = v;
        extended =
            subst (λ r. Extended c (record turn { timestamp = some stamp }) r) result
              (prune_if_necessary-Extended stamp active turn c bounded.consistent);
        named = subst (λ (r : ConversationHistory D). r.conversation_id ≡ id) result named;
        stored = λ j. ground (
          arith,
          named,
          result,
          save_conversation-view b new s₃ s' saved j,
          now-view b s₂ j,
          now-view b s₁ j,
          same j,
        );
      }

  -- From a map whose conversations are within the limits, a call of `addTurn` that returns has
  -- extended the conversation under its id by the turn, pruned it to the limits, stored it in the
  -- old one's place and left every other conversation as it was, in Redis as in memory.
  pub add_turn-Added :
      (b : Backing runtime redis) (id : String) (turn : ConversationTurn D) (s : Memory X D)
      (c' : ConversationHistory D) (s' : Memory X D)
      → Sound b s
      → add_turn runtime redis id turn s ≡ (returned c', s')
      → Added b id turn s c' s'
  unfolding add_turn
  add_turn-Added b id turn s c' s' sound h =
      let got = get_conversation runtime redis id s in
      elim (Outcome-cases got.0) [
        | inl (o, e) ↦ elim (Outcome-cases (as_history "push" o)) [
          | inl (m, e') ↦ elim (Option-cases m) [
            | inl n ↦ absurd (ground arith)
            | inr (c, e'') ↦
                let (v, same) =
                  get_conversation-view b "push" id s got.1 o c (ground arith) (ground arith) in
                extend-Added b id turn s got.1 c c' s' sound v same (ground arith)
          ]
          | inr (err, e') ↦ absurd (ground arith)
        ]
        | inr (err, e) ↦ absurd (ground arith)
      ]

  Sound-update :
      (b : Backing runtime redis) (s s' : Memory X D) (id : String) (c : ConversationHistory D)
      → Sound b s
      → c.conversation_id ≡ id
      → Bounded c
      → ((j : String) → view b s' j ≡ (if str_eq id j then some c else view b s j))
      → Sound b s'
  Sound-update b s s' id c sound named bounded stored = record {
    at = λ j d v. elim (Bool-cases (str_eq id j)) [
      | inl e ↦
          let same : c ≡ d = ground (arith, stored j) in
          (
            ground (arith, same, eq_iff id j),
            subst (λ (r : ConversationHistory D). Bounded r) same bounded,
          )
      | inr e ↦ sound.at j d (ground (arith, stored j))
    ];
  }

  create_conversation-Sound :
      (b : Backing runtime redis) (user_id : String) (given : Option (ConversationMetadata D))
      (s : Memory X D) (id : String) (s' : Memory X D)
      → Sound b s
      → create_conversation runtime redis user_id given s ≡ (returned id, s')
      → Sound b s'
  unfolding create_conversation generate_conversation_id
  create_conversation-Sound b user_id given s id s' sound h =
      let s₁ : Memory X D = record s { world = (now s.world).1 } in
      let s₂ : Memory X D = record s₁ { world = (random s₁.world).1 } in
      let s₃ : Memory X D = record s₂ { world = (now s₂.world).1 } in
      let s₄ : Memory X D = record s₃ { world = (now s₃.world).1 } in
      let new : ConversationHistory D =
        empty_conversation id user_id given (iso (now s₂.world).0) (iso (now s₃.world).0) in
      let saved : save_conversation runtime redis new s₄ ≡ (returned tt, s') = ground arith in
      Sound-update b s s' id new sound refl
        (Bounded-empty id user_id given (iso (now s₂.world).0) (iso (now s₃.world).0))
        (λ j. ground (
          arith,
          save_conversation-view b new s₄ s' saved j,
          now-view b s₃ j,
          now-view b s₂ j,
          random-view b s₁ j,
          now-view b s j,
        ))

  -- A call of the service that returned.
  pub data Step (b : Backing runtime redis) (s s' : Memory X D) : Type 0 where
    creates :
        (user_id : String) (given : Option (ConversationMetadata D)) (id : String)
        → create_conversation runtime redis user_id given s ≡ (returned id, s')
        → Step b s s'
    adds :
        (id : String) (turn : ConversationTurn D) (c : ConversationHistory D)
        → add_turn runtime redis id turn s ≡ (returned c, s')
        → Step b s s'
    deletes :
        (id : String) → delete_conversation runtime redis id s ≡ (returned tt, s') → Step b s s'

  -- What calls can make of a storage without conversations.
  pub data Reached (b : Backing runtime redis) : Memory X D → Type 0 where
    untouched : (s : Memory X D) → ((j : String) → view b s j ≡ none) → Reached b s
    after : {s s' : Memory X D} → Reached b s → Step b s s' → Reached b s'

  Step-Sound :
      (b : Backing runtime redis) (s s' : Memory X D) → Step b s s' → Sound b s → Sound b s'
  Step-Sound b s s' (creates user_id given id h) sound =
      create_conversation-Sound b user_id given s id s' sound h
  Step-Sound b s s' (adds id turn c h) sound =
      let done = add_turn-Added b id turn s c s' sound h in
      Sound-update b s s' id c sound done.named done.extended.bounded done.stored
  Step-Sound b s s' (deletes id h) sound = record {
    at = λ j d v. sound.at j d (ground (arith, delete_conversation-view b id s s' h j));
  }

  -- Whatever conversations were created, extended and deleted since the storage was empty: each one
  -- that is stored has its id, at most 20 turns, a total that is the sum of their tokens, and at
  -- most 8000 of them unless it has a single turn.
  pub Reached-Sound : (b : Backing runtime redis) {s : Memory X D} → Reached b s → Sound b s
  Reached-Sound b (untouched s e) = record { at = λ id c v. absurd (ground (arith, e id)) }
  Reached-Sound b (after {s} {s'} r step) = Step-Sound b s s' step (Reached-Sound b r)
