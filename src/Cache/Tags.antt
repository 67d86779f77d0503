-- ===== src/Cache/Tags.antt =====
-- Deleting many keys: `invalidatePattern` and `invalidateByTag`.
use high_throughput_notifica.Redis
use high_throughput_notifica.Cache
use high_throughput_notifica.Cache.{delete_all}
use high_throughput_notifica.Prelude.{
  List, String, [], arith, if◌then◌else◌, includes, inl, inr, none, ◌∷◌, ◌≡◌,
}
use high_throughput_notifica.Prelude.Action.{Outcome-cases, returned}
use high_throughput_notifica.Redis.{Client}
use high_throughput_notifica.Redis.Store.{Sets, Store}
use high_throughput_notifica.Cache.{invalidate_by_tag, tag_key}
use high_throughput_notifica.Prelude.{length, ℕ, ◌<◌}

module _ {X V : Type 0} (client : Redis.Client X V) (store : Store client) where
  open store use {stored, members, del_removes, smembers_reads, smembers_keeps}

  -- A loop that ran to its end has removed its keys and no other.
  stored-delete_all :
      (ks : List String) (x x' : X) (j : String)
      → Cache.delete_all client ks x ≡ (returned tt, x')
      → stored x' j ≡ (if includes ks j then none else stored x j)
  unfolding Cache.delete_all Redis.del
  stored-delete_all [] x x' j h = ground arith
  stored-delete_all (k ∷ ks) x x' j h = elim (Outcome-cases (client.del k x).0) [
    | inl (n, e) ↦ ground (arith, del_removes k x j e, stored-delete_all ks (client.del k x).1 x' j)
    | inr (err, e) ↦ ground arith
  ]

  -- The same of the sets.
  members-delete_all :
      (sets : Sets client store) (ks : List String) (x x' : X) (j : String)
      → Cache.delete_all client ks x ≡ (returned tt, x')
      → members x' j ≡ (if includes ks j then [] else members x j)
  unfolding Cache.delete_all Redis.del
  members-delete_all sets [] x x' j h = ground arith
  members-delete_all sets (k ∷ ks) x x' j h = elim (Outcome-cases (client.del k x).0) [
    | inl (n, e) ↦
        ground (arith, sets.del_empties k x j e, members-delete_all sets ks (client.del k x).1 x' j)
    | inr (err, e) ↦ ground arith
  ]

  -- A text and a set of the state `x'` are gone for the keys `ks`, and else as they were in `x`.
  abbrev pub Dropped : List String → X → X → String → Type 0
  Dropped ks x x' j =
      (stored x' j ≡ (if includes ks j then none else stored x j))
      × (members x' j ≡ (if includes ks j then [] else members x j))

  -- The block behind the look-up of the members.
  drop_tagged-Dropped :
      (sets : Sets client store) (tag : String) (ms : List String) (x x' : X) (n : ℕ) (j : String)
      → Cache.drop_tagged client tag ms x ≡ (returned n, x')
      → 0 < n
      → (n ≡ length ms) × Dropped (tag_key tag ∷ ms) x x' j
  unfolding Redis.del
  drop_tagged-Dropped sets tag [] x x' n j h p = ground arith
  drop_tagged-Dropped sets tag (m ∷ ms) x x' n j h p =
      let y : X = (Cache.delete_all client (m ∷ ms) x).1 in
      elim (Outcome-cases (client.del (tag_key tag) y).0) [
        | inl (d, e) ↦ ground (
          arith,
          del_removes (tag_key tag) y j e,
          sets.del_empties (tag_key tag) y j e,
          stored-delete_all (m ∷ ms) x y j,
          members-delete_all sets (m ∷ ms) x y j,
        )
        | inr (err, e) ↦ ground arith
      ]

  -- Where `invalidateByTag` reports a number of keys, it is the number of members of the tag; the
  -- keys that were its members and the key of the tag hold neither a text nor a set any more, so
  -- that the tag has no members, and every other key holds what it held.
  pub invalidate_by_tag-Dropped :
      (sets : Sets client store) (tag : String) (x x' : X) (n : ℕ) (j : String)
      → Cache.invalidate_by_tag client tag x ≡ (returned n, x')
      → 0 < n
      → (n ≡ length (members x (tag_key tag)))
        × Dropped (tag_key tag ∷ members x (tag_key tag)) x x' j
  unfolding Cache.invalidate_by_tag
  invalidate_by_tag-Dropped sets tag x x' n j h p =
      elim (Outcome-cases (client.smembers (tag_key tag) x).0) [
        | inl (ms, e) ↦ ground (
          arith,
          smembers_reads (tag_key tag) x e,
          smembers_keeps (tag_key tag) x j,
          sets.smembers_keeps_sets (tag_key tag) x j,
          drop_tagged-Dropped sets tag ms (client.smembers (tag_key tag) x).1 x' n j,
        )
        | inr (err, e) ↦ ground arith
      ]
