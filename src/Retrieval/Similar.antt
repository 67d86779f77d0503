-- ===== src/Retrieval/Similar.antt =====
-- `findSimilar` and `multiQuerySearch` of src/vector-db/services/retrieval.service.ts: which results
-- they leave out and merge.
use mathlib.Core.Path.{subst}
use high_throughput_notifica.ContextAssembly.{filter}
use high_throughput_notifica.ContextAssembly.Selection.{count_by-filter}
use high_throughput_notifica.Prelude.{
  take, Bool, List, Option, String, [], ap, arith, count_by, if◌then◌else◌, length, lookup, none,
  refl, some, str_eq, suc, true, zero, ℕ, ◌∙◌, ◌∷◌, ◌≡◌, ◌≤◌,
}
use high_throughput_notifica.Prelude.Action.{returned}
use high_throughput_notifica.Retrieval.{
  Result, Runtime, Services, State, default_top_k, or_number, rescored,
}
use high_throughput_notifica.Retrieval.Ranking.{
  MergeStrategy, Ranked, SimilarOptions, find_similar, merge_found, merge_results, merged_score,
  or_given, other_than, without_original,
}
use high_throughput_notifica.Prelude.{Option-cases, inl, inr, lookup-insert}
use high_throughput_notifica.Prelude.Action.{Outcome-cases}
use high_throughput_notifica.ContextAssembly.{NotificationTemplate}
use high_throughput_notifica.Prelude.{eq_iff, false, sym, ◌+◌}
use high_throughput_notifica.Retrieval.{Query, search}

module _ (runtime : Runtime) where
  -- The results with an id.
  abbrev pub named : String → Result runtime → Bool
  named id r = str_eq r.id id

  count_by-take :
      (p : Result runtime → Bool) (n : ℕ) (l : List (Result runtime))
      → count_by p (take n l) ≤ count_by p l
  unfolding count_by take
  count_by-take p zero l = omega arith
  count_by-take p (suc n) [] = omega arith
  count_by-take p (suc n) (r ∷ rs) = ground (arith, count_by-take p n rs)

  length-take_le : (n : ℕ) (l : List (Result runtime)) → length (take n l) ≤ n
  unfolding take
  length-take_le zero l = omega arith
  length-take_le (suc n) [] = omega arith
  length-take_le (suc n) (r ∷ rs) = omega (arith, length-take_le n rs)

  count_by-without_original :
      (o : SimilarOptions runtime.Filter) (id : String) (rs : List (Result runtime))
      → or_given o.exclude_original true ≡ true
      → count_by (named id) (without_original runtime o id rs) ≡ 0
  unfolding without_original
  count_by-without_original o id rs e =
      let others : List (Result runtime) = filter (other_than runtime id) rs in
      let none_left : count_by (named id) others ≡ 0 =
        (count_by-filter (other_than runtime id) (named id) rs).1 (λ r h. ground (arith, h)) in
      rw e (
        omega (arith, count_by-take (named id) (or_number o.top_k default_top_k) others, none_left))

  length-without_original :
      (o : SimilarOptions runtime.Filter) (id : String) (rs : List (Result runtime))
      → length (without_original runtime o id rs) ≤ or_number o.top_k default_top_k
  unfolding without_original
  length-without_original o id rs = length-take_le _ _

  -- The query for templates like one.
  abbrev like : SimilarOptions runtime.Filter → NotificationTemplate → Query runtime
  like o original = record {
    query_text = original.content;
    top_k = some (or_number o.top_k (default_top_k + 1));
    filter = o.filter;
    score_threshold = none;
  }

  -- The result that the map holds under an id after some results, when it held `found` before: the
  -- first result with the id, whose score the later ones change if duplicates are merged.
  abbrev joined : Bool → MergeStrategy → Result runtime → Option (Result runtime) → Result runtime
  joined deduplicate strategy r none = r
  joined deduplicate strategy r (some old) =
      if deduplicate
      then rescored runtime (merged_score runtime strategy old.score r.score) old
      else old

  unfoldable pub merged_under :
      Bool
      → MergeStrategy
      → String
      → Option (Result runtime)
      → List (Result runtime)
      → Option (Result runtime)
  merged_under deduplicate strategy id found [] = found
  merged_under deduplicate strategy id found (r ∷ rs) =
      merged_under deduplicate strategy id
        (if str_eq r.id id then some (joined deduplicate strategy r found) else found) rs

  found_same :
      (m : List (String × Result runtime)) (r : Result runtime) (id : String)
      → str_eq r.id id ≡ true
      → lookup id m ≡ lookup r.id m
  found_same m r id e = ap (λ j. lookup j m) (sym ((eq_iff r.id id).0 e))

  lookup-merge_found_as :
      (d : Bool) (strategy : MergeStrategy) (m : List (String × Result runtime))
      (r : Result runtime) (id : String) (found : Option (Result runtime))
      → lookup r.id m ≡ found
      → lookup id (merge_found runtime d strategy m r found)
        ≡ (if str_eq r.id id then some (joined d strategy r (lookup id m)) else lookup id m)
  lookup-merge_found_as d strategy m r id none e =
      ground (arith, e, lookup-insert r.id id r m, found_same m r id)
  lookup-merge_found_as true strategy m r id (some old) e =
      let new : Result runtime =
        rescored runtime (merged_score runtime strategy old.score r.score) old in
      ground (arith, e, lookup-insert r.id id new m, found_same m r id)
  lookup-merge_found_as false strategy m r id (some old) e = ground (arith, e, found_same m r id)

  lookup-merge_found :
      (d : Bool) (strategy : MergeStrategy) (m : List (String × Result runtime))
      (r : Result runtime) (id : String)
      → lookup id (merge_found runtime d strategy m r (lookup r.id m))
        ≡ (if str_eq r.id id then some (joined d strategy r (lookup id m)) else lookup id m)
  lookup-merge_found d strategy m r id =
      lookup-merge_found_as d strategy m r id (lookup r.id m) refl

  lookup-merge_results_from :
      (d : Bool) (strategy : MergeStrategy) (id : String) (m : List (String × Result runtime))
      (rs : List (Result runtime))
      → lookup id (merge_results runtime d strategy m rs)
        ≡ merged_under d strategy id (lookup id m) rs
  unfolding merge_results merged_under
  lookup-merge_results_from d strategy id m [] = refl
  lookup-merge_results_from d strategy id m (r ∷ rs) =
      lookup-merge_results_from d strategy id (merge_found runtime d strategy m r (lookup r.id m))
        rs
      ∙ ap (λ o. merged_under d strategy id o rs) (lookup-merge_found d strategy m r id)

  -- Merging the results of several searches keeps, for every id that one of them has, one result: the
  -- first one with it, with the score that the strategy makes of all their scores in their order, or
  -- with its own score where duplicates are not to be merged; and nothing else.
  pub lookup-merge_results :
      (d : Bool) (strategy : MergeStrategy) (rs : List (Result runtime)) (id : String)
      → lookup id (merge_results runtime d strategy [] rs) ≡ merged_under d strategy id none rs
  unfolding lookup
  lookup-merge_results d strategy rs id = lookup-merge_results_from d strategy id [] rs

  module _ {X Embedding : Type 0} (services : Services runtime X Embedding) where
    -- A call of `findSimilar` that returns, and was not asked to keep the original, does not return
    -- the template itself, and returns no more results than were asked for, or 10.
    pub find_similar-Excluding :
        (id : String) (o : SimilarOptions runtime.Filter) (s s' : State runtime services)
        (a : Ranked (Result runtime))
        → or_given o.exclude_original true ≡ true
        → find_similar runtime services id o s ≡ (returned a, s')
        → (count_by (named id) a.results ≡ 0) × (length a.results ≤ or_number o.top_k default_top_k)
    unfolding find_similar
    find_similar-Excluding id o s s' a e h =
        let x : X = (services.now s.world).1 in
        let got = services.get_template id x in
        let asked : State runtime services = record s { world = got.1 } in
        elim (Outcome-cases got.0) [
          | inl (t, e₁) ↦ elim (Option-cases t) [
            | inl m ↦ absurd (ground (arith, e₁, m))
            | inr (original, m) ↦
                let found = search runtime services (like o original) asked in
                elim (Outcome-cases found.0) [
                  | inl (f, e₂) ↦
                      let same : without_original runtime o id f.results ≡ a.results =
                        ground (arith, e₁, m, e₂) in
                      subst
                        (λ (l : List (Result runtime)).
                          (count_by (named id) l ≡ 0)
                          × (length l ≤ or_number o.top_k default_top_k))
                        same
                        (
                          count_by-without_original o id f.results e,
                          length-without_original o id f.results,
                        )
                  | inr (err, e₂) ↦ absurd (ground (arith, e₁, m, e₂))
                ]
          ]
          | inr (err, e₁) ↦ absurd (ground (arith, e₁))
        ]
