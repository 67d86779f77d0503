-- ===== src/Cache/Versions.antt =====
-- Versions: what `incrementVersion` does to the version that `getVersion` returns.
use high_throughput_notifica.Redis
use high_throughput_notifica.Cache
use high_throughput_notifica.Cache.{get, get_version, increment_version, version_key}
use high_throughput_notifica.Prelude.{Option, String, arith, inl, inr, none, some, ℕ, ◌+◌, ◌≡◌}
use high_throughput_notifica.Prelude.Action.{Outcome-cases, returned}
use high_throughput_notifica.Redis.{Client, Stored, number}
use high_throughput_notifica.Redis.Store.{Store}

module _ {X V : Type 0} (client : Redis.Client X V) (store : Store client) where
  open store use {stored, get_reads, incr_missing, incr_number}

  -- The text of a version: missing, or a number from 1 on.
  abbrev pub version_text : Option ℕ → Option (Redis.Stored V)
  version_text none = none
  version_text (some n) = some (Redis.encoded (Redis.number (n + 1)))

  -- What `getVersion` reads off it.
  get_version-version_text :
      (resource : String) (o : Option ℕ) (x : X) (n : ℕ)
      → stored x (version_key resource) ≡ version_text o
      → (Cache.get_version client resource x).0 ≡ returned n
      → n ≡ elim o [ none ↦ 1 | some m ↦ m + 1 ]
  unfolding Cache.get_version Redis.get
  get_version-version_text resource o x n s h =
      elim (Outcome-cases (client.get (version_key resource) x).0) [
        | inl (t, e) ↦ ground (arith, get_reads (version_key resource) x e)
        | inr (err, e) ↦ ground arith
      ]

  stored-increment_version :
      (resource : String) (o : Option ℕ) (x x' : X) (n : ℕ)
      → stored x (version_key resource) ≡ version_text o
      → Cache.increment_version client resource x ≡ (returned n, x')
      → stored x' (version_key resource)
        ≡ version_text (elim o [ none ↦ some 0 | some m ↦ some (m + 1) ])
  unfolding Cache.increment_version Redis.incr
  stored-increment_version resource none x x' n s h =
      ground (arith, incr_missing (version_key resource) x {n = n})
  stored-increment_version resource (some m) x x' n s h =
      ground (arith, incr_number (version_key resource) x {n = n} {m = m + 1})

  -- The first `incrementVersion` of a resource, whose version is missing, does not change the
  -- version that `getVersion` returns; each later one, where a version of at least 1 is stored,
  -- raises it by one. The three calls are taken to return.
  pub get_version-increment_version :
      (resource : String) (o : Option ℕ) (x x' : X) (n before after : ℕ)
      → stored x (version_key resource) ≡ version_text o
      → (Cache.get_version client resource x).0 ≡ returned before
      → Cache.increment_version client resource x ≡ (returned n, x')
      → (Cache.get_version client resource x').0 ≡ returned after
      → (Cache.get_version client resource x').0
        ≡ returned (elim o [ none ↦ before | some m ↦ before + 1 ])
  get_version-increment_version resource none x x' n before after s b h a =
      let raised = stored-increment_version resource none x x' n s h in
      ground (
        arith,
        a,
        get_version-version_text resource none x before s b,
        get_version-version_text resource (some 0) x' after raised a,
      )
  get_version-increment_version resource (some m) x x' n before after s b h a =
      let raised = stored-increment_version resource (some m) x x' n s h in
      ground (
        arith,
        a,
        get_version-version_text resource (some m) x before s b,
        get_version-version_text resource (some (m + 1)) x' after raised a,
      )
