-- ===== src/Backrun/Queues/Expiry.antt =====
-- The first loop of `prune` (src/backrun.rs).
use magma_sidecar.Prelude.{
  ℕ, ◌-◌, ◌≤◌, ◌<◌, ◌≡◌, inl, inr, true, false, leb, none, some, List, [], ◌∷◌, length, arith,
  Bool-cases, Option-cases,
}
use magma_sidecar.Prelude.Map
use magma_sidecar.Backrun.Pool.{PendingPool, CachedTx}
use magma_sidecar.Backrun.Queues.Frames.{SamePending}
use magma_sidecar.Backrun.Queues.{prune_cache}
use magma_sidecar.Backrun.Queues.Cache.{
  IsQueued, IsCacheValid, uncache, uncache-IsQueued, skip-IsQueued,
}

module _ {Tx : Type 0} where
  prune_cache_done :
      (now : ℕ) (p : PendingPool Tx)
      → IsQueued [] p
      → IsCacheValid (prune_cache now [] p)
        × SamePending p (prune_cache now [] p)
        × (length (prune_cache now [] p).cache ≤ length p.cache)
  unfolding prune_cache
  prune_cache_done now p v =
      (record { queued = v.queued; streamed = v.streamed }, ground arith, omega arith)

  prune_cache_nil :
      (now h : ℕ) (cached : CachedTx Tx) (p : PendingPool Tx)
      → Map.get h p.cache ≡ some cached
      → Map.get h (prune_cache now [] p).cache ≡ some cached
  unfolding prune_cache
  prune_cache_nil now h cached p held = held

  -- The three cases of the pruning loop.
  module _ (now front : ℕ) (rest : List ℕ) (p : PendingPool Tx) where
    prune_cache_stale :
        Map.get front p.cache ≡ none → prune_cache now (front ∷ rest) p ≡ prune_cache now rest p
    unfolding prune_cache
    prune_cache_stale gone = rw (gone, prune_cache)

    prune_cache_old :
        (cached : CachedTx Tx)
        → Map.get front p.cache ≡ some cached
        → leb p.ttl (now - cached.seen_at) ≡ true
        → prune_cache now (front ∷ rest) p ≡ prune_cache now rest (uncache front p)
    unfolding prune_cache
    prune_cache_old cached held old = rw (held, prune_cache) (rw (old, prune_cache))

    prune_cache_young :
        (cached : CachedTx Tx)
        → Map.get front p.cache ≡ some cached
        → leb p.ttl (now - cached.seen_at) ≡ false
        → prune_cache now (front ∷ rest) p ≡ record p { cache_order = front ∷ rest }
    unfolding prune_cache
    prune_cache_young cached held young = rw (held, prune_cache) (rw (young, prune_cache))

  pub prune_cache-IsQueued :
      (now : ℕ) (queue : List ℕ) (p : PendingPool Tx)
      → IsQueued queue p
      → IsCacheValid (prune_cache now queue p)
        × SamePending p (prune_cache now queue p)
        × (length (prune_cache now queue p).cache ≤ length p.cache)
  prune_cache-IsQueued now [] p v = prune_cache_done now p v
  prune_cache-IsQueued now (front ∷ rest) p v = elim (Option-cases (Map.get front p.cache)) [
    | inl gone ↦ rw (prune_cache_stale now front rest p gone) (
        prune_cache-IsQueued now rest p
          (skip-IsQueued front rest p v (Map.not-contains_key_of_get front p.cache gone)))
    | inr (cached, held) ↦ elim (Bool-cases (leb p.ttl (now - cached.seen_at))) [
      | inl old ↦
          let rec =
            prune_cache-IsQueued now rest (uncache front p) (uncache-IsQueued front rest p v) in
          let fewer = Map.length-remove-le front p.cache in
          rw (prune_cache_old now front rest p cached held old)
            (rec.0, ground (arith, rec.1), omega (arith, rec.2, fewer))
      | inr young ↦
          rw (prune_cache_young now front rest p cached held young)
            (record { queued = v.queued; streamed = v.streamed }, ground arith, omega arith)
    ]
  ]

  -- For any queue, pruning the cache keeps every cached transaction whose age is below the time
  -- to live.
  pub prune_cache_keeps :
      (now h : ℕ) (cached : CachedTx Tx) (queue : List ℕ) (p : PendingPool Tx)
      → Map.get h p.cache ≡ some cached
      → now - cached.seen_at < p.ttl
      → Map.get h (prune_cache now queue p).cache ≡ some cached
  prune_cache_keeps now h cached [] p held young = prune_cache_nil now h cached p held
  prune_cache_keeps now h cached (front ∷ rest) p held young =
      elim (Option-cases (Map.get front p.cache)) [
        | inl gone ↦
            rw (prune_cache_stale now front rest p gone)
              (prune_cache_keeps now h cached rest p held young)
        | inr (other, there) ↦ elim (Bool-cases (leb p.ttl (now - other.seen_at))) [
          | inl old ↦ rw (prune_cache_old now front rest p other there old) (
              prune_cache_keeps now h cached rest (uncache front p)
                (ground (arith, held, there, Map.get-remove front h p.cache)) young)
          | inr fresh ↦ rw (prune_cache_young now front rest p other there fresh) held
        ]
      ]
