-- ===== src/Backrun/Queues/Cache.antt =====
-- The invariant of the cache (src/backrun.rs): its queue, its capacity and the streamed targets.
use magma_sidecar.Prelude.{
  ℕ, ◌≤◌, ◌≡◌, inl, inr, true, false, ltb, List, [], ◌∷◌, length, contains, arith, Bool-cases,
  ltb→le,
}
use magma_sidecar.Prelude.Map
use magma_sidecar.Prelude.Set
use magma_sidecar.Backrun.Pool.{PendingPool}
use magma_sidecar.Backrun.Queues.Frames.{SamePending}
use magma_sidecar.Backrun.Queues.{drop_oldest, evict_cache, add_cache, insert_cache}

-- The invariant of the cache, for the hashes `queue` that wait in its FIFO queue.
pub record IsQueued {Tx : Type 0} (queue : List ℕ) (p : PendingPool Tx) : Type 0 where
  pub queued : (h : ℕ) → Map.contains_key h p.cache ≡ true → contains h queue ≡ true
  pub streamed : (h : ℕ) → contains h p.streamed_targets ≡ true → Map.contains_key h p.cache ≡ true

abbrev pub IsCacheValid : {Tx : Type 0} → PendingPool Tx → Type 0
IsCacheValid p = IsQueued p.cache_order p

module _ {Tx : Type 0} where
  -- Taking a hash out of the cache and out of the streamed targets.
  abbrev pub uncache : ℕ → PendingPool Tx → PendingPool Tx
  uncache h p = record p {
    cache = Map.remove h p.cache;
    streamed_targets = Set.remove h p.streamed_targets;
  }

  pub uncache-IsQueued :
      (h : ℕ) (queue : List ℕ) (p : PendingPool Tx)
      → IsQueued (h ∷ queue) p
      → IsQueued queue (uncache h p)
  uncache-IsQueued h queue p v = record {
    queued = λ k c. ground (arith, v.queued k, Map.contains_key-remove h k p.cache);
    streamed = λ k c. ground (
      arith,
      v.streamed k,
      Map.contains_key-remove h k p.cache,
      Set.contains-remove h k p.streamed_targets,
    );
  }

  pub skip-IsQueued :
      (h : ℕ) (queue : List ℕ) (p : PendingPool Tx)
      → IsQueued (h ∷ queue) p
      → Map.contains_key h p.cache ≡ false
      → IsQueued queue p
  skip-IsQueued h queue p v gone = record {
    queued = λ k c. ground (arith, v.queued k, gone);
    streamed = v.streamed;
  }

  drop_oldest-IsQueued :
      (h : ℕ) (queue : List ℕ) (p : PendingPool Tx)
      → IsQueued (h ∷ queue) p
      → IsQueued queue (drop_oldest h p)
  unfolding drop_oldest
  drop_oldest-IsQueued h queue p v = elim (Bool-cases (Map.contains_key h p.cache)) [
    | inl held ↦ rw held (uncache-IsQueued h queue p v)
    | inr gone ↦ rw gone (skip-IsQueued h queue p v gone)
  ]

  drop_oldest-SamePending : (h : ℕ) (p : PendingPool Tx) → SamePending p (drop_oldest h p)
  unfolding drop_oldest
  drop_oldest-SamePending h p = ground arith

  -- The eviction loop keeps the invariant and ends within the capacity.
  evict_cache-IsQueued :
      (queue : List ℕ) (p : PendingPool Tx)
      → IsQueued queue p
      → IsCacheValid (evict_cache queue p)
        × (length (evict_cache queue p).cache ≤ p.max_cache_entries)
  unfolding evict_cache
  evict_cache-IsQueued [] p v =
      let none_cached : p.cache ≡ [] =
        Map.eq-nil_of_get p.cache (λ k. ground (arith, v.queued k)) in
      (record { queued = v.queued; streamed = v.streamed }, rw none_cached (omega arith))
  evict_cache-IsQueued (old ∷ rest) p v =
      elim (Bool-cases (ltb p.max_cache_entries (length p.cache))) [
        | inl over ↦
            let kept =
              evict_cache-IsQueued rest (drop_oldest old p) (drop_oldest-IsQueued old rest p v) in
            let capacity = (drop_oldest-SamePending old p).max_cache_entries in
            rw over (kept.0, omega (arith, kept.1, capacity))
        | inr within ↦
            rw within (record { queued = v.queued; streamed = v.streamed }, ltb→le _ _ within)
      ]

  evict_cache-SamePending :
      (queue : List ℕ) (p : PendingPool Tx) → SamePending p (evict_cache queue p)
  unfolding evict_cache
  evict_cache-SamePending [] p = ground arith
  evict_cache-SamePending (old ∷ rest) p =
      ground
        (arith, drop_oldest-SamePending old p, evict_cache-SamePending rest (drop_oldest old p))

  add_cache-IsQueued :
      (hash : ℕ) (tx : Tx) (now : ℕ) (p : PendingPool Tx)
      → IsCacheValid p
      → IsCacheValid (add_cache hash tx now p)
  unfolding add_cache
  add_cache-IsQueued hash tx now p v = record {
    queued = λ k c. ground (
      arith,
      v.queued k,
      Map.contains_key-insert hash k (record { tx = tx; seen_at = now }) p.cache,
      Set.contains-append k p.cache_order (hash ∷ []),
    );
    streamed = λ k c. ground (
      arith,
      v.streamed k,
      Map.contains_key-insert hash k (record { tx = tx; seen_at = now }) p.cache,
    );
  }

  -- Where the cache is well formed, caching a transaction keeps it so, ends within the capacity
  -- whatever the cache held before, and leaves the parked bids and the settings alone.
  pub insert_cache-IsCacheValid :
      (hash : ℕ) (tx : Tx) (now : ℕ) (p : PendingPool Tx)
      → IsCacheValid p
      → IsCacheValid (insert_cache hash tx now p)
        × (length (insert_cache hash tx now p).cache ≤ p.max_cache_entries)
        × SamePending p (insert_cache hash tx now p)
  unfolding insert_cache add_cache
  insert_cache-IsCacheValid hash tx now p v =
      let added = add_cache hash tx now p in
      let kept =
        evict_cache-IsQueued added.cache_order added (add_cache-IsQueued hash tx now p v) in
      (
        kept.0,
        kept.1,
        record {
          policy = same.policy;
          fallback = same.fallback;
          ttl = same.ttl;
          max_cache_entries = same.max_cache_entries;
          max_pending_entries = same.max_pending_entries;
          pending = same.pending;
          pending_order = same.pending_order;
          pending_count = same.pending_count;
        },
      )
    where
      same : SamePending (add_cache hash tx now p) (insert_cache hash tx now p)
      same = evict_cache-SamePending (add_cache hash tx now p).cache_order (add_cache hash tx now p)
