-- ===== src/Backrun/Queues/Induction.antt =====
-- The loops of src/backrun.rs that pop a queue, as rules: what their single steps keep, they keep.
use magma_sidecar.Prelude.{
  ℕ, ◌+◌, ◌-◌, ◌≡◌, inl, inr, ltb, leb, some, List, [], ◌∷◌, length, Bool-cases, Option-cases,
}
use magma_sidecar.Prelude.Map
use magma_sidecar.Backrun.Pool.{PendingPool, PendingBid}
use magma_sidecar.Backrun.Queues.Cache.{uncache}
use magma_sidecar.Backrun.Queues.{
  drop_oldest, evict_cache, add_cache, insert_cache, find_parked, take_parked, evict_pending,
  prune_cache, prune_pending,
}

module _ {Tx : Type 0} (P : PendingPool Tx → Type 0) where
  module _ (requeue : (q : List ℕ) (p : PendingPool Tx) → P p → P (record p { cache_order = q }))
      (drop : (h : ℕ) (p : PendingPool Tx) → P p → P (uncache h p)) where
    drop_oldest_keeps : (old : ℕ) (p : PendingPool Tx) → P p → P (drop_oldest old p)
    unfolding drop_oldest
    drop_oldest_keeps old p h = elim (Bool-cases (Map.contains_key old p.cache)) [
      | inl held ↦ rw held (drop old p h)
      | inr gone ↦ rw gone h
    ]

    evict_cache_keeps : (queue : List ℕ) (p : PendingPool Tx) → P p → P (evict_cache queue p)
    unfolding evict_cache
    evict_cache_keeps [] p h = requeue [] p h
    evict_cache_keeps (old ∷ rest) p h =
        elim (Bool-cases (ltb p.max_cache_entries (length p.cache))) [
          | inl over ↦
              rw over (evict_cache_keeps rest (drop_oldest old p) (drop_oldest_keeps old p h))
          | inr within ↦ rw within (requeue (old ∷ rest) p h)
        ]

    pub insert_cache_keeps :
        (hash : ℕ) (tx : Tx) (now : ℕ) (p : PendingPool Tx)
        → P (record p { cache = Map.insert hash (record { tx = tx; seen_at = now }) p.cache })
        → P (insert_cache hash tx now p)
    unfolding insert_cache add_cache
    insert_cache_keeps hash tx now p h =
        let added = add_cache hash tx now p in
        evict_cache_keeps added.cache_order added (
          requeue added.cache_order
            (record p { cache = Map.insert hash (record { tx = tx; seen_at = now }) p.cache }) h)

    pub prune_cache_keeps_all :
        (now : ℕ) (queue : List ℕ) (p : PendingPool Tx) → P p → P (prune_cache now queue p)
    unfolding prune_cache
    prune_cache_keeps_all now [] p h = requeue [] p h
    prune_cache_keeps_all now (front ∷ rest) p h = elim (Option-cases (Map.get front p.cache)) [
      | inl gone ↦ rw (gone, prune_cache) (prune_cache_keeps_all now rest p h)
      | inr (cached, held) ↦ elim (Bool-cases (leb p.ttl (now - cached.seen_at))) [
        | inl old ↦
            rw (held, old, prune_cache)
              (prune_cache_keeps_all now rest (uncache front p) (drop front p h))
        | inr young ↦ rw (held, young, prune_cache) (requeue (front ∷ rest) p h)
      ]
    ]

  module _
      (requeue : (q : List (ℕ × ℕ)) (p : PendingPool Tx) → P p → P (record p { pending_order = q }))
      (take : (t h pos : ℕ) (bid : PendingBid Tx) (bids : List (PendingBid Tx)) (p : PendingPool Tx)
        → find_parked t h p.pending ≡ some (pos, bid, bids)
        → P p
        → P (take_parked t pos bids p)) where
    pub evict_pending_keeps :
        (queue : List (ℕ × ℕ)) (evicted : ℕ) (p : PendingPool Tx)
        → P p
        → P (evict_pending queue evicted p).0
    unfolding evict_pending
    evict_pending_keeps [] evicted p v = requeue [] p v
    evict_pending_keeps ((t, h) ∷ rest) evicted p v =
        elim (Bool-cases (ltb p.max_pending_entries p.pending_count)) [
          | inr within ↦ rw (within, evict_pending) (requeue ((t, h) ∷ rest) p v)
          | inl over ↦ elim (Option-cases (find_parked t h p.pending)) [
            | inl gone ↦ rw (over, gone, evict_pending) (evict_pending_keeps rest evicted p v)
            | inr ((pos, bid, bids), found) ↦
                rw (over, found, evict_pending)
                  (evict_pending_keeps rest (evicted + 1) (take_parked t pos bids p)
                    (take t h pos bid bids p found v))
          ]
        ]

    pub prune_pending_keeps :
        (now : ℕ) (queue : List (ℕ × ℕ)) (expired : ℕ) (p : PendingPool Tx)
        → P p
        → P (prune_pending now queue expired p).0
    unfolding prune_pending
    prune_pending_keeps now [] expired p v = requeue [] p v
    prune_pending_keeps now ((t, h) ∷ rest) expired p v =
        elim (Option-cases (find_parked t h p.pending)) [
          | inl gone ↦ rw (gone, prune_pending) (prune_pending_keeps now rest expired p v)
          | inr ((pos, bid, bids), found) ↦ elim (Bool-cases (leb p.ttl (now - bid.seen_at))) [
            | inr young ↦ rw (found, young, prune_pending) (requeue ((t, h) ∷ rest) p v)
            | inl old ↦
                rw (found, old, prune_pending)
                  (prune_pending_keeps now rest (expired + 1) (take_parked t pos bids p)
                    (take t h pos bid bids p found v))
          ]
        ]
