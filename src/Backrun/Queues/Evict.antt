-- ===== src/Backrun/Queues/Evict.antt =====
-- The eviction loop of `push_pending` (src/backrun.rs).
use magma_sidecar.Prelude.{
  ℕ, ◌+◌, ◌≤◌, ◌≡◌, refl, ◌∙◌, inl, inr, true, false, ltb, none, some, List, [], ◌∷◌, arith,
  Bool-cases, Option-cases, ltb→le,
}
use magma_sidecar.Backrun.Pool.{PendingPool, PendingBid}
use magma_sidecar.Backrun.Queues.Frames.{SameCache}
use magma_sidecar.Backrun.Queues.{
  find_parked, take_parked, evict_pending, push_pending, park, is_empty,
}
use magma_sidecar.Backrun.Queues.Parked.{IsParked, Entries, total, parked}
use magma_sidecar.Backrun.Queues.Parked.Take.{take_parked-IsParked, skip-IsParked}
use magma_sidecar.Backrun.Queues.Parked.Park.{park-IsParked}
use magma_sidecar.Prelude.Map.{HashMap}

abbrev pub IsParkedValid : {Tx : Type 0} → PendingPool Tx → Type 0
IsParkedValid p = IsParked p.pending_order p

module _ {Tx : Type 0} where
  take_parked-SameCache :
      (t pos : ℕ) (bids : List (PendingBid Tx)) (p : PendingPool Tx)
      → SameCache p (take_parked t pos bids p)
  unfolding take_parked
  take_parked-SameCache t pos bids p = ground arith

  -- What a loop that drops parked bids and counts them guarantees.
  pub record Drops (p : PendingPool Tx) (before : ℕ) (r : PendingPool Tx × ℕ) : Type 0 where
    pub valid : IsParkedValid r.0
    pub same : SameCache p r.0
    pub counted : r.0.pending_count + r.1 ≡ p.pending_count + before

  pub Drops-stopped :
      (queue : List (ℕ × ℕ)) (dropped : ℕ) (p : PendingPool Tx)
      → IsParked queue p
      → Drops p dropped (record p { pending_order = queue }, dropped)
  Drops-stopped queue dropped p v = record {
    valid = record {
      distinct = v.distinct;
      entries = v.entries;
      counted = v.counted;
      waiting = v.waiting;
    };
    same = ground arith;
    counted = refl;
  }

  -- One bid dropped, and then the loop.
  pub Drops-taken :
      (t pos : ℕ) (bids : List (PendingBid Tx)) (dropped : ℕ) (p : PendingPool Tx)
      (r : PendingPool Tx × ℕ)
      → (take_parked t pos bids p).pending_count + 1 ≡ p.pending_count
      → Drops (take_parked t pos bids p) (dropped + 1) r
      → Drops p dropped r
  Drops-taken t pos bids dropped p r fewer d = record {
    valid = d.valid;
    same =
        let one = take_parked-SameCache t pos bids p in
        record {
          policy = d.same.policy ∙ one.policy;
          fallback = d.same.fallback ∙ one.fallback;
          ttl = d.same.ttl ∙ one.ttl;
          max_cache_entries = d.same.max_cache_entries ∙ one.max_cache_entries;
          max_pending_entries = d.same.max_pending_entries ∙ one.max_pending_entries;
          cache = d.same.cache ∙ one.cache;
          cache_order = d.same.cache_order ∙ one.cache_order;
          streamed_targets = d.same.streamed_targets ∙ one.streamed_targets;
        };
    counted = omega (arith, d.counted);
  }

  -- The cases of the eviction loop.
  module _ (t h : ℕ) (rest : List (ℕ × ℕ)) (evicted : ℕ) (p : PendingPool Tx) where
    pub evict_pending_within :
        ltb p.max_pending_entries p.pending_count ≡ false
        → evict_pending ((t, h) ∷ rest) evicted p
          ≡ (record p { pending_order = (t, h) ∷ rest }, evicted)
    unfolding evict_pending
    evict_pending_within within = rw (within, evict_pending)

    pub evict_pending_stale :
        ltb p.max_pending_entries p.pending_count ≡ true
        → find_parked t h p.pending ≡ none
        → evict_pending ((t, h) ∷ rest) evicted p ≡ evict_pending rest evicted p
    unfolding evict_pending
    evict_pending_stale over gone = rw (over, evict_pending) (rw (gone, evict_pending))

    pub evict_pending_taken :
        (pos : ℕ) (bid : PendingBid Tx) (bids : List (PendingBid Tx))
        → ltb p.max_pending_entries p.pending_count ≡ true
        → find_parked t h p.pending ≡ some (pos, bid, bids)
        → evict_pending ((t, h) ∷ rest) evicted p
          ≡ evict_pending rest (evicted + 1) (take_parked t pos bids p)
    unfolding evict_pending
    evict_pending_taken pos bid bids over found =
        rw (over, evict_pending) (rw (found, evict_pending))

  pub evict_pending_nil :
      (evicted : ℕ) (p : PendingPool Tx)
      → evict_pending [] evicted p ≡ (record p { pending_order = [] }, evicted)
  unfolding evict_pending
  evict_pending_nil evicted p = refl

  total_of_none_parked :
      (m : HashMap (List (PendingBid Tx)))
      → Entries m
      → ((t h : ℕ) → parked t h m ≤ 0)
      → total m ≡ 0
  unfolding is_empty
  total_of_none_parked [] e none_waits = refl
  total_of_none_parked ((t, []) ∷ m) e none_waits = absurd (ground arith)
  total_of_none_parked ((t, b ∷ bids) ∷ m) e none_waits =
      absurd (ground (arith, none_waits t b.hash))

  -- With an empty queue nothing is parked.
  total_of_nil : (p : PendingPool Tx) → IsParked [] p → total p.pending ≡ 0
  total_of_nil p v = total_of_none_parked p.pending v.entries v.waiting

  evict_pending-Drops :
      (queue : List (ℕ × ℕ)) (evicted : ℕ) (p : PendingPool Tx)
      → IsParked queue p
      → Drops p evicted (evict_pending queue evicted p)
        × ((evict_pending queue evicted p).0.pending_count ≤ p.max_pending_entries)
  evict_pending-Drops [] evicted p v =
      rw (evict_pending_nil evicted p)
        (Drops-stopped [] evicted p v, omega (arith, v.counted, total_of_nil p v))
  evict_pending-Drops ((t, h) ∷ rest) evicted p v =
      elim (Bool-cases (ltb p.max_pending_entries p.pending_count)) [
        | inr within ↦
            rw (evict_pending_within t h rest evicted p within)
              (Drops-stopped ((t, h) ∷ rest) evicted p v, ltb→le _ _ within)
        | inl over ↦ elim (Option-cases (find_parked t h p.pending)) [
          | inl gone ↦
              rw (evict_pending_stale t h rest evicted p over gone)
                (evict_pending-Drops rest evicted p (skip-IsParked t h rest p v gone))
          | inr ((pos, bid, bids), found) ↦
              let taken = take_parked-IsParked t h pos bid bids rest p v found in
              let rec = evict_pending-Drops rest (evicted + 1) (take_parked t pos bids p) taken.0 in
              let capacity = (take_parked-SameCache t pos bids p).max_pending_entries in
              rw (evict_pending_taken t h rest evicted p pos bid bids over found)
                (Drops-taken t pos bids evicted p _ taken.1 rec.0, omega (arith, rec.1, capacity))
        ]
      ]

  -- Where the parked bids are well formed, parking one more keeps them so and ends within the
  -- capacity, whatever was parked before; the count grows by one and falls by the number of
  -- evictions that is returned; the cache is left alone.
  pub push_pending-IsParkedValid :
      (bid : PendingBid Tx) (p : PendingPool Tx)
      → IsParkedValid p
      → IsParkedValid (push_pending bid p).0
        × ((push_pending bid p).0.pending_count ≤ p.max_pending_entries)
        × ((push_pending bid p).0.pending_count + (push_pending bid p).1 ≡ p.pending_count + 1)
        × SameCache p (push_pending bid p).0
  unfolding push_pending park
  push_pending-IsParkedValid bid p v =
      let (drops, room) =
        evict_pending-Drops (park bid p).pending_order 0 (park bid p) (park-IsParked bid p v) in
      (
        drops.valid,
        room,
        omega (arith, drops.counted),
        record {
          policy = drops.same.policy;
          fallback = drops.same.fallback;
          ttl = drops.same.ttl;
          max_cache_entries = drops.same.max_cache_entries;
          max_pending_entries = drops.same.max_pending_entries;
          cache = drops.same.cache;
          cache_order = drops.same.cache_order;
          streamed_targets = drops.same.streamed_targets;
        },
      )
