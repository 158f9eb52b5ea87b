-- ===== src/Backrun/Queues.antt =====
-- src/backrun.rs, lines 222 to 288 and 305 to 355: the cache, the parked bids and their FIFO
-- queues. Each loop that pops a queue is a recursion on the queue.
pub mod Frames
pub mod Cache
pub mod Expiry
pub mod Parked
pub mod Evict
pub mod ExpireParked
pub mod Room
pub mod Induction
pub mod Holds
pub mod Search
pub mod Overdue
pub mod Orderly
use magma_sidecar.Prelude.{
  ℕ, ◌+◌, ◌-◌, Bool, true, false, not, ◌==◌, ltb, leb, if◌then◌else◌, Option, none, some, List, [],
  ◌∷◌, ◌++◌, length, position, remove_at, retain,
}
use magma_sidecar.Prelude.Map
use magma_sidecar.Prelude.Map.{HashMap}
use magma_sidecar.Prelude.Set
use magma_sidecar.Word.{wrapping_sub_usize}
use magma_sidecar.Backrun.Pool.{PendingPool, CachedTx, PendingBid}

unfoldable pub is_empty {ℓ} : {A : Type ℓ} → List A → Bool
is_empty [] = true
is_empty (x ∷ xs) = false

module _ {Tx : Type 0} where
  -- `insert_cache`, the eviction of the oldest hash in the queue.
  unfoldable pub drop_oldest : ℕ → PendingPool Tx → PendingPool Tx
  drop_oldest old p =
      if Map.contains_key old p.cache
      then record p {
        cache = Map.remove old p.cache;
        streamed_targets = Set.remove old p.streamed_targets;
      }
      else p

  -- `while self.cache.len() > self.max_cache_entries`, over the queue.
  unfoldable pub evict_cache : List ℕ → PendingPool Tx → PendingPool Tx
  unfolding drop_oldest
  evict_cache [] p = record p { cache_order = [] }
  evict_cache (old ∷ rest) p =
      if ltb p.max_cache_entries (length p.cache)
      then evict_cache rest (drop_oldest old p)
      else record p { cache_order = old ∷ rest }

  -- `self.cache.insert(…)`, and the new hash at the back of the queue.
  unfoldable pub add_cache : ℕ → Tx → ℕ → PendingPool Tx → PendingPool Tx
  add_cache hash tx now p = record p {
    cache = Map.insert hash (record { tx = tx; seen_at = now }) p.cache;
    cache_order =
        if Map.contains_key hash p.cache then p.cache_order else p.cache_order ++ hash ∷ [];
  }

  unfoldable pub insert_cache : ℕ → Tx → ℕ → PendingPool Tx → PendingPool Tx
  unfolding add_cache evict_cache
  insert_cache hash tx now p =
      let added = add_cache hash tx now p in evict_cache added.cache_order added

  -- `self.pending.get_mut(&target)` and `position(|b| b.hash == hash)`: the place of a parked bid,
  -- the bid, and the bids parked beside it.
  unfoldable pub find_parked :
      ℕ → ℕ → HashMap (List (PendingBid Tx)) → Option (ℕ × PendingBid Tx × List (PendingBid Tx))
  find_parked target hash pending = elim (Map.get target pending) [
    | none ↦ none
    | some bids ↦ elim (position (λ b. b.hash == hash) bids) [
      | none ↦ none
      | some (pos, bid) ↦ some (pos, bid, bids)
    ]
  ]

  -- `bids.remove(pos)`, the count, and the removal of an entry left empty.
  unfoldable pub take_parked : ℕ → ℕ → List (PendingBid Tx) → PendingPool Tx → PendingPool Tx
  unfolding is_empty
  take_parked target pos bids p =
      let left = remove_at pos bids in
      record p {
        pending =
            if is_empty left then Map.remove target p.pending else Map.insert target left p.pending;
        pending_count = wrapping_sub_usize p.pending_count 1;
      }

  -- `while self.pending_count > self.max_pending_entries`, over the queue.
  unfoldable pub evict_pending : List (ℕ × ℕ) → ℕ → PendingPool Tx → PendingPool Tx × ℕ
  unfolding find_parked take_parked
  evict_pending [] evicted p = (record p { pending_order = [] }, evicted)
  evict_pending ((target, hash) ∷ rest) evicted p =
      elim (ltb p.max_pending_entries p.pending_count) [
        | false ↦ (record p { pending_order = (target, hash) ∷ rest }, evicted)
        | true ↦ elim (find_parked target hash p.pending) [
          | none ↦ evict_pending rest evicted p
          | some (pos, bid, bids) ↦ evict_pending rest (evicted + 1) (take_parked target pos bids p)
        ]
      ]

  -- `self.pending.entry(key).or_default().push(bid)`, the queue and the count.
  unfoldable pub park : PendingBid Tx → PendingPool Tx → PendingPool Tx
  park bid p = record p {
    pending =
        Map.insert bid.target
          (elim (Map.get bid.target p.pending) [ none ↦ [] | some bids ↦ bids ] ++ bid ∷ [])
          p.pending;
    pending_order = p.pending_order ++ (bid.target, bid.hash) ∷ [];
    pending_count = p.pending_count + 1;
  }

  -- The new pool, and how many parked bids were evicted.
  unfoldable pub push_pending : PendingBid Tx → PendingPool Tx → PendingPool Tx × ℕ
  unfolding park evict_pending
  push_pending bid p = let parked = park bid p in evict_pending parked.pending_order 0 parked

  -- The first loop of `prune`. `duration_since` is zero for an instant in the future.
  unfoldable pub prune_cache : ℕ → List ℕ → PendingPool Tx → PendingPool Tx
  prune_cache now [] p = record p { cache_order = [] }
  prune_cache now (front ∷ rest) p = elim (Map.get front p.cache) [
    | none ↦ prune_cache now rest p
    | some cached ↦ elim (leb p.ttl (now - cached.seen_at)) [
      | true ↦ prune_cache now rest (record p {
        cache = Map.remove front p.cache;
        streamed_targets = Set.remove front p.streamed_targets;
      })
      | false ↦ record p { cache_order = front ∷ rest }
    ]
  ]

  -- The second loop of `prune`.
  unfoldable pub prune_pending : ℕ → List (ℕ × ℕ) → ℕ → PendingPool Tx → PendingPool Tx × ℕ
  unfolding find_parked take_parked
  prune_pending now [] expired p = (record p { pending_order = [] }, expired)
  prune_pending now ((target, hash) ∷ rest) expired p = elim (find_parked target hash p.pending) [
    | none ↦ prune_pending now rest expired p
    | some (pos, bid, bids) ↦ elim (leb p.ttl (now - bid.seen_at)) [
      | true ↦ prune_pending now rest (expired + 1) (take_parked target pos bids p)
      | false ↦ (record p { pending_order = (target, hash) ∷ rest }, expired)
    ]
  ]

  -- The new pool, and how many parked bids expired.
  unfoldable pub prune : ℕ → PendingPool Tx → PendingPool Tx × ℕ
  unfolding prune_cache prune_pending
  prune now p =
      let pruned = prune_cache now p.cache_order p in
      prune_pending now pruned.pending_order 0 pruned

  -- `for vec in self.pending.values_mut()`: the first entry that holds the bid loses it, and the
  -- loop breaks. The number is how often the count goes down.
  unfoldable pub forget_bid :
      ℕ → HashMap (List (PendingBid Tx)) → HashMap (List (PendingBid Tx)) × ℕ
  forget_bid hash [] = ([], 0)
  forget_bid hash ((target, bids) ∷ m) = elim (position (λ b. b.hash == hash) bids) [
    | some (pos, bid) ↦ ((target, remove_at pos bids) ∷ m, 1)
    | none ↦ let (m', n) = forget_bid hash m in ((target, bids) ∷ m', n)
  ]

  -- `self.pending.remove(&hash)` with its count.
  unfoldable pub forget_target : ℕ → PendingPool Tx → PendingPool Tx
  forget_target hash p = elim (Map.get hash p.pending) [
    | none ↦ p
    | some bids ↦ record p {
      pending = Map.remove hash p.pending;
      pending_count = wrapping_sub_usize p.pending_count (length bids);
    }
  ]

  -- The loop over the other entries, and `retain(|_, v| !v.is_empty())`.
  unfoldable pub forget_parked : ℕ → PendingPool Tx → PendingPool Tx
  unfolding forget_bid is_empty
  forget_parked hash p =
      let (left, found) = forget_bid hash p.pending in
      record p {
        pending = retain (λ e. not (is_empty e.1)) left;
        pending_count = wrapping_sub_usize p.pending_count found;
      }

  unfoldable pub forget : ℕ → PendingPool Tx → PendingPool Tx
  unfolding forget_target forget_parked
  forget hash p = forget_parked hash (
      forget_target hash (record p {
        cache = Map.remove hash p.cache;
        streamed_targets = Set.remove hash p.streamed_targets;
      }))
