-- ===== src/Backrun/Queues/Room.antt =====
-- `insert_cache` and `push_pending` (src/backrun.rs) below capacity.
use magma_sidecar.Prelude.{
  ℕ, ◌+◌, ◌≤◌, ◌<◌, ◌≡◌, refl, ◌∙◌, false, none, List, [], ◌∷◌, ◌++◌, length, arith, le→ltb,
}
use magma_sidecar.Prelude.Map
use magma_sidecar.Backrun.Pool.{PendingPool, PendingBid}
use magma_sidecar.Backrun.Queues.{
  add_cache, evict_cache, insert_cache, park, evict_pending, push_pending,
}

module _ {Tx : Type 0} where
  evict_cache_within :
      (queue : List ℕ) (p : PendingPool Tx)
      → length p.cache ≤ p.max_cache_entries
      → evict_cache queue p ≡ record p { cache_order = queue }
  unfolding evict_cache
  evict_cache_within [] p room = refl
  evict_cache_within (old ∷ rest) p room =
      rw (le→ltb p.max_cache_entries (length p.cache) room) refl

  -- Caching with room for one more, whether the hash is cached or not.
  pub insert_cache_grown :
      (hash : ℕ) (tx : Tx) (now : ℕ) (p : PendingPool Tx)
      → length p.cache < p.max_cache_entries
      → insert_cache hash tx now p ≡ add_cache hash tx now p
  unfolding insert_cache add_cache
  insert_cache_grown hash tx now p room =
      let grown = Map.length-insert hash (record { tx = tx; seen_at = now }) p.cache in
      evict_cache_within (add_cache hash tx now p).cache_order (add_cache hash tx now p)
        (ground (arith, grown))

  -- A hash that is not cached, cached with room for it.
  pub insert_cache_room :
      (hash : ℕ) (tx : Tx) (now : ℕ) (p : PendingPool Tx)
      → Map.contains_key hash p.cache ≡ false
      → length p.cache < p.max_cache_entries
      → insert_cache hash tx now p ≡ record p {
        cache = Map.insert hash (record { tx = tx; seen_at = now }) p.cache;
        cache_order = p.cache_order ++ hash ∷ [];
      }
  unfolding insert_cache add_cache
  insert_cache_room hash tx now p new room = insert_cache_grown hash tx now p room ∙ rw new refl

  evict_pending_within :
      (queue : List (ℕ × ℕ)) (evicted : ℕ) (p : PendingPool Tx)
      → p.pending_count ≤ p.max_pending_entries
      → evict_pending queue evicted p ≡ (record p { pending_order = queue }, evicted)
  unfolding evict_pending
  evict_pending_within [] evicted p room = refl
  evict_pending_within ((t, h) ∷ rest) evicted p room =
      rw (le→ltb p.max_pending_entries p.pending_count room, evict_pending) refl

  -- Parking with room for one more.
  pub push_pending_grown :
      (bid : PendingBid Tx) (p : PendingPool Tx)
      → p.pending_count < p.max_pending_entries
      → push_pending bid p ≡ (park bid p, 0)
  unfolding push_pending park
  push_pending_grown bid p room =
      evict_pending_within (park bid p).pending_order 0 (park bid p) (omega arith)

  -- The first bid for its target, parked with room for it.
  pub push_pending_room :
      (bid : PendingBid Tx) (p : PendingPool Tx)
      → Map.get bid.target p.pending ≡ none
      → p.pending_count < p.max_pending_entries
      → push_pending bid p ≡ (
        record p {
          pending = Map.insert bid.target (bid ∷ []) p.pending;
          pending_order = p.pending_order ++ (bid.target, bid.hash) ∷ [];
          pending_count = p.pending_count + 1;
        },
        0,
      )
  unfolding park
  push_pending_room bid p first room = push_pending_grown bid p room ∙ rw first refl
