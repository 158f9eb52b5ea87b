-- ===== src/Backrun/Queues/Frames.antt =====
-- The parts of `PendingPool` (src/backrun.rs): without the parked bids, and without the cache.
use magma_sidecar.Prelude.{◌≡◌}
use magma_sidecar.Backrun.Pool.{PendingPool}

-- The pool without its cache: what the operations on the cache leave alone.
pub record SamePending {Tx : Type 0} (p r : PendingPool Tx) : Type 0 where
  pub policy : r.policy ≡ p.policy
  pub fallback : r.fallback ≡ p.fallback
  pub ttl : r.ttl ≡ p.ttl
  pub max_cache_entries : r.max_cache_entries ≡ p.max_cache_entries
  pub max_pending_entries : r.max_pending_entries ≡ p.max_pending_entries
  pub pending : r.pending ≡ p.pending
  pub pending_order : r.pending_order ≡ p.pending_order
  pub pending_count : r.pending_count ≡ p.pending_count

-- The pool without its parked bids: what the operations on these leave alone.
pub record SameCache {Tx : Type 0} (p r : PendingPool Tx) : Type 0 where
  pub policy : r.policy ≡ p.policy
  pub fallback : r.fallback ≡ p.fallback
  pub ttl : r.ttl ≡ p.ttl
  pub max_cache_entries : r.max_cache_entries ≡ p.max_cache_entries
  pub max_pending_entries : r.max_pending_entries ≡ p.max_pending_entries
  pub cache : r.cache ≡ p.cache
  pub cache_order : r.cache_order ≡ p.cache_order
  pub streamed_targets : r.streamed_targets ≡ p.streamed_targets

-- The parameters of the pool, which no operation changes.
pub record SameLimits {Tx : Type 0} (p r : PendingPool Tx) : Type 0 where
  pub policy : r.policy ≡ p.policy
  pub fallback : r.fallback ≡ p.fallback
  pub ttl : r.ttl ≡ p.ttl
  pub max_cache_entries : r.max_cache_entries ≡ p.max_cache_entries
  pub max_pending_entries : r.max_pending_entries ≡ p.max_pending_entries
