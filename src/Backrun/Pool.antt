-- ===== src/Backrun/Pool.antt =====
-- src/backrun.rs, lines 38 to 137: the data of the pairing pool. `Instant` and `Duration` are
-- milliseconds; a hash is a number; `Tx` is the type of transactions.
use magma_sidecar.Prelude.{ℕ, Bool, false, max, List, [], length}
use magma_sidecar.Prelude.Map.{HashMap}
use magma_sidecar.Policy.Config.{PolicyConfig}

-- A transaction to re-inject with `priority`.
pub record Reinjection (Tx : Type 0) : Type 0 where
  pub hash : ℕ
  pub tx : Tx
  pub priority : ℕ

pub record ObserveResult (Tx : Type 0) : Type 0 where
  pub reinjections : List (Reinjection Tx)
  pub pairs_matched : ℕ
  pub bids_pended : ℕ
  pub bids_evicted : ℕ
  pub skipped_non_gateway : Bool
  pub skipped_invalid_gateway : Bool

pub record CachedTx (Tx : Type 0) : Type 0 where
  pub tx : Tx
  pub seen_at : ℕ

pub record PendingBid (Tx : Type 0) : Type 0 where
  pub hash : ℕ
  pub tx : Tx
  pub scalar : ℕ
  pub target : ℕ
  pub seen_at : ℕ

pub record PendingPool (Tx : Type 0) : Type 0 where
  pub policy : PolicyConfig
  pub fallback : ℕ
  pub ttl : ℕ
  pub max_cache_entries : ℕ
  pub max_pending_entries : ℕ
  pub cache : HashMap (CachedTx Tx)
  pub cache_order : List ℕ
  pub pending : HashMap (List (PendingBid Tx))
  pub pending_order : List (ℕ × ℕ)
  pub pending_count : ℕ
  pub streamed_targets : List ℕ

-- `ObserveResult::default()`.
abbrev pub default_result : {Tx : Type 0} → ObserveResult Tx
default_result = record {
  reinjections = [];
  pairs_matched = 0;
  bids_pended = 0;
  bids_evicted = 0;
  skipped_non_gateway = false;
  skipped_invalid_gateway = false;
}

-- `PendingPool::new`.
unfoldable pub new_pool : {Tx : Type 0} → PolicyConfig → ℕ → ℕ → ℕ → ℕ → PendingPool Tx
new_pool policy fallback ttl max_cache_entries max_pending_entries = record {
  policy = policy;
  fallback = fallback;
  ttl = ttl;
  max_cache_entries = max max_cache_entries 1;
  max_pending_entries = max max_pending_entries 1;
  cache = [];
  cache_order = [];
  pending = [];
  pending_order = [];
  pending_count = 0;
  streamed_targets = [];
}

abbrev pub pending_len : {Tx : Type 0} → PendingPool Tx → ℕ
pending_len p = p.pending_count

abbrev pub cache_len : {Tx : Type 0} → PendingPool Tx → ℕ
cache_len p = length p.cache
