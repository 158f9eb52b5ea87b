-- ===== src/TxpoolIpc/Loop/Counts.antt =====
-- What src/txpool_ipc.rs does to the metrics, in closed form: when bids expire, after an insert was
-- observed, and after a frame went out.
use magma_sidecar.Prelude.{ℕ, ◌+◌, ◌≡◌, ltb, if◌then◌else◌, arith}
use magma_sidecar.Prelude.Int.{as_i64}
use magma_sidecar.Backrun.Pool.{PendingPool, ObserveResult, pending_len, cache_len}
use magma_sidecar.Metrics.{
  Metrics, record_skipped_non_gateway, record_skipped_invalid_gateway, add_backrun_pairs,
  add_backrun_pended, add_backrun_expired, add_backrun_evicted, set_backrun_pending,
  set_backrun_cache, add_sent_cache_evictions,
}
use magma_sidecar.TxpoolIpc.Event.{note_observed}

pub expired_lem :
    (n : ℕ) (m : Metrics)
    → (if ltb 0 n then add_backrun_expired n m else m)
      ≡ record m { backrun_bids_expired_total = m.backrun_bids_expired_total + n }
unfolding add_backrun_expired
expired_lem n m = ground arith

pub add_sent_cache_evictions_lem :
    (n : ℕ) (m : Metrics)
    → add_sent_cache_evictions n m
      ≡ record m { txpool_sent_cache_evictions_total = m.txpool_sent_cache_evictions_total + n }
unfolding add_sent_cache_evictions
add_sent_cache_evictions_lem n m = ground arith

pub note_observed_lem :
    {Tx : Type 0} (res : ObserveResult Tx) (pool : PendingPool Tx) (m : Metrics)
    → note_observed res pool m ≡ record m {
      txpool_skipped_non_gateway_total =
          m.txpool_skipped_non_gateway_total + (if res.skipped_non_gateway then 1 else 0);
      txpool_skipped_invalid_gateway_total =
          m.txpool_skipped_invalid_gateway_total + (if res.skipped_invalid_gateway then 1 else 0);
      backrun_pairs_matched_total = m.backrun_pairs_matched_total + res.pairs_matched;
      backrun_bids_pended_total = m.backrun_bids_pended_total + res.bids_pended;
      backrun_bids_evicted_total = m.backrun_bids_evicted_total + res.bids_evicted;
      backrun_pending = as_i64 (pending_len pool);
      backrun_cache = as_i64 (cache_len pool);
    }
unfolding note_observed record_skipped_non_gateway record_skipped_invalid_gateway add_backrun_pairs
    add_backrun_pended add_backrun_evicted set_backrun_pending set_backrun_cache
note_observed_lem res pool m = ground arith
