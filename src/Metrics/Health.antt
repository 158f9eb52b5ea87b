-- ===== src/Metrics/Health.antt =====
-- src/metrics.rs, lines 351 to 418: the snapshot that `/health` returns.
use Prim.Native.String.{String}
use magma_sidecar.Prelude.{ℕ, zero, suc, Option, none, some}
use magma_sidecar.Prelude.Int.{ℤ, pos, negsuc}
use magma_sidecar.Metrics.{IpcState, disabled, connecting, connected, ipc_state_str, Metrics}

unfoldable pub ipc_state_from_gauge : ℤ → IpcState
ipc_state_from_gauge (pos zero) = connecting
ipc_state_from_gauge (pos (suc zero)) = connected
ipc_state_from_gauge (pos (suc (suc n))) = disabled
ipc_state_from_gauge (negsuc n) = disabled

abbrev pub nonzero : ℤ → Option ℤ
nonzero (pos zero) = none
nonzero (pos (suc n)) = some (pos (suc n))
nonzero (negsuc n) = some (negsuc n)

pub record HealthSnapshot : Type 0 where
  pub status : String
  pub service : String
  pub ipc_state : String
  pub tx_inserts_observed : ℕ
  pub tx_prioritized : ℕ
  pub tx_skipped_non_gateway : ℕ
  pub tx_skipped_invalid_gateway : ℕ
  pub ipc_send_failures : ℕ
  pub ipc_reconnects : ℕ
  pub sent_cache_entries : ℤ
  pub sent_cache_evictions : ℕ
  pub backrun_pairs_matched : ℕ
  pub backrun_bids_pending : ℤ
  pub backrun_bids_expired : ℕ
  pub backrun_bids_evicted : ℕ
  pub last_event_unix_seconds : Option ℤ
  pub last_send_unix_seconds : Option ℤ

unfoldable pub snapshot : Metrics → HealthSnapshot
unfolding ipc_state_from_gauge ipc_state_str
snapshot m = record {
  status = "ok";
  service = "magma-sidecar";
  ipc_state = ipc_state_str (ipc_state_from_gauge m.ipc_state);
  tx_inserts_observed = m.txpool_inserts_total;
  tx_prioritized = m.txpool_prioritized_total;
  tx_skipped_non_gateway = m.txpool_skipped_non_gateway_total;
  tx_skipped_invalid_gateway = m.txpool_skipped_invalid_gateway_total;
  ipc_send_failures = m.txpool_send_failures_total;
  ipc_reconnects = m.txpool_ipc_reconnects_total;
  sent_cache_entries = m.txpool_sent_cache;
  sent_cache_evictions = m.txpool_sent_cache_evictions_total;
  backrun_pairs_matched = m.backrun_pairs_matched_total;
  backrun_bids_pending = m.backrun_pending;
  backrun_bids_expired = m.backrun_bids_expired_total;
  backrun_bids_evicted = m.backrun_bids_evicted_total;
  last_event_unix_seconds = nonzero m.last_event_ts;
  last_send_unix_seconds = nonzero m.last_send_ts;
}
