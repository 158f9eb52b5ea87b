-- ===== src/Metrics.antt =====
-- src/metrics.rs: the counters, the gauges and the health snapshot. A Prometheus counter or gauge is
-- the number that `inc`, `inc_by`, `set` and `get` act on; the clock is an argument.
use Prim.Native.String.{String}
use text.Mathlib.Text.{◌==◌ as str_eq}
pub mod Health
pub mod Mirror
use magma_sidecar.Prelude.{ℕ, suc, ◌+◌, Bool, ◌&&◌, ltb, leb, if◌then◌else◌, Option, none, some}
use magma_sidecar.Prelude.Int.{ℤ, pos, negsuc, as_i64}

pub data IpcState : Type 0 where
  disabled connecting connected : IpcState

-- `IpcState::as_str`.
unfoldable pub ipc_state_str : IpcState → String
ipc_state_str disabled = "disabled"
ipc_state_str connecting = "connecting"
ipc_state_str connected = "connected"

-- `IpcState::gauge`.
unfoldable pub gauge : IpcState → ℤ
gauge disabled = negsuc 0
gauge connecting = pos 0
gauge connected = pos 1

-- The label `kind` of `txpool_events_total`.
pub data EventKind : Type 0 where
  insert commit drop evict : EventKind

-- `txpool_events_total`, a counter for each kind.
pub record EventCounters : Type 0 where
  pub inserts : ℕ
  pub commits : ℕ
  pub drops : ℕ
  pub evicts : ℕ

pub record Metrics : Type 0 where
  pub txpool_events_total : EventCounters
  pub txpool_inserts_total : ℕ
  pub txpool_prioritized_total : ℕ
  pub txpool_skipped_non_gateway_total : ℕ
  pub txpool_skipped_invalid_gateway_total : ℕ
  pub txpool_send_failures_total : ℕ
  pub txpool_ipc_reconnects_total : ℕ
  pub txpool_sent_cache_evictions_total : ℕ
  pub txpool_ipc_state : ℤ
  pub txpool_sent_cache : ℤ
  pub last_event_unix_seconds : ℤ
  pub last_send_unix_seconds : ℤ
  pub backrun_pairs_matched_total : ℕ
  pub backrun_bids_pended_total : ℕ
  pub backrun_bids_expired_total : ℕ
  pub backrun_bids_evicted_total : ℕ
  pub backrun_pending : ℤ
  pub backrun_cache : ℤ
  pub http_requests_total : String → String → ℕ
  pub last_event_ts : ℤ
  pub last_send_ts : ℤ
  pub ipc_state : ℤ

unfoldable pub set_ipc_state : IpcState → Metrics → Metrics
unfolding gauge
set_ipc_state state m = record m { txpool_ipc_state = gauge state; ipc_state = gauge state }

-- `Metrics::new`.
unfoldable pub new_metrics : Metrics
unfolding set_ipc_state
new_metrics = set_ipc_state disabled (record {
  txpool_events_total = record { inserts = 0; commits = 0; drops = 0; evicts = 0 };
  txpool_inserts_total = 0;
  txpool_prioritized_total = 0;
  txpool_skipped_non_gateway_total = 0;
  txpool_skipped_invalid_gateway_total = 0;
  txpool_send_failures_total = 0;
  txpool_ipc_reconnects_total = 0;
  txpool_sent_cache_evictions_total = 0;
  txpool_ipc_state = pos 0;
  txpool_sent_cache = pos 0;
  last_event_unix_seconds = pos 0;
  last_send_unix_seconds = pos 0;
  backrun_pairs_matched_total = 0;
  backrun_bids_pended_total = 0;
  backrun_bids_expired_total = 0;
  backrun_bids_evicted_total = 0;
  backrun_pending = pos 0;
  backrun_cache = pos 0;
  http_requests_total = λ route class. 0;
  last_event_ts = pos 0;
  last_send_ts = pos 0;
  ipc_state = gauge disabled;
})

-- `unix_now`: the seconds since the epoch, or 0 where the clock stands before it.
abbrev pub unix_now : Option ℕ → ℤ
unix_now none = pos 0
unix_now (some seconds) = as_i64 seconds

unfoldable pub count_event : EventKind → EventCounters → EventCounters
count_event insert c = record c { inserts = suc c.inserts }
count_event commit c = record c { commits = suc c.commits }
count_event drop c = record c { drops = suc c.drops }
count_event evict c = record c { evicts = suc c.evicts }

unfoldable pub record_event : EventKind → Option ℕ → Metrics → Metrics
unfolding count_event
record_event kind clock m = record m {
  txpool_events_total = count_event kind m.txpool_events_total;
  last_event_unix_seconds = unix_now clock;
  last_event_ts = unix_now clock;
}

unfoldable pub record_insert : Metrics → Metrics
record_insert m = record m { txpool_inserts_total = suc m.txpool_inserts_total }

unfoldable pub record_prioritized : Option ℕ → Metrics → Metrics
record_prioritized clock m = record m {
  txpool_prioritized_total = suc m.txpool_prioritized_total;
  last_send_unix_seconds = unix_now clock;
  last_send_ts = unix_now clock;
}

unfoldable pub record_skipped_non_gateway : Metrics → Metrics
record_skipped_non_gateway m = record m {
  txpool_skipped_non_gateway_total = suc m.txpool_skipped_non_gateway_total;
}

unfoldable pub record_skipped_invalid_gateway : Metrics → Metrics
record_skipped_invalid_gateway m = record m {
  txpool_skipped_invalid_gateway_total = suc m.txpool_skipped_invalid_gateway_total;
}

unfoldable pub add_backrun_pairs : ℕ → Metrics → Metrics
add_backrun_pairs n m =
    if ltb 0 n
    then record m { backrun_pairs_matched_total = m.backrun_pairs_matched_total + n }
    else m

unfoldable pub add_backrun_pended : ℕ → Metrics → Metrics
add_backrun_pended n m =
    if ltb 0 n then record m { backrun_bids_pended_total = m.backrun_bids_pended_total + n } else m

unfoldable pub add_backrun_expired : ℕ → Metrics → Metrics
add_backrun_expired n m =
    if ltb 0 n
    then record m { backrun_bids_expired_total = m.backrun_bids_expired_total + n }
    else m

unfoldable pub add_backrun_evicted : ℕ → Metrics → Metrics
add_backrun_evicted n m =
    if ltb 0 n
    then record m { backrun_bids_evicted_total = m.backrun_bids_evicted_total + n }
    else m

unfoldable pub set_backrun_pending : ℤ → Metrics → Metrics
set_backrun_pending n m = record m { backrun_pending = n }

unfoldable pub set_backrun_cache : ℤ → Metrics → Metrics
set_backrun_cache n m = record m { backrun_cache = n }

unfoldable pub add_sent_cache_evictions : ℕ → Metrics → Metrics
add_sent_cache_evictions n m =
    if ltb 0 n
    then record m { txpool_sent_cache_evictions_total = m.txpool_sent_cache_evictions_total + n }
    else m

unfoldable pub set_sent_cache : ℤ → Metrics → Metrics
set_sent_cache n m = record m { txpool_sent_cache = n }

unfoldable pub record_send_failure : Metrics → Metrics
record_send_failure m = record m { txpool_send_failures_total = suc m.txpool_send_failures_total }

unfoldable pub record_reconnect : Metrics → Metrics
record_reconnect m = record m { txpool_ipc_reconnects_total = suc m.txpool_ipc_reconnects_total }

between : ℕ → ℕ → ℕ → Bool
between low high n = leb low n && leb n high

-- The `match status` of `record_http`.
unfoldable pub status_class : ℕ → String
unfolding between
status_class status =
    if between 100 199 status
    then "1xx"
    else if between 200 299 status
    then "2xx"
    else if between 300 399 status
    then "3xx"
    else (if between 400 499 status then "4xx" else "5xx")

unfoldable pub record_http : String → ℕ → Metrics → Metrics
record_http route status m = record m {
  http_requests_total = λ r c.
      if str_eq r route && str_eq c (status_class status)
      then suc (m.http_requests_total r c)
      else m.http_requests_total r c;
}
