-- ===== src/TxpoolIpc/Loop/Accounting.antt =====
-- The backrun counters and gauges of src/txpool_ipc.rs, against the pool.
use magma_sidecar.Prelude.{
  ℕ, ◌+◌, ◌≤◌, ◌≡◌, refl, ap, ◌∙◌, List, ltb, if◌then◌else◌, Option, arith, max, All, All-any,
}
use magma_sidecar.Prelude.Int.{ℤ, as_i64}
use magma_sidecar.Tx.{TxApi}
use magma_sidecar.Backrun.Pool.{Reinjection, new_pool, pending_len, cache_len}
use magma_sidecar.Backrun.Queues.{prune}
use magma_sidecar.Backrun.Queues.Parked.Forget.{forget-IsParkedValid}
use magma_sidecar.Backrun.Invariant.{
  IsValid, prune-IsValid, prune-SameLimits, forget-IsValid, new_pool-IsValid, observe_at-IsValid,
}
use magma_sidecar.Backrun.Observe.{observe_at}
use magma_sidecar.Backrun.Accounting.{observe_at-Accounts}
use magma_sidecar.Metrics.{
  set_sent_cache, record_prioritized, Metrics, EventKind, record_event, record_insert,
  add_backrun_expired, record_send_failure, set_ipc_state, record_reconnect, new_metrics,
}
use magma_sidecar.TxpoolIpc.Event.{
  LoopState, World, with_metrics, note_sent, handle_gone, observe_insert,
}
use magma_sidecar.TxpoolIpc.Loop.{PriorityMode, Attempt, run_attempts, start}
use magma_sidecar.TxpoolIpc.Loop.Counts.{
  expired_lem, add_sent_cache_evictions_lem, note_observed_lem,
}
use magma_sidecar.TxpoolIpc.Loop.Induction.{Steps, run_attempts_keeps_always}

-- The counters and gauges of the parked bids and of the cache.
abbrev backrun : Metrics → ℕ × ℕ × ℕ × ℤ × ℤ
backrun m = (
  m.backrun_bids_pended_total, m.backrun_bids_expired_total, m.backrun_bids_evicted_total,
  m.backrun_pending, m.backrun_cache,
)

-- A gauge that shows a number between two others.
abbrev pub Shows : ℤ → ℕ → ℕ → Type 0
Shows g low high = (n : ℕ) × (g ≡ as_i64 n) × (low ≤ n) × (n ≤ high)

pub record IsAccounted {Tx : Type 0} (max_cache max_pending : ℕ) (s : LoopState Tx) : Type 0 where
  valid : IsValid s.pool
  cache_capacity : s.pool.max_cache_entries ≡ max_cache
  pending_capacity : s.pool.max_pending_entries ≡ max_pending
  pub bids :
      s.metrics.backrun_bids_expired_total
        + s.metrics.backrun_bids_evicted_total
        + pending_len s.pool
      ≤ s.metrics.backrun_bids_pended_total
  pub pending_shown : Shows s.metrics.backrun_pending (pending_len s.pool) max_pending
  pub cache_shown : Shows s.metrics.backrun_cache (cache_len s.pool) max_cache

module _ {Tx : Type 0} (api : TxApi Tx) (mc mp : ℕ) where
  -- Other metrics, and a pool with the same capacities that holds no more.
  keep-IsAccounted :
      (s t : LoopState Tx)
      → backrun t.metrics ≡ backrun s.metrics
      → IsValid t.pool
      → (t.pool.max_cache_entries ≡ s.pool.max_cache_entries)
        × (t.pool.max_pending_entries ≡ s.pool.max_pending_entries)
      → pending_len t.pool ≤ pending_len s.pool
      → cache_len t.pool ≤ cache_len s.pool
      → IsAccounted mc mp s
      → IsAccounted mc mp t
  keep-IsAccounted s t same valid caps less fewer v =
      let (n, shown, low, high) = v.pending_shown in
      let (k, shown_cache, low_cache, high_cache) = v.cache_shown in
      record {
        valid = valid;
        cache_capacity = caps.0 ∙ v.cache_capacity;
        pending_capacity = caps.1 ∙ v.pending_capacity;
        bids =
            omega (arith, v.bids, ap (λ b. b.0) same, ap (λ b. b.1) same, ap (λ b. b.2) same, less);
        pending_shown = (n, ap (λ b. b.3) same ∙ shown, omega (arith, low, less), high);
        cache_shown =
            (k, ap (λ b. b.4) same ∙ shown_cache, omega (arith, low_cache, fewer), high_cache);
      }

  metrics-IsAccounted :
      (f : Metrics → Metrics) (s : LoopState Tx)
      → backrun (f s.metrics) ≡ backrun s.metrics
      → IsAccounted mc mp s
      → IsAccounted mc mp (with_metrics f s)
  metrics-IsAccounted f s same v =
      keep-IsAccounted s (with_metrics f s) same v.valid (refl, refl) (omega arith) (omega arith) v

  event-IsAccounted :
      (kind : EventKind) (clock : Option ℕ) (s : LoopState Tx)
      → IsAccounted mc mp s
      → IsAccounted mc mp (with_metrics (record_event kind clock) s)
  unfolding record_event
  event-IsAccounted kind clock s = metrics-IsAccounted (record_event kind clock) s refl

  note_sent-IsAccounted :
      (r : Reinjection Tx) (clock : Option ℕ) (s : LoopState Tx)
      → Unit {0}
      → IsAccounted mc mp s
      → IsAccounted mc mp (note_sent r clock s)
  unfolding note_sent set_sent_cache record_prioritized
  note_sent-IsAccounted r clock s any v =
      keep-IsAccounted s (note_sent r clock s)
        (ap backrun (add_sent_cache_evictions_lem _ (record_prioritized clock s.metrics))) v.valid
        (refl, refl) (omega arith) (omega arith) v

  handle_gone-IsAccounted :
      (hash : ℕ) (s : LoopState Tx) → IsAccounted mc mp s → IsAccounted mc mp (handle_gone hash s)
  unfolding handle_gone set_sent_cache
  handle_gone-IsAccounted hash s v =
      let (_, _, _, _, _, _, _, less, capacities, fewer) =
        forget-IsParkedValid hash s.pool v.valid.cache v.valid.parked in
      keep-IsAccounted s (handle_gone hash s) refl (forget-IsValid hash s.pool v.valid) capacities
        less fewer v

  observe_insert-IsAccounted :
      (hash : ℕ) (tx : Tx) (world : World) (s : LoopState Tx)
      → Unit {0}
      → IsAccounted mc mp s
      → IsAccounted mc mp (observe_insert api hash tx world s).0
        × All (λ (r : Reinjection Tx). Unit {0}) (observe_insert api hash tx world s).1
  unfolding observe_insert
  observe_insert-IsAccounted hash tx world s any v =
      let (p, expired) = prune world.prune_now s.pool in
      let (pruned, lost) = prune-IsValid world.prune_now s.pool v.valid in
      let limits = prune-SameLimits world.prune_now s.pool v.valid in
      let (q, res) = observe_at api hash tx world.observe_now p in
      let valid = observe_at-IsValid api hash tx world.observe_now p pruned in
      let account = observe_at-Accounts api hash tx world.observe_now p pruned in
      let noted = if ltb 0 expired then add_backrun_expired expired s.metrics else s.metrics in
      let e = ap backrun (expired_lem expired s.metrics) in
      let o = ap backrun (note_observed_lem res q noted) in
      let cap = account.max_pending_entries ∙ limits.max_pending_entries ∙ v.pending_capacity in
      let cap_cache = account.max_cache_entries ∙ limits.max_cache_entries ∙ v.cache_capacity in
      (
        record {
          valid = valid;
          cache_capacity = cap_cache;
          pending_capacity = cap;
          bids = omega (
            arith,
            v.bids,
            lost,
            account.counted,
            ap (λ b. b.0) e,
            ap (λ b. b.1) e,
            ap (λ b. b.2) e,
            ap (λ b. b.0) o,
            ap (λ b. b.1) o,
            ap (λ b. b.2) o,
          );
          pending_shown = (
            pending_len q,
            ap (λ b. b.3) o,
            omega arith,
            omega (arith, valid.pending_bounded, cap),
          );
          cache_shown = (
            cache_len q,
            ap (λ b. b.4) o,
            omega arith,
            omega (arith, valid.cache_bounded, cap_cache),
          );
        },
        All-any res.reinjections,
      )

  IsAccounted-Steps : Steps api (λ hash tx. Unit {0}) (λ r. Unit {0}) (IsAccounted mc mp)
  unfolding record_insert record_send_failure set_ipc_state record_reconnect
  IsAccounted-Steps = record {
    event = λ clock s. event-IsAccounted EventKind.insert clock s;
    inserted = λ s. metrics-IsAccounted record_insert s refl;
    observed = observe_insert-IsAccounted;
    frame_sent = λ r clock s j new. note_sent-IsAccounted r clock s j;
    send_failed = λ s. metrics-IsAccounted record_send_failure s refl;
    gone = λ kind clock hash s other v.
        handle_gone-IsAccounted hash _ (event-IsAccounted kind clock s v);
    state = λ st s. metrics-IsAccounted (set_ipc_state st) s refl;
    reconnected = λ s. metrics-IsAccounted record_reconnect s refl;
  }

-- Started in any mode with fresh metrics, after any inputs on any connections: the expired bids and
-- the evicted bids that the metrics count, with the bids still parked, are at most the bids counted
-- as parked; the gauge `backrun_pending` shows at least the number of parked bids and the gauge
-- `backrun_cache` at least the number of cached transactions, both within the capacity that the
-- mode asks for, or one where it asks for zero.
pub run_attempts-IsAccounted :
    {Tx : Type 0} (api : TxApi Tx) (mode : PriorityMode) (attempts : List (Attempt Tx))
    → IsAccounted
        (max mode.max_cache_entries 1)
        (max mode.max_pending_entries 1)
        (run_attempts api attempts (start api mode new_metrics)).0
unfolding start new_pool new_metrics set_ipc_state
run_attempts-IsAccounted api mode attempts =
    run_attempts_keeps_always api _ (IsAccounted-Steps api _ _) attempts
      (start api mode new_metrics)
      (record {
        valid =
            (new_pool-IsValid mode.policy mode.fallback mode.ttl mode.max_cache_entries
              mode.max_pending_entries).0;
        cache_capacity = refl;
        pending_capacity = refl;
        bids = omega arith;
        pending_shown = (0, refl, omega arith, omega arith);
        cache_shown = (0, refl, omega arith, omega arith);
      })
