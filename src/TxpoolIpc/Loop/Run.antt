-- ===== src/TxpoolIpc/Loop/Run.antt =====
-- The outer loop of src/txpool_ipc.rs, from its start to the last of any connections.
use magma_sidecar.Prelude.{
  ℕ, ◌≡◌, ◌∙◌, refl, inl, inr, Bool, true, false, Bool-cases, Option-cases, List, [], ◌∷◌, length,
  arith,
}
use magma_sidecar.Prelude.Int.{as_i64}
use magma_sidecar.Tx.{TxApi}
use magma_sidecar.Backrun.Invariant.{new_pool-IsValid}
use magma_sidecar.Metrics.{Metrics, new_metrics, set_ipc_state, disabled, connecting, gauge}
use magma_sidecar.TxpoolIpc.Sent.{sent_len, new_sent}
use magma_sidecar.TxpoolIpc.Sent.Bounds.{new_sent-IsSentValid}
use magma_sidecar.TxpoolIpc.Event.{LoopState, with_metrics, handle_batch}
use magma_sidecar.TxpoolIpc.Loop.{
  opened, PriorityMode, Input, shutdown_changed, stream_ended, batch, Outcome, returned,
  Outcome-cases, Attempt, run_connection, run_attempts, start, run_txpool_priority_loop,
}
use magma_sidecar.TxpoolIpc.Loop.Induction.{run_attempts_keeps_always}
use magma_sidecar.TxpoolIpc.Loop.Invariant.{IsLoopValid, IsLoopValid-Steps}

-- What both a stop and a wait keep: the invariant, and after a stop the gauge reads `disabled`.
pub record IsStopped {Tx : Type 0} (before : ℕ) (result : LoopState Tx × Outcome) : Type 0 where
  pub valid : IsLoopValid before result.0
  pub off : result.1 ≡ returned → result.0.metrics.ipc_state ≡ gauge disabled

module _ {Tx : Type 0} (api : TxApi Tx) where
  -- The gauge after a return.
  abbrev Off : LoopState Tx × Outcome → Type 0
  Off (s, outcome) = outcome ≡ returned → s.metrics.ipc_state ≡ gauge disabled

  disabled-Off : (s : LoopState Tx) → Off (with_metrics (set_ipc_state disabled) s, returned)
  unfolding set_ipc_state
  disabled-Off s e = refl

  run_connection-Off :
      (inputs : List (Input Tx)) (s : LoopState Tx) → Off (run_connection api inputs s)
  unfolding run_connection
  run_connection-Off [] s = λ e. absurd (cc e)
  run_connection-Off (shutdown_changed true ∷ inputs) s = disabled-Off s
  run_connection-Off (shutdown_changed false ∷ inputs) s = run_connection-Off inputs s
  run_connection-Off (stream_ended ∷ inputs) s = λ e. absurd (cc e)
  run_connection-Off (batch events ∷ inputs) s = elim (Bool-cases (handle_batch api events s).1) [
    | inl broken ↦ rw (broken, run_connection) (λ e. absurd (cc e))
    | inr whole ↦
        rw (whole, run_connection) (run_connection-Off inputs (handle_batch api events s).0)
  ]

  pub run_attempts-Off :
      (attempts : List (Attempt Tx)) (s : LoopState Tx) → Off (run_attempts api attempts s)
  unfolding run_attempts
  run_attempts-Off [] s = λ e. absurd (cc e)
  run_attempts-Off (a ∷ attempts) s = elim (Bool-cases a.shutdown) [
    | inl off ↦ rw (off, run_attempts) (disabled-Off s)
    | inr on ↦ elim (Option-cases a.connection) [
      | inl refused ↦
          rw (on, refused, run_attempts)
            (run_attempts-Off attempts (with_metrics (set_ipc_state connecting) s))
      | inr (inputs, accepted) ↦
          let after = run_connection api inputs (opened s) in
          elim (Outcome-cases after.1) [
            | inl stop ↦
                rw (on, accepted, stop, run_attempts)
                  (λ e. run_connection-Off inputs (opened s) stop)
            | inr (inl lost) ↦
                rw (on, accepted, lost, run_attempts) (run_attempts-Off attempts after.0)
            | inr (inr idle) ↦ rw (on, accepted, idle, run_attempts) (λ e. absurd (cc e))
          ]
    ]
  ]

  start-IsLoopValid :
      (before : ℕ) (mode : PriorityMode) (metrics : Metrics)
      → metrics.txpool_prioritized_total ≡ before
      → metrics.txpool_sent_cache ≡ as_i64 0
      → IsLoopValid before (start api mode metrics)
  unfolding start set_ipc_state new_sent sent_len
  start-IsLoopValid before mode metrics counted empty = record {
    pool =
        (new_pool-IsValid mode.policy mode.fallback mode.ttl mode.max_cache_entries
          mode.max_pending_entries).0;
    sent = (new_sent-IsSentValid mode.sent_cache_max).0;
    sent_gauge = empty;
    counted = ground (arith, counted);
  }

-- Started with fresh metrics and any mode, after any inputs on any connections: the pool and the
-- dedup cache are well formed, the gauge `txpool_sent_cache` shows the length of the cache, and
-- the counter of prioritized transactions is the number of frames sent; and where the loop has
-- returned, the state reads `disabled`.
pub run_attempts_lem :
    {Tx : Type 0} (api : TxApi Tx) (mode : PriorityMode) (attempts : List (Attempt Tx))
    → IsStopped 0 (run_attempts api attempts (start api mode new_metrics))
unfolding new_metrics set_ipc_state
run_attempts_lem api mode attempts = record {
  valid =
      run_attempts_keeps_always api (IsLoopValid 0) (IsLoopValid-Steps api 0) attempts
        (start api mode new_metrics) (start-IsLoopValid api 0 mode new_metrics refl refl);
  off = run_attempts-Off api attempts (start api mode new_metrics);
}

pub new_metrics_lem :
    (new_metrics.txpool_prioritized_total ≡ 0)
    × (returned ≡ returned → new_metrics.ipc_state ≡ gauge disabled)
unfolding new_metrics set_ipc_state
new_metrics_lem = (refl, λ e. refl)

-- The whole loop with fresh metrics, for either value of the shutdown flag and any connections: the
-- counter of prioritized transactions is the number of frames sent, and where the loop has returned,
-- the state is `disabled`.
pub run_txpool_priority_loop_lem :
    {Tx : Type 0} (api : TxApi Tx) (mode : PriorityMode) (shutdown : Bool)
    (attempts : List (Attempt Tx))
    → let (metrics, wire, outcome) =
        run_txpool_priority_loop api mode new_metrics shutdown attempts in
      (metrics.txpool_prioritized_total ≡ length wire)
      × (outcome ≡ returned → metrics.ipc_state ≡ gauge disabled)
unfolding run_txpool_priority_loop
run_txpool_priority_loop_lem api mode true attempts = new_metrics_lem
run_txpool_priority_loop_lem api mode false attempts =
    let after = run_attempts_lem api mode attempts in (after.valid.counted ∙ omega arith, after.off)
