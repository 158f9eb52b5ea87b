-- ===== src/TxpoolIpc/Loop.antt =====
-- src/txpool_ipc.rs, lines 26 to 41 and 98 to 243: the connection loop. The node's side of a
-- connection is a list of inputs, and the connections are a list of attempts.
pub mod Invariant
pub mod Run
pub mod Delivery
pub mod Induction
pub mod Counts
pub mod Origin
pub mod Accounting
pub mod Return
pub mod Reconnect
pub mod Resume
pub mod Once
pub mod Echo
pub mod Mirror
pub mod Ranked
pub mod Retry
use magma_sidecar.Prelude.{
  ℕ, Bool, true, false, ◌≡◌, ◌⊎◌, refl, inl, inr, Option, none, some, List, [], ◌∷◌,
}
use magma_sidecar.Tx.{TxApi}
use magma_sidecar.Policy.Config.{PolicyConfig}
use magma_sidecar.Backrun.Pool.{new_pool}
use magma_sidecar.Metrics.{
  Metrics, disabled, connecting, connected, set_ipc_state, record_reconnect,
}
use magma_sidecar.TxpoolIpc.Sent.{new_sent}
use magma_sidecar.TxpoolIpc.Event.{
  EthTxPoolIpcTx, LoopState, EthTxPoolEvent, World, with_metrics, handle_batch,
}

pub record PriorityMode : Type 0 where
  pub policy : PolicyConfig
  pub fallback : ℕ
  pub ttl : ℕ
  pub max_cache_entries : ℕ
  pub max_pending_entries : ℕ
  pub sent_cache_max : ℕ

-- What `select!` may see on a connection: a change of the shutdown flag, with its value, or what
-- `client.next` returns.
pub data Input (Tx : Type 0) : Type 0 where
  shutdown_changed : Bool → Input Tx
  stream_ended : Input Tx
  batch : List (EthTxPoolEvent Tx × World) → Input Tx

-- How a connection stops: by shutdown, by a disconnection, or it still waits for input.
pub data Outcome : Type 0 where
  returned disconnected waiting : Outcome

pub Outcome-cases : (o : Outcome) → (o ≡ returned) ⊎ ((o ≡ disconnected) ⊎ (o ≡ waiting))
Outcome-cases returned = inl refl
Outcome-cases disconnected = inr (inl refl)
Outcome-cases waiting = inr (inr refl)

-- One round of the outer loop: the shutdown flag at its head, and, if the node accepts the
-- connection, the inputs on it.
pub record Attempt (Tx : Type 0) : Type 0 where
  pub shutdown : Bool
  pub connection : Option (List (Input Tx))

-- The metrics of a round in which the node accepts the connection.
abbrev pub opened : {Tx : Type 0} → LoopState Tx → LoopState Tx
opened s =
    with_metrics record_reconnect
      (with_metrics (set_ipc_state connected) (with_metrics (set_ipc_state connecting) s))

module _ {Tx : Type 0} (api : TxApi Tx) where
  -- The loop `'connection`.
  unfoldable pub run_connection : List (Input Tx) → LoopState Tx → LoopState Tx × Outcome
  run_connection [] s = (s, waiting)
  run_connection (shutdown_changed true ∷ inputs) s =
      (with_metrics (set_ipc_state disabled) s, returned)
  run_connection (shutdown_changed false ∷ inputs) s = run_connection inputs s
  run_connection (stream_ended ∷ inputs) s = (s, disconnected)
  run_connection (batch events ∷ inputs) s =
      let (after, broken) = handle_batch api events s in
      elim broken [ true ↦ (after, disconnected) | false ↦ run_connection inputs after ]

  -- The outer loop. A failed connection waits and tries again; the pool and the dedup cache persist.
  unfoldable pub run_attempts : List (Attempt Tx) → LoopState Tx → LoopState Tx × Outcome
  run_attempts [] s = (s, waiting)
  run_attempts (a ∷ attempts) s = elim a.shutdown [
    | true ↦ (with_metrics (set_ipc_state disabled) s, returned)
    | false ↦ elim a.connection [
      | none ↦ run_attempts attempts (with_metrics (set_ipc_state connecting) s)
      | some inputs ↦
          let (after, outcome) = run_connection inputs (opened s) in
          elim outcome [
            | returned ↦ (after, returned)
            | disconnected ↦ run_attempts attempts after
            | waiting ↦ (after, waiting)
          ]
    ]
  ]

  -- The state with which the outer loop starts.
  unfoldable pub start : PriorityMode → Metrics → LoopState Tx
  start mode metrics = record {
    pool =
        new_pool mode.policy mode.fallback mode.ttl mode.max_cache_entries mode.max_pending_entries;
    sent = new_sent mode.sent_cache_max;
    metrics = set_ipc_state connecting metrics;
    wire = [];
  }

  -- `run_txpool_priority_loop`: the metrics, the frames sent and how it stopped.
  unfoldable pub run_txpool_priority_loop :
      PriorityMode
      → Metrics
      → Bool
      → List (Attempt Tx)
      → Metrics × List (ℕ × EthTxPoolIpcTx Tx) × Outcome
  run_txpool_priority_loop mode metrics shutdown attempts = elim shutdown [
    | true ↦ (metrics, [], returned)
    | false ↦
        let (s, outcome) = run_attempts attempts (start mode metrics) in
        (s.metrics, s.wire, outcome)
  ]
