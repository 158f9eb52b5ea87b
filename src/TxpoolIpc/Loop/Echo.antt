-- ===== src/TxpoolIpc/Loop/Echo.antt =====
-- What src/txpool_ipc.rs does with the node's echoes of its own frames.
use magma_sidecar.Prelude.{ℕ, ◌+◌, ◌≡◌, Bool, true, false, List, [], ◌∷◌, All}
use magma_sidecar.Metrics.{Metrics}
use magma_sidecar.TxpoolIpc.Sent.{was_sent}
use magma_sidecar.TxpoolIpc.Event.{EthTxPoolIpcTx, LoopState, EthTxPoolEvent, insert, World}
use magma_sidecar.TxpoolIpc.Event.Dedup.{on_wire}
use magma_sidecar.TxpoolIpc.Loop.Reconnect.{core}

module _ {Tx : Type 0} where
  -- A batch of inserts.
  abbrev pub inserts : List (ℕ × Tx × World) → List (EthTxPoolEvent Tx × World)
  inserts [] = []
  inserts ((hash, tx, world) ∷ rest) =
      (record { tx_hash = hash; action = insert tx }, world) ∷ inserts rest

  -- Hashes for which frames were sent.
  abbrev pub Echoes : LoopState Tx → List (ℕ × Tx × World) → Type 0
  Echoes s = All (λ (e : ℕ × Tx × World). on_wire e.0 s.wire ≡ true)

  -- A batch of so many events that left the pool, the dedup cache and the wire alone, and was counted
  -- as events only.
  pub record Ignored (n : ℕ) (s : LoopState Tx) (r : LoopState Tx × Bool) : Type 0 where
    pub kept : core r.0 ≡ core s
    pub whole : r.1 ≡ false
    pub events : r.0.metrics.txpool_events_total.inserts ≡ s.metrics.txpool_events_total.inserts + n
    pub inserts_counted : r.0.metrics.txpool_inserts_total ≡ s.metrics.txpool_inserts_total
    pub prioritized : r.0.metrics.txpool_prioritized_total ≡ s.metrics.txpool_prioritized_total

  abbrev Remembered : LoopState Tx → Type 0
  Remembered s = All (λ (f : ℕ × EthTxPoolIpcTx Tx). was_sent f.0 s.sent ≡ true) s.wire
