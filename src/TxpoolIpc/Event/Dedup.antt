-- ===== src/TxpoolIpc/Event/Dedup.antt =====
-- The dedup test of an insert and the loop over the re-injections (src/txpool_ipc.rs).
use mathlib.Core.List.{append_assoc}
use magma_sidecar.Prelude.{
  ℕ, ◌≡◌, ◌≢◌, ◌⊎◌, ◌==◌, refl, Bool, true, false, List, [], ◌∷◌, ◌++◌, Option, All, if◌then◌else◌,
}
use magma_sidecar.Tx.{TxApi}
use magma_sidecar.Backrun.Pool.{Reinjection}
use magma_sidecar.Metrics.{EventKind, record_event}
use magma_sidecar.TxpoolIpc.Sent.{was_sent, insert_sent}
use magma_sidecar.TxpoolIpc.Event.{
  LoopState, World, EthTxPoolIpcTx, with_metrics, note_sent, ipc_tx, kind_of, handle_event,
  handle_insert, insert,
}

module _ {Tx : Type 0} where
  -- The frame that a re-injection asks for, with its hash: its transaction, its priority, and nothing
  -- else.
  abbrev pub frame : Reinjection Tx → ℕ × EthTxPoolIpcTx Tx
  frame r = (r.hash, record { tx = r.tx; priority = r.priority; extra_data = [] })

  -- A frame was sent for the hash.
  abbrev pub on_wire : ℕ → List (ℕ × EthTxPoolIpcTx Tx) → Bool
  on_wire h [] = false
  on_wire h (f ∷ frames) = if f.0 == h then true else on_wire h frames

  -- `Selected xs ys`: ys is xs with some entries left out, in the same order.
  pub data Selected : List (Reinjection Tx) → List (ℕ × EthTxPoolIpcTx Tx) → Type 0 where
    none_left : {rs : List (Reinjection Tx)} → Selected rs []
    left_out :
        (r : Reinjection Tx) {rs : List (Reinjection Tx)} {fs : List (ℕ × EthTxPoolIpcTx Tx)}
        → Selected rs fs
        → Selected (r ∷ rs) fs
    taken :
        (r : Reinjection Tx) {rs : List (Reinjection Tx)} {fs : List (ℕ × EthTxPoolIpcTx Tx)}
        → Selected rs fs
        → Selected (r ∷ rs) (frame r ∷ fs)

  -- What the loop over the re-injections did: those that it tried, and those behind a failed send. One
  -- that was tried is in the dedup cache from the start, or a frame for its hash went out.
  pub record Handled (rs : List (Reinjection Tx)) (s : LoopState Tx) (r : LoopState Tx × Bool)
      : Type 0 where
    pub tried : List (Reinjection Tx)
    pub left : List (Reinjection Tx)
    pub frames : List (ℕ × EthTxPoolIpcTx Tx)
    pub split : rs ≡ tried ++ left
    pub wire : r.0.wire ≡ s.wire ++ frames
    pub chosen : Selected tried frames
    pub covered :
        All
          (λ (x : Reinjection Tx). (was_sent x.hash s.sent ≡ true) ⊎ (on_wire x.hash frames ≡ true))
          tried
    pub ended : ((r.1 ≡ false) × (left ≡ [])) ⊎ ((r.1 ≡ true) × (left ≢ []))
    pub pool : r.0.pool ≡ s.pool

  pub note_sent_wire :
      (r : Reinjection Tx) (clock : Option ℕ) (s : LoopState Tx)
      (frames : List (ℕ × EthTxPoolIpcTx Tx))
      → (note_sent r clock s).wire ++ frames ≡ s.wire ++ frame r ∷ frames
  unfolding note_sent ipc_tx
  note_sent_wire r clock s frames = append_assoc s.wire (frame r ∷ []) frames

  pub note_sent_cache :
      (r : Reinjection Tx) (clock : Option ℕ) (s : LoopState Tx)
      → (note_sent r clock s).sent ≡ (insert_sent r.hash r.priority s.sent).0
  unfolding note_sent
  note_sent_cache r clock s = refl

-- The node's echo of a re-injection, an insert of a hash that is in the dedup cache, changes nothing
-- but the metrics of the event, and does not leave the connection.
pub handle_event_echo :
    {Tx : Type 0} (api : TxApi Tx) (hash : ℕ) (tx : Tx) (world : World) (s : LoopState Tx)
    → was_sent hash s.sent ≡ true
    → handle_event api (record { tx_hash = hash; action = insert tx }) world s
      ≡ (with_metrics (record_event EventKind.insert world.clock) s, false)
unfolding handle_event handle_insert kind_of
handle_event_echo api hash tx world s echo = rw (echo, handle_insert) refl
