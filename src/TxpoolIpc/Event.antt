-- ===== src/TxpoolIpc/Event.antt =====
-- src/txpool_ipc.rs, lines 153 to 231: one event of a batch, and the batch. The node, the clocks and
-- the outcome of each send are arguments.
pub mod Dedup
pub mod Safety
pub mod Complete
pub mod Lead
pub mod Lost
use magma_sidecar.Prelude.{
  ℕ, suc, ◌+◌, Bool, true, false, ltb, if◌then◌else◌, ◌≡◌, ◌⊎◌, refl, inl, inr, Option, List, [],
  ◌∷◌, ◌++◌,
}
use magma_sidecar.Prelude.Int.{as_i64}
use magma_sidecar.Tx.{TxApi}
use magma_sidecar.Backrun.Pool.{PendingPool, Reinjection, ObserveResult, pending_len, cache_len}
use magma_sidecar.Backrun.Queues.{prune, forget}
use magma_sidecar.Backrun.Observe.{observe}
use magma_sidecar.Metrics.{
  Metrics, EventKind, record_event, record_insert, record_prioritized, record_skipped_non_gateway,
  record_skipped_invalid_gateway, add_backrun_pairs, add_backrun_pended, add_backrun_expired,
  add_backrun_evicted, set_backrun_pending, set_backrun_cache, add_sent_cache_evictions,
  set_sent_cache, record_send_failure,
}
use magma_sidecar.TxpoolIpc.Sent.{SentCache, was_sent, insert_sent, remove_sent, sent_len}

-- `EthTxPoolIpcTx`, as the loop fills it in.
pub record EthTxPoolIpcTx (Tx : Type 0) : Type 0 where
  pub tx : Tx
  pub priority : ℕ
  pub extra_data : List ℕ

-- `EthTxPoolEventType`, with what the loop reads of it.
pub data Action (Tx : Type 0) : Type 0 where
  insert : Tx → Action Tx
  commit drop evict : Action Tx

-- `EthTxPoolEvent`.
pub record EthTxPoolEvent (Tx : Type 0) : Type 0 where
  pub tx_hash : ℕ
  pub action : Action Tx

-- What `client.send` does: it fails, or the frame goes out and the clock shows a time.
pub data SendOutcome : Type 0 where
  failed : SendOutcome
  sent_at : Option ℕ → SendOutcome

pub SendOutcome-cases :
    (o : SendOutcome) → (o ≡ failed) ⊎ ((clock : Option ℕ) × (o ≡ sent_at clock))
SendOutcome-cases failed = inl refl
SendOutcome-cases (sent_at clock) = inr (clock, refl)

-- What the world answers while one event is handled: the clock of `record_event`, the instants of
-- `prune` and of `observe`, and the outcome of the i-th send.
pub record World : Type 0 where
  pub clock : Option ℕ
  pub prune_now : ℕ
  pub observe_now : ℕ
  pub sends : ℕ → SendOutcome

-- The loop's variables; `wire` is every frame sent, with the hash that it was sent for.
pub record LoopState (Tx : Type 0) : Type 0 where
  pub pool : PendingPool Tx
  pub sent : SentCache
  pub metrics : Metrics
  pub wire : List (ℕ × EthTxPoolIpcTx Tx)

-- The label that `record_event` gets.
unfoldable pub kind_of : {Tx : Type 0} → Action Tx → EventKind
kind_of (insert tx) = EventKind.insert
kind_of commit = EventKind.commit
kind_of drop = EventKind.drop
kind_of evict = EventKind.evict

module _ {Tx : Type 0} where
  abbrev pub with_metrics : (Metrics → Metrics) → LoopState Tx → LoopState Tx
  with_metrics f s = record s { metrics = f s.metrics }

  -- The frame for a re-injection.
  unfoldable pub ipc_tx : Reinjection Tx → EthTxPoolIpcTx Tx
  ipc_tx r = record { tx = r.tx; priority = r.priority; extra_data = [] }

  -- After a frame went out.
  unfoldable pub note_sent : Reinjection Tx → Option ℕ → LoopState Tx → LoopState Tx
  unfolding ipc_tx
  note_sent r clock s =
      let (sent, evicted) = insert_sent r.hash r.priority s.sent in
      record {
        pool = s.pool;
        sent = sent;
        metrics =
            set_sent_cache (as_i64 (sent_len sent))
              (add_sent_cache_evictions evicted (record_prioritized clock s.metrics));
        wire = s.wire ++ (r.hash, ipc_tx r) ∷ [];
      }

  -- `for r in reinjections`; `i` counts the sends tried, and the Boolean is `send_failed`.
  unfoldable pub send_all :
      (ℕ → SendOutcome) → ℕ → List (Reinjection Tx) → LoopState Tx → LoopState Tx × Bool
  send_all sends i [] s = (s, false)
  send_all sends i (r ∷ rs) s = elim (was_sent r.hash s.sent) [
    | true ↦ send_all sends i rs s
    | false ↦ elim (sends i) [
      | failed ↦ (with_metrics record_send_failure s, true)
      | sent_at clock ↦ send_all sends (suc i) rs (note_sent r clock s)
    ]
  ]

  -- The metrics after `observe`.
  unfoldable pub note_observed : ObserveResult Tx → PendingPool Tx → Metrics → Metrics
  note_observed res pool m =
      let vanilla = if res.skipped_non_gateway then record_skipped_non_gateway m else m in
      let skipped =
        if res.skipped_invalid_gateway then record_skipped_invalid_gateway vanilla else vanilla in
      set_backrun_cache (as_i64 (cache_len pool)) (
        set_backrun_pending (as_i64 (pending_len pool)) (
          add_backrun_evicted res.bids_evicted
            (add_backrun_pended res.bids_pended (add_backrun_pairs res.pairs_matched skipped))))

  -- A transaction that left the node's pool.
  unfoldable pub handle_gone : ℕ → LoopState Tx → LoopState Tx
  handle_gone hash s =
      let sent = remove_sent hash s.sent in
      record s {
        sent = sent;
        metrics = set_sent_cache (as_i64 (sent_len sent)) s.metrics;
        pool = forget hash s.pool;
      }

module _ {Tx : Type 0} (api : TxApi Tx) where
  -- Pruning and observing: the new state, and what is to be sent.
  unfoldable pub observe_insert :
      ℕ → Tx → World → LoopState Tx → LoopState Tx × List (Reinjection Tx)
  observe_insert hash tx world s =
      let (pruned, expired) = prune world.prune_now s.pool in
      let noted = if ltb 0 expired then add_backrun_expired expired s.metrics else s.metrics in
      let (pool, res) = observe api hash tx world.observe_now pruned in
      (record s { pool = pool; metrics = note_observed res pool noted }, res.reinjections)

  -- An `Insert`.
  unfoldable pub handle_insert : ℕ → Tx → World → LoopState Tx → LoopState Tx × Bool
  handle_insert hash tx world s =
      if was_sent hash s.sent
      then (s, false)
      else (let (observed, reinjections) =
            observe_insert hash tx world (with_metrics record_insert s) in
          send_all world.sends 0 reinjections observed)

  -- `match ev.action`.
  unfoldable pub handle_action : ℕ → Action Tx → World → LoopState Tx → LoopState Tx × Bool
  handle_action hash (insert tx) world s = handle_insert hash tx world s
  handle_action hash commit world s = (handle_gone hash s, false)
  handle_action hash drop world s = (handle_gone hash s, false)
  handle_action hash evict world s = (handle_gone hash s, false)

  -- One event; the Boolean says that the connection is to be left.
  unfoldable pub handle_event : EthTxPoolEvent Tx → World → LoopState Tx → LoopState Tx × Bool
  unfolding handle_action
  handle_event ev world s =
      handle_action ev.tx_hash ev.action world
        (with_metrics (record_event (kind_of ev.action) world.clock) s)

  -- `for ev in batch`, left early where a send fails.
  unfoldable pub handle_batch :
      List (EthTxPoolEvent Tx × World) → LoopState Tx → LoopState Tx × Bool
  handle_batch [] s = (s, false)
  handle_batch ((ev, world) ∷ batch) s =
      let (after, broken) = handle_event ev world s in
      elim broken [ true ↦ (after, true) | false ↦ handle_batch batch after ]
