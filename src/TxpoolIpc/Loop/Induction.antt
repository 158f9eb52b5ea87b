-- ===== src/TxpoolIpc/Loop/Induction.antt =====
-- The induction over the loop of src/txpool_ipc.rs: its single steps, and what they say of its runs.
use magma_sidecar.Prelude.{
  ◌≡◌, ◌≢◌, ℕ, suc, inl, inr, true, false, Bool-cases, Option-cases, Option, List, [], ◌∷◌, All,
  subst,
}
use magma_sidecar.Tx.{TxApi}
use magma_sidecar.Backrun.Pool.{Reinjection}
use magma_sidecar.Metrics.{
  EventKind, IpcState, connecting, connected, disabled, record_event, record_insert,
  record_send_failure, record_reconnect, set_ipc_state,
}
use magma_sidecar.TxpoolIpc.Sent.{was_sent}
use magma_sidecar.TxpoolIpc.Event.{
  LoopState, EthTxPoolEvent, Action, insert, commit, drop, evict, World, SendOutcome,
  SendOutcome-cases, with_metrics, kind_of, note_sent, send_all, handle_gone, observe_insert,
  handle_insert, handle_action, handle_event, handle_batch,
}
use magma_sidecar.TxpoolIpc.Loop.Delivery.{
  OkAction, OkEvent, OkInput, OkConnection, Delivers, Delivers-any,
}
use magma_sidecar.TxpoolIpc.Loop.{
  opened, Input, shutdown_changed, stream_ended, batch, Outcome-cases, Attempt, run_connection,
  run_attempts,
}

-- Every single step keeps `Inv`, where inserts are `Ok` and what is sent is `Just`.
pub record Steps {Tx : Type 0} (api : TxApi Tx) (Ok : ℕ → Tx → Type 0)
    (Just : Reinjection Tx → Type 0) (Inv : LoopState Tx → Type 0) : Type 0 where
  pub event :
      (clock : Option ℕ) (s : LoopState Tx)
      → Inv s
      → Inv (with_metrics (record_event EventKind.insert clock) s)
  pub inserted : (s : LoopState Tx) → Inv s → Inv (with_metrics record_insert s)
  pub observed :
      (hash : ℕ) (tx : Tx) (world : World) (s : LoopState Tx)
      → Ok hash tx
      → Inv s
      → Inv (observe_insert api hash tx world s).0 × All Just (observe_insert api hash tx world s).1
  pub frame_sent :
      (r : Reinjection Tx) (clock : Option ℕ) (s : LoopState Tx)
      → Just r
      → was_sent r.hash s.sent ≡ false
      → Inv s
      → Inv (note_sent r clock s)
  pub send_failed : (s : LoopState Tx) → Inv s → Inv (with_metrics record_send_failure s)
  pub gone :
      (kind : EventKind) (clock : Option ℕ) (hash : ℕ) (s : LoopState Tx)
      → kind ≢ EventKind.insert
      → Inv s
      → Inv (handle_gone hash (with_metrics (record_event kind clock) s))
  pub state : (st : IpcState) (s : LoopState Tx) → Inv s → Inv (with_metrics (set_ipc_state st) s)
  pub reconnected : (s : LoopState Tx) → Inv s → Inv (with_metrics record_reconnect s)

module _ {Tx : Type 0} (api : TxApi Tx) (Ok : ℕ → Tx → Type 0) (Just : Reinjection Tx → Type 0)
    (Inv : LoopState Tx → Type 0) (steps : Steps api Ok Just Inv) where
  send_all_keeps :
      (sends : ℕ → SendOutcome) (i : ℕ) (rs : List (Reinjection Tx)) (s : LoopState Tx)
      → All Just rs
      → Inv s
      → Inv (send_all sends i rs s).0
  unfolding send_all
  send_all_keeps sends i [] s j v = v
  send_all_keeps sends i (r ∷ rs) s j v = elim (Bool-cases (was_sent r.hash s.sent)) [
    | inl echo ↦ rw (echo, send_all) (send_all_keeps sends i rs s j.1 v)
    | inr new ↦ elim (SendOutcome-cases (sends i)) [
      | inl down ↦ rw (new, down, send_all) (steps.send_failed s v)
      | inr (clock, up) ↦
          rw (new, up, send_all)
            (send_all_keeps sends (suc i) rs (note_sent r clock s) j.1
              (steps.frame_sent r clock s j.0 new v))
    ]
  ]

  handle_insert_keeps :
      (hash : ℕ) (tx : Tx) (world : World) (s : LoopState Tx)
      → Ok hash tx
      → Inv s
      → Inv (handle_insert api hash tx world s).0
  unfolding handle_insert
  handle_insert_keeps hash tx world s ok v = elim (Bool-cases (was_sent hash s.sent)) [
    | inl echo ↦ rw echo v
    | inr new ↦
        let (kept, just) = steps.observed hash tx world _ ok (steps.inserted s v) in
        rw new (send_all_keeps world.sends 0 _ _ just kept)
  ]

  -- An event whose metrics are counted first.
  counted_keeps :
      (hash : ℕ) (action : Action Tx) (world : World) (s : LoopState Tx)
      → OkAction Ok hash action
      → Inv s
      → Inv
          (handle_action api hash action world
            (with_metrics (record_event (kind_of action) world.clock) s)).0
  unfolding handle_action kind_of
  counted_keeps hash (insert tx) world s ok v =
      handle_insert_keeps hash tx world _ ok (steps.event world.clock s v)
  counted_keeps hash commit world s ok v =
      steps.gone EventKind.commit world.clock hash s (λ e. cc e) v
  counted_keeps hash drop world s ok v = steps.gone EventKind.drop world.clock hash s (λ e. cc e) v
  counted_keeps hash evict world s ok v =
      steps.gone EventKind.evict world.clock hash s (λ e. cc e) v

  pub handle_event_keeps :
      (ev : EthTxPoolEvent Tx) (world : World) (s : LoopState Tx)
      → OkAction Ok ev.tx_hash ev.action
      → Inv s
      → Inv (handle_event api ev world s).0
  unfolding handle_event
  handle_event_keeps ev world s ok v = counted_keeps ev.tx_hash ev.action world s ok v

  handle_batch_keeps :
      (events : List (EthTxPoolEvent Tx × World)) (s : LoopState Tx)
      → All (OkEvent Ok) events
      → Inv s
      → Inv (handle_batch api events s).0
  unfolding handle_batch
  handle_batch_keeps [] s ok v = v
  handle_batch_keeps ((ev, world) ∷ events) s ok v =
      let kept = handle_event_keeps ev world s ok.0 v in
      elim (Bool-cases (handle_event api ev world s).1) [
        | inl broken ↦ rw (broken, handle_batch) kept
        | inr whole ↦
            rw (whole, handle_batch)
              (handle_batch_keeps events (handle_event api ev world s).0 ok.1 kept)
      ]

  run_connection_keeps :
      (inputs : List (Input Tx)) (s : LoopState Tx)
      → All (OkInput Ok) inputs
      → Inv s
      → Inv (run_connection api inputs s).0
  unfolding run_connection
  run_connection_keeps [] s ok v = v
  run_connection_keeps (shutdown_changed true ∷ inputs) s ok v = steps.state disabled s v
  run_connection_keeps (shutdown_changed false ∷ inputs) s ok v =
      run_connection_keeps inputs s ok.1 v
  run_connection_keeps (stream_ended ∷ inputs) s ok v = v
  run_connection_keeps (batch events ∷ inputs) s ok v =
      let kept = handle_batch_keeps events s ok.0 v in
      elim (Bool-cases (handle_batch api events s).1) [
        | inl broken ↦ rw (broken, run_connection) kept
        | inr whole ↦
            rw (whole, run_connection)
              (run_connection_keeps inputs (handle_batch api events s).0 ok.1 kept)
      ]

  opened_keeps : (s : LoopState Tx) → Inv s → Inv (opened s)
  opened_keeps s v = steps.reconnected _ (steps.state connected _ (steps.state connecting s v))

  pub run_attempts_keeps :
      (attempts : List (Attempt Tx)) (s : LoopState Tx)
      → Delivers Ok attempts
      → Inv s
      → Inv (run_attempts api attempts s).0
  unfolding run_attempts
  run_attempts_keeps [] s ok v = v
  run_attempts_keeps (a ∷ attempts) s ok v = elim (Bool-cases a.shutdown) [
    | inl off ↦ rw (off, run_attempts) (steps.state disabled s v)
    | inr on ↦ elim (Option-cases a.connection) [
      | inl refused ↦
          rw (on, refused, run_attempts)
            (run_attempts_keeps attempts _ ok.1 (steps.state connecting s v))
      | inr (inputs, accepted) ↦
          let after =
            run_connection_keeps inputs (opened s) (subst (OkConnection Ok) accepted ok.0)
              (opened_keeps s v) in
          elim (Outcome-cases (run_connection api inputs (opened s)).1) [
            | inl stop ↦ rw (on, accepted, stop, run_attempts) after
            | inr (inl lost) ↦
                rw (on, accepted, lost, run_attempts) (run_attempts_keeps attempts _ ok.1 after)
            | inr (inr idle) ↦ rw (on, accepted, idle, run_attempts) after
          ]
    ]
  ]

-- The case in which any insert will do, and anything may be sent.
module _ {Tx : Type 0} (api : TxApi Tx) (Inv : LoopState Tx → Type 0)
    (steps : Steps api (λ hash tx. Unit {0}) (λ r. Unit {0}) Inv) where
  pub run_attempts_keeps_always :
      (attempts : List (Attempt Tx)) (s : LoopState Tx)
      → Inv s
      → Inv (run_attempts api attempts s).0
  run_attempts_keeps_always attempts s v =
      run_attempts_keeps api _ _ Inv steps attempts s (Delivers-any attempts) v
