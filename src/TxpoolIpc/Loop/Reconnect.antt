-- ===== src/TxpoolIpc/Loop/Reconnect.antt =====
-- What src/txpool_ipc.rs keeps over a lost connection: the pool, the dedup cache and the frames sent
-- depend on the events alone.
use magma_sidecar.Prelude.{
  ℕ, suc, ◌≡◌, refl, ap, subst, ◌∙◌, sym, inl, inr, Bool, true, false, Bool-cases, Option, List, [],
  ◌∷◌,
}
use magma_sidecar.Tx.{TxApi}
use magma_sidecar.Backrun.Pool.{PendingPool, Reinjection}
use magma_sidecar.Metrics.{record_insert}
use magma_sidecar.TxpoolIpc.Sent.{SentCache, was_sent}
use magma_sidecar.TxpoolIpc.Event.{
  EthTxPoolIpcTx, LoopState, EthTxPoolEvent, Action, insert, commit, drop, evict, World,
  SendOutcome, SendOutcome-cases, with_metrics, note_sent, send_all, handle_gone, observe_insert,
  handle_insert, handle_action, handle_event, handle_batch,
}
use magma_sidecar.TxpoolIpc.Loop.{Input, shutdown_changed, stream_ended, batch, run_connection}

module _ {Tx : Type 0} where
  -- A state without its metrics.
  abbrev pub core : LoopState Tx → PendingPool Tx × SentCache × List (ℕ × EthTxPoolIpcTx Tx)
  core s = (s.pool, s.sent, s.wire)

  -- Two results that differ in their metrics at most.
  pub record SameCore {A : Type 0} (r t : LoopState Tx × A) : Type 0 where
    pub cores : core r.0 ≡ core t.0
    pub answers : r.1 ≡ t.1

  core-note_sent :
      (r : Reinjection Tx) (clock : Option ℕ) (s t : LoopState Tx)
      → core s ≡ core t
      → core (note_sent r clock s) ≡ core (note_sent r clock t)
  unfolding note_sent
  core-note_sent r clock s t e =
      ap (λ c. core (note_sent r clock (record s { pool = c.0; sent = c.1; wire = c.2 }))) e

  core-handle_gone :
      (hash : ℕ) (s t : LoopState Tx)
      → core s ≡ core t
      → core (handle_gone hash s) ≡ core (handle_gone hash t)
  unfolding handle_gone
  core-handle_gone hash s t e =
      ap (λ c. core (handle_gone hash (record s { pool = c.0; sent = c.1; wire = c.2 }))) e

  send_all-SameCore :
      (sends : ℕ → SendOutcome) (i : ℕ) (rs : List (Reinjection Tx)) (s t : LoopState Tx)
      → core s ≡ core t
      → SameCore (send_all sends i rs s) (send_all sends i rs t)
  unfolding send_all
  send_all-SameCore sends i [] s t e = record { cores = e; answers = refl }
  send_all-SameCore sends i (r ∷ rs) s t e =
      let move = λ (b : Bool). subst (λ c. was_sent r.hash c.1 ≡ b) e in
      elim (Bool-cases (was_sent r.hash s.sent)) [
        | inl echo ↦ rw (echo, move true echo, send_all) (send_all-SameCore sends i rs s t e)
        | inr new ↦ elim (SendOutcome-cases (sends i)) [
          | inl down ↦
              rw (new, move false new, down, send_all) (record { cores = e; answers = refl })
          | inr (clock, up) ↦
              rw (new, move false new, up, send_all)
                (send_all-SameCore sends (suc i) rs (note_sent r clock s) (note_sent r clock t)
                  (core-note_sent r clock s t e))
        ]
      ]

module _ {Tx : Type 0} (api : TxApi Tx) where
  core-observe_insert :
      (hash : ℕ) (tx : Tx) (world : World) (s t : LoopState Tx)
      → core s ≡ core t
      → (core (observe_insert api hash tx world s).0 ≡ core (observe_insert api hash tx world t).0)
        × ((observe_insert api hash tx world s).1 ≡ (observe_insert api hash tx world t).1)
  unfolding observe_insert
  core-observe_insert hash tx world s t e =
      let remade = λ (c : PendingPool Tx × SentCache × List (ℕ × EthTxPoolIpcTx Tx)).
        observe_insert api hash tx world (record s { pool = c.0; sent = c.1; wire = c.2 }) in
      (ap (λ c. core (remade c).0) e, ap (λ c. (remade c).1) e)

  handle_insert-SameCore :
      (hash : ℕ) (tx : Tx) (world : World) (s t : LoopState Tx)
      → core s ≡ core t
      → SameCore (handle_insert api hash tx world s) (handle_insert api hash tx world t)
  unfolding handle_insert
  handle_insert-SameCore hash tx world s t e =
      let move = λ (b : Bool). subst (λ c. was_sent hash c.1 ≡ b) e in
      elim (Bool-cases (was_sent hash s.sent)) [
        | inl echo ↦ rw (echo, move true echo) (record { cores = e; answers = refl })
        | inr new ↦
            let counted = with_metrics record_insert s in
            let counted' = with_metrics record_insert t in
            let (cores, chosen) = core-observe_insert hash tx world counted counted' e in
            rw (new, move false new)
              (rw (← chosen) (
                send_all-SameCore world.sends 0 (observe_insert api hash tx world counted).1
                  (observe_insert api hash tx world counted).0
                  (observe_insert api hash tx world counted').0 cores))
      ]

  handle_action-SameCore :
      (hash : ℕ) (action : Action Tx) (world : World) (s t : LoopState Tx)
      → core s ≡ core t
      → SameCore (handle_action api hash action world s) (handle_action api hash action world t)
  unfolding handle_action
  handle_action-SameCore hash (insert tx) world s t e = handle_insert-SameCore hash tx world s t e
  handle_action-SameCore hash commit world s t e = record {
    cores = core-handle_gone hash s t e;
    answers = refl;
  }
  handle_action-SameCore hash drop world s t e = record {
    cores = core-handle_gone hash s t e;
    answers = refl;
  }
  handle_action-SameCore hash evict world s t e = record {
    cores = core-handle_gone hash s t e;
    answers = refl;
  }

  handle_event-SameCore :
      (ev : EthTxPoolEvent Tx) (world : World) (s t : LoopState Tx)
      → core s ≡ core t
      → SameCore (handle_event api ev world s) (handle_event api ev world t)
  unfolding handle_event
  handle_event-SameCore ev world s t e = handle_action-SameCore ev.tx_hash ev.action world _ _ e

  handle_batch-SameCore :
      (events : List (EthTxPoolEvent Tx × World)) (s t : LoopState Tx)
      → core s ≡ core t
      → SameCore (handle_batch api events s) (handle_batch api events t)
  unfolding handle_batch
  handle_batch-SameCore [] s t e = record { cores = e; answers = refl }
  handle_batch-SameCore ((ev, world) ∷ events) s t e =
      let same = handle_event-SameCore ev world s t e in
      elim (Bool-cases (handle_event api ev world s).1) [
        | inl broken ↦
            rw (broken, sym same.answers ∙ broken, handle_batch)
              (record { cores = same.cores; answers = refl })
        | inr whole ↦
            rw (whole, sym same.answers ∙ whole, handle_batch)
              (handle_batch-SameCore events (handle_event api ev world s).0
                (handle_event api ev world t).0 same.cores)
      ]

  pub run_connection-SameCore :
      (inputs : List (Input Tx)) (s t : LoopState Tx)
      → core s ≡ core t
      → SameCore (run_connection api inputs s) (run_connection api inputs t)
  unfolding run_connection
  run_connection-SameCore [] s t e = record { cores = e; answers = refl }
  run_connection-SameCore (shutdown_changed true ∷ inputs) s t e = record {
    cores = e;
    answers = refl;
  }
  run_connection-SameCore (shutdown_changed false ∷ inputs) s t e =
      run_connection-SameCore inputs s t e
  run_connection-SameCore (stream_ended ∷ inputs) s t e = record { cores = e; answers = refl }
  run_connection-SameCore (batch events ∷ inputs) s t e =
      let same = handle_batch-SameCore events s t e in
      elim (Bool-cases (handle_batch api events s).1) [
        | inl broken ↦
            rw (broken, sym same.answers ∙ broken, run_connection)
              (record { cores = same.cores; answers = refl })
        | inr whole ↦
            rw (whole, sym same.answers ∙ whole, run_connection)
              (run_connection-SameCore inputs (handle_batch api events s).0
                (handle_batch api events t).0 same.cores)
      ]
