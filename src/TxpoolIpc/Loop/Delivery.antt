-- ===== src/TxpoolIpc/Loop/Delivery.antt =====
-- The inserts that the node delivers to src/txpool_ipc.rs over its connections.
use magma_sidecar.Prelude.{ℕ, Option, none, some, List, [], ◌∷◌, All}
use magma_sidecar.TxpoolIpc.Event.{EthTxPoolEvent, Action, insert, commit, drop, evict, World}
use magma_sidecar.TxpoolIpc.Loop.{Input, shutdown_changed, stream_ended, batch, Attempt}

-- A property of the inserts that the node delivers, for an action, a batch, a connection and all
-- connections.
module _ {Tx : Type 0} (Ok : ℕ → Tx → Type 0) where
  abbrev pub OkAction : ℕ → Action Tx → Type 0
  OkAction hash (insert tx) = Ok hash tx
  OkAction hash commit = Unit
  OkAction hash drop = Unit
  OkAction hash evict = Unit

  abbrev pub OkEvent : EthTxPoolEvent Tx × World → Type 0
  OkEvent e = OkAction e.0.tx_hash e.0.action

  abbrev pub OkInput : Input Tx → Type 0
  OkInput (shutdown_changed flag) = Unit
  OkInput stream_ended = Unit
  OkInput (batch events) = All OkEvent events

  abbrev pub OkConnection : Option (List (Input Tx)) → Type 0
  OkConnection none = Unit
  OkConnection (some inputs) = All OkInput inputs

  abbrev pub Delivers : List (Attempt Tx) → Type 0
  Delivers attempts = All (λ (a : Attempt Tx). OkConnection a.connection) attempts

-- The property that every insert has.
module _ {Tx : Type 0} where
  OkEvent-any : (e : EthTxPoolEvent Tx × World) → OkEvent (λ hash tx. Unit {0}) e
  OkEvent-any e = by_action e.0.action
    where
      by_action : (action : Action Tx) → OkAction (λ hash tx. Unit {0}) e.0.tx_hash action
      by_action (insert tx) = tt
      by_action commit = tt
      by_action drop = tt
      by_action evict = tt

  OkEvents-any : (es : List (EthTxPoolEvent Tx × World)) → All (OkEvent (λ hash tx. Unit {0})) es
  OkEvents-any [] = tt
  OkEvents-any (e ∷ es) = (OkEvent-any e, OkEvents-any es)

  OkInputs-any : (inputs : List (Input Tx)) → All (OkInput (λ hash tx. Unit {0})) inputs
  OkInputs-any [] = tt
  OkInputs-any (shutdown_changed flag ∷ inputs) = (tt, OkInputs-any inputs)
  OkInputs-any (stream_ended ∷ inputs) = (tt, OkInputs-any inputs)
  OkInputs-any (batch events ∷ inputs) = (OkEvents-any events, OkInputs-any inputs)

  OkConnection-any : (c : Option (List (Input Tx))) → OkConnection (λ hash tx. Unit {0}) c
  OkConnection-any none = tt
  OkConnection-any (some inputs) = OkInputs-any inputs

  pub Delivers-any : (attempts : List (Attempt Tx)) → Delivers (λ hash tx. Unit {0}) attempts
  Delivers-any [] = tt
  Delivers-any (a ∷ attempts) = (OkConnection-any a.connection, Delivers-any attempts)
