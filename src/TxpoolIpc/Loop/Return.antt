-- ===== src/TxpoolIpc/Loop/Return.antt =====
-- When the loop of src/txpool_ipc.rs stops.
use magma_sidecar.Prelude.{
  ◌≡◌, refl, subst, inl, inr, true, false, Bool-cases, Option-cases, Option, none, some, List, [],
  ◌∷◌, ◌++◌,
}
use magma_sidecar.Tx.{TxApi}
use magma_sidecar.Metrics.{gauge, disabled, connecting, set_ipc_state}
use magma_sidecar.TxpoolIpc.Event.{LoopState, with_metrics, handle_batch}
use magma_sidecar.TxpoolIpc.Loop.{
  Input, shutdown_changed, stream_ended, batch, returned, waiting, Outcome-cases, Attempt, opened,
  run_connection, run_attempts,
}
use magma_sidecar.TxpoolIpc.Loop.Run.{run_attempts-Off}

module _ {Tx : Type 0} where
  -- A connection that is left in the end: the stream ends, or the shutdown is seen.
  pub data Settles : List (Input Tx) → Type 0 where
    ended : {inputs : List (Input Tx)} → Settles (stream_ended ∷ inputs)
    stopped : {inputs : List (Input Tx)} → Settles (shutdown_changed true ∷ inputs)
    later :
        (input : Input Tx) {inputs : List (Input Tx)} → Settles inputs → Settles (input ∷ inputs)

  abbrev pub SettlesIfAny : Option (List (Input Tx)) → Type 0
  SettlesIfAny none = Unit
  SettlesIfAny (some inputs) = Settles inputs

  -- The shutdown flag is up at the head of some round, and every connection before is left.
  pub data Stops : List (Attempt Tx) → Type 0 where
    flagged :
        (a : Attempt Tx) {attempts : List (Attempt Tx)} → a.shutdown ≡ true → Stops (a ∷ attempts)
    onward :
        (a : Attempt Tx) {attempts : List (Attempt Tx)}
        → SettlesIfAny a.connection
        → Stops attempts
        → Stops (a ∷ attempts)

module _ {Tx : Type 0} (api : TxApi Tx) where
  -- A connection that settles does not keep the loop waiting.
  run_connection-Settles :
      (inputs : List (Input Tx)) (s : LoopState Tx)
      → Settles inputs
      → (run_connection api inputs s).1 ≡ waiting
      → ⊥
  unfolding run_connection
  run_connection-Settles [] s settled e = elim settled [ ]
  run_connection-Settles (stream_ended ∷ inputs) s settled e = cc e
  run_connection-Settles (shutdown_changed true ∷ inputs) s settled e = cc e
  run_connection-Settles (shutdown_changed false ∷ inputs) s (later _ settled) e =
      run_connection-Settles inputs s settled e
  run_connection-Settles (batch events ∷ inputs) s (later _ settled) e =
      elim (Bool-cases (handle_batch api events s).1) [
        | inl broken ↦ cc (rw (broken, run_connection) at e)
        | inr whole ↦
            run_connection-Settles inputs (handle_batch api events s).0 settled
              (rw (whole, run_connection) at e)
      ]

  -- A run that returns, and whatever would come after.
  abbrev Finishes : List (Attempt Tx) → List (Attempt Tx) → LoopState Tx → Type 0
  Finishes attempts more s =
      (run_attempts api (attempts ++ more) s ≡ run_attempts api attempts s)
      × ((run_attempts api attempts s).1 ≡ returned)

  flagged-Finishes :
      (a : Attempt Tx) (attempts more : List (Attempt Tx)) (s : LoopState Tx)
      → a.shutdown ≡ true
      → Finishes (a ∷ attempts) more s
  unfolding run_attempts
  flagged-Finishes a attempts more s off =
      (rw (off, run_attempts) refl, rw (off, run_attempts) refl)

  run_attempts-Finishes :
      (attempts more : List (Attempt Tx)) (s : LoopState Tx)
      → Stops attempts
      → Finishes attempts more s
  unfolding run_attempts
  run_attempts-Finishes [] more s stops = elim stops [ ]
  run_attempts-Finishes (a ∷ attempts) more s (flagged _ off) =
      flagged-Finishes a attempts more s off
  run_attempts-Finishes (a ∷ attempts) more s (onward _ settled stops) =
      elim (Bool-cases a.shutdown) [
        | inl off ↦ flagged-Finishes a attempts more s off
        | inr on ↦ elim (Option-cases a.connection) [
          | inl refused ↦
              let (same, done) =
                run_attempts-Finishes attempts more (with_metrics (set_ipc_state connecting) s)
                  stops in
              (rw (on, refused, run_attempts) same, rw (on, refused, run_attempts) done)
          | inr (inputs, accepted) ↦ elim (Outcome-cases (run_connection api inputs (opened s)).1) [
            | inl stop ↦ (
              rw (on, accepted, stop, run_attempts) refl,
              rw (on, accepted, stop, run_attempts) refl,
            )
            | inr (inl lost) ↦
                let (same, done) =
                  run_attempts-Finishes attempts more (run_connection api inputs (opened s)).0
                    stops in
                (
                  rw (on, accepted, lost, run_attempts) same,
                  rw (on, accepted, lost, run_attempts) done,
                )
            | inr (inr idle) ↦ absurd (
                run_connection-Settles inputs (opened s) (subst SettlesIfAny accepted settled) idle)
          ]
        ]
      ]

-- If every connection that the node accepts is left in the end, by the end of its stream or by the
-- shutdown, until the shutdown flag is up at the head of a round, then the loop returns, from any
-- state, with the state `disabled`, and nothing that would come later is looked at.
pub run_attempts_returns :
    {Tx : Type 0} (api : TxApi Tx) (attempts more : List (Attempt Tx)) (s : LoopState Tx)
    → Stops attempts
    → let (after, outcome) = run_attempts api attempts s in
      (outcome ≡ returned)
      × (after.metrics.ipc_state ≡ gauge disabled)
      × (run_attempts api (attempts ++ more) s ≡ (after, outcome))
run_attempts_returns api attempts more s stops =
    let (same, done) = run_attempts-Finishes api attempts more s stops in
    (done, run_attempts-Off api attempts s done, same)
