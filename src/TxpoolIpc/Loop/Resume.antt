-- ===== src/TxpoolIpc/Loop/Resume.antt =====
-- A lost connection and the next one, in src/txpool_ipc.rs, against one connection that holds.
use magma_sidecar.Prelude.{
  ℕ, zero, suc, ◌≡◌, refl, ◌∙◌, sym, inl, inr, true, false, Bool-cases, Option-cases, none, some,
  List, [], ◌∷◌, ◌++◌,
}
use magma_sidecar.Tx.{TxApi}
use magma_sidecar.Metrics.{set_ipc_state, connecting}
use magma_sidecar.TxpoolIpc.Event.{LoopState, with_metrics, handle_batch}
use magma_sidecar.TxpoolIpc.Loop.{
  Input, shutdown_changed, stream_ended, batch, Outcome, returned, disconnected, waiting,
  Outcome-cases, Attempt, opened, run_connection, run_attempts,
}
use magma_sidecar.TxpoolIpc.Loop.Reconnect.{core, SameCore, run_connection-SameCore}

module _ {Tx : Type 0} where
  -- A round in which the node accepts the connection, and rounds in which it does not.
  abbrev pub live : List (Input Tx) → Attempt Tx
  live inputs = record { shutdown = false; connection = some inputs }

  abbrev pub outage : ℕ → List (Attempt Tx) → List (Attempt Tx)
  outage zero rest = rest
  outage (suc n) rest = record { shutdown = false; connection = none } ∷ outage n rest

  trans-SameCore :
      {A : Type 0} (r t u : LoopState Tx × A) → SameCore r t → SameCore t u → SameCore r u
  trans-SameCore r t u a b = record { cores = a.cores ∙ b.cores; answers = a.answers ∙ b.answers }

module _ {Tx : Type 0} (api : TxApi Tx) where
  -- What follows a connection.
  abbrev next : List (Attempt Tx) → LoopState Tx × Outcome → LoopState Tx × Outcome
  next rest (s, o) = elim o [
    | returned ↦ (s, returned)
    | disconnected ↦ run_attempts api rest s
    | waiting ↦ (s, waiting)
  ]

  run_attempts-next :
      (a : Attempt Tx) (inputs : List (Input Tx)) (rest : List (Attempt Tx)) (s : LoopState Tx)
      → a.shutdown ≡ false
      → a.connection ≡ some inputs
      → run_attempts api (a ∷ rest) s ≡ next rest (run_connection api inputs (opened s))
  unfolding run_attempts
  run_attempts-next a inputs rest s on accepted = rw (on, accepted, run_attempts) refl

  run_connection_append :
      (first second : List (Input Tx)) (s : LoopState Tx)
      → (run_connection api first s).1 ≡ waiting
      → run_connection api (first ++ second) s
        ≡ run_connection api second (run_connection api first s).0
  unfolding run_connection
  run_connection_append [] second s e = refl
  run_connection_append (shutdown_changed true ∷ first) second s e = absurd (cc e)
  run_connection_append (shutdown_changed false ∷ first) second s e =
      run_connection_append first second s e
  run_connection_append (stream_ended ∷ first) second s e = absurd (cc e)
  run_connection_append (batch events ∷ first) second s e =
      elim (Bool-cases (handle_batch api events s).1) [
        | inl broken ↦ absurd (cc (rw (broken, run_connection) at e))
        | inr whole ↦
            rw (whole, run_connection)
              (run_connection_append first second (handle_batch api events s).0
                (rw (whole, run_connection) at e))
      ]

  next-SameCore :
      (rest : List (Attempt Tx)) (r t : LoopState Tx × Outcome)
      → ((s s' : LoopState Tx)
          → core s ≡ core s'
          → SameCore (run_attempts api rest s) (run_attempts api rest s'))
      → SameCore r t
      → SameCore (next rest r) (next rest t)
  next-SameCore rest r t go same = elim (Outcome-cases r.1) [
    | inl stop ↦ rw (stop, sym same.answers ∙ stop) (record { cores = same.cores; answers = refl })
    | inr (inl lost) ↦ rw (lost, sym same.answers ∙ lost) (go r.0 t.0 same.cores)
    | inr (inr idle) ↦
        rw (idle, sym same.answers ∙ idle) (record { cores = same.cores; answers = refl })
  ]

  run_attempts-SameCore :
      (attempts : List (Attempt Tx)) (s t : LoopState Tx)
      → core s ≡ core t
      → SameCore (run_attempts api attempts s) (run_attempts api attempts t)
  unfolding run_attempts
  run_attempts-SameCore [] s t e = record { cores = e; answers = refl }
  run_attempts-SameCore (a ∷ attempts) s t e = elim (Bool-cases a.shutdown) [
    | inl off ↦ rw (off, run_attempts) (record { cores = e; answers = refl })
    | inr on ↦ elim (Option-cases a.connection) [
      | inl refused ↦
          rw (on, refused, run_attempts)
            (run_attempts-SameCore attempts (with_metrics (set_ipc_state connecting) s)
              (with_metrics (set_ipc_state connecting) t) e)
      | inr (inputs, accepted) ↦
          rw
            (
              run_attempts-next a inputs attempts s on accepted,
              run_attempts-next a inputs attempts t on accepted,
            )
            (next-SameCore attempts (run_connection api inputs (opened s))
              (run_connection api inputs (opened t)) (run_attempts-SameCore attempts)
              (run_connection-SameCore api inputs (opened s) (opened t) e))
    ]
  ]

  outage-SameCore :
      (n : ℕ) (rest : List (Attempt Tx)) (s : LoopState Tx)
      → SameCore (run_attempts api (outage n rest) s) (run_attempts api rest s)
  unfolding run_attempts
  outage-SameCore zero rest s = record { cores = refl; answers = refl }
  outage-SameCore (suc n) rest s =
      let dialled = with_metrics (set_ipc_state connecting) s in
      trans-SameCore _ _ _ (outage-SameCore n rest dialled)
        (run_attempts-SameCore rest dialled s refl)

  -- A stream that ends while the loop waits for input costs nothing but metrics: after any number of
  -- connections that fail, the next one goes on where the lost one stopped, with the pool, the dedup
  -- cache, the frames sent and the way to stop of a single connection with the inputs of both.
  pub run_attempts_resume :
      (first second : List (Input Tx)) (n : ℕ) (rest : List (Attempt Tx)) (s : LoopState Tx)
      → (run_connection api first s).1 ≡ waiting
      → SameCore
          (run_attempts api (live (first ++ stream_ended ∷ []) ∷ outage n (live second ∷ rest)) s)
          (run_attempts api (live (first ++ second) ∷ rest) s)
  unfolding run_connection
  run_attempts_resume first second n rest s e =
      let r = run_connection api first (opened s) in
      let idle = sym (run_connection-SameCore api first s (opened s) refl).answers ∙ e in
      let left = outage n (live second ∷ rest) in
      rw
        (
          run_attempts-next (live (first ++ stream_ended ∷ [])) (first ++ stream_ended ∷ []) left s
              refl refl,
          run_connection_append first (stream_ended ∷ []) (opened s) idle,
        )
        (trans-SameCore _ _ _ (outage-SameCore n (live second ∷ rest) r.0) (
          rw
            (
              run_attempts-next (live second) second rest r.0 refl refl,
              run_attempts-next (live (first ++ second)) (first ++ second) rest s refl refl,
              run_connection_append first second (opened s) idle,
            )
            (next-SameCore rest (run_connection api second (opened r.0))
              (run_connection api second r.0) (run_attempts-SameCore rest)
              (run_connection-SameCore api second (opened r.0) r.0 refl))))
