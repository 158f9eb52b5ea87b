-- ===== src/TxpoolIpc/Loop/Retry.antt =====
-- src/txpool_ipc.rs, lines 26, 122 to 135 and 238 to 243: the rounds of the loop while the node
-- accepts no connection, on a clock in milliseconds. The shutdown flag goes up once at most, as in
-- src/main.rs.
use magma_sidecar.Prelude.{
  ℕ, suc, ◌+◌, ◌-◌, ◌*◌, ◌≤◌, ◌≡◌, refl, inl, inr, Bool, true, false, Bool-cases, Option, none,
  some, List, [], ◌∷◌, length, All, ltb, leb, leb→le, arith, if◌then◌else◌,
}
use magma_sidecar.Tx.{TxApi}
use magma_sidecar.Metrics.{gauge, connecting, disabled, set_ipc_state}
use magma_sidecar.TxpoolIpc.Event.{LoopState, with_metrics}
use magma_sidecar.TxpoolIpc.Loop.{Attempt, returned, run_attempts}
use magma_sidecar.TxpoolIpc.Loop.Reconnect.{SameCore}

abbrev pub reconnect_interval : ℕ
reconnect_interval = 2000

-- How long `sleep_or_shutdown` waits, if `changed` completes after the given time, or never.
unfoldable pub sleep_or_shutdown : ℕ → Option ℕ → ℕ
sleep_or_shutdown duration none = duration
sleep_or_shutdown duration (some changed) = if ltb changed duration then changed else duration

-- What `borrow` reads, and when `changed` completes, if the flag goes up at the given moment, or
-- never. A change that was not seen yet completes at once.
abbrev pub borrow : Option ℕ → ℕ → Bool
borrow none now = false
borrow (some raised) now = leb raised now

abbrev pub changed_after : Option ℕ → ℕ → Option ℕ
changed_after none now = none
changed_after (some raised) now = some (raised - now)

-- When the next round begins, after a connect that took the given time and failed.
abbrev pub next_round : Option ℕ → ℕ → ℕ → ℕ
next_round raised now took =
    let failed = now + took in
    failed + sleep_or_shutdown reconnect_interval (changed_after raised failed)

-- The rounds with the moments at which they begin, if every connect fails and takes the given time.
abbrev pub refused_rounds : {Tx : Type 0} → Option ℕ → ℕ → List ℕ → List (ℕ × Attempt Tx)
refused_rounds raised now [] = []
refused_rounds raised now (took ∷ tooks) =
    (now, record { shutdown = borrow raised now; connection = none })
    ∷ refused_rounds raised (next_round raised now took) tooks

-- The moment at which the loop returns.
abbrev pub returns_at : {Tx : Type 0} → List (ℕ × Attempt Tx) → Option ℕ
returns_at [] = none
returns_at ((now, a) ∷ rounds) = if a.shutdown then some now else returns_at rounds

-- How often the loop calls connect before it returns.
abbrev pub connects : {Tx : Type 0} → List (ℕ × Attempt Tx) → ℕ
connects [] = 0
connects ((now, a) ∷ rounds) = if a.shutdown then 0 else suc (connects rounds)

abbrev pub attempts_of : {Tx : Type 0} → List (ℕ × Attempt Tx) → List (Attempt Tx)
attempts_of [] = []
attempts_of ((now, a) ∷ rounds) = a ∷ attempts_of rounds

-- The round after one that begins before the flag goes up: it begins soon, the rounds left are still
-- enough, and the calls of connect from then on, with the one before, are still few.
next_round_lem :
    (raised limit now took : ℕ)
    → leb raised now ≡ false
    → let after = next_round (some raised) now took in
      (took ≤ limit → after ≤ raised + limit)
      × ((rest : ℕ)
          → raised ≤ now + suc rest * reconnect_interval
          → raised ≤ after + rest * reconnect_interval)
      × ((calls : ℕ)
          → calls * reconnect_interval ≤ (raised + reconnect_interval) - suc after
          → suc calls * reconnect_interval ≤ (raised + reconnect_interval) - suc now)
unfolding sleep_or_shutdown
next_round_lem raised limit now took down = (
  λ short. ground (arith, down, short),
  λ rest enough. ground (arith, down, enough),
  λ calls few. ground (arith, down, few),
)

-- A run of refused rounds that ends in time.
pub record StopsInTime {Tx : Type 0} (api : TxApi Tx) (raised limit now : ℕ)
    (rounds : List (ℕ × Attempt Tx)) (s : LoopState Tx) : Type 0 where
  pub moment : ℕ
  pub returning : returns_at rounds ≡ some moment
  pub after_flag : raised ≤ moment
  pub prompt : moment ≤ raised + limit
  pub spaced : connects rounds * reconnect_interval ≤ (raised + reconnect_interval) - suc now
  pub kept : SameCore (run_attempts api (attempts_of rounds) s) (s, returned)
  pub off : (run_attempts api (attempts_of rounds) s).0.metrics.ipc_state ≡ gauge disabled

module _ {Tx : Type 0} (api : TxApi Tx) (raised limit : ℕ) where
  -- A round whose flag is up.
  flagged_stop :
      (now : ℕ) (rest : List (ℕ × Attempt Tx)) (s : LoopState Tx)
      → now ≤ raised + limit
      → leb raised now ≡ true
      → StopsInTime api raised limit now
          ((now, record { shutdown = leb raised now; connection = none }) ∷ rest)
          s
  unfolding run_attempts set_ipc_state
  flagged_stop now rest s soon up = record {
    moment = now;
    returning = rw up refl;
    after_flag = leb→le raised now up;
    prompt = soon;
    spaced = rw up (omega arith);
    kept = rw (up, run_attempts) (record { cores = refl; answers = refl });
    off = rw (up, run_attempts) refl;
  }

  -- A round whose flag is not up yet, before rounds that stop.
  refused_stop :
      (now took : ℕ) (rest : List (ℕ × Attempt Tx)) (s : LoopState Tx)
      → leb raised now ≡ false
      → StopsInTime api raised limit
          (next_round (some raised) now took)
          rest
          (with_metrics (set_ipc_state connecting) s)
      → StopsInTime api raised limit now
          ((now, record { shutdown = leb raised now; connection = none }) ∷ rest)
          s
  unfolding run_attempts
  refused_stop now took rest s down stop = record {
    moment = stop.moment;
    returning = rw down stop.returning;
    after_flag = stop.after_flag;
    prompt = stop.prompt;
    spaced = rw down ((next_round_lem raised limit now took down).2 (connects rest) stop.spaced);
    kept =
        rw (down, run_attempts) (record { cores = stop.kept.cores; answers = stop.kept.answers });
    off = rw (down, run_attempts) stop.off;
  }

  refused_rounds_stop :
      (now took : ℕ) (tooks : List ℕ) (s : LoopState Tx)
      → now ≤ raised + limit
      → All (λ t. t ≤ limit) (took ∷ tooks)
      → raised ≤ now + length tooks * reconnect_interval
      → StopsInTime api raised limit now (refused_rounds (some raised) now (took ∷ tooks)) s
  refused_rounds_stop now took [] s soon bounded enough = flagged_stop now [] s soon (ground arith)
  refused_rounds_stop now took (next ∷ tooks) s soon bounded enough =
      elim (Bool-cases (leb raised now)) [
        | inl up ↦ flagged_stop now _ s soon up
        | inr down ↦
            let waited = next_round_lem raised limit now took down in
            refused_stop now took _ s down (
              refused_rounds_stop (next_round (some raised) now took) next tooks
                (with_metrics (set_ipc_state connecting) s) (waited.0 bounded.0) bounded.1
                (waited.1 (length tooks) enough))
      ]

-- While the node accepts no connection, in rounds that begin at a moment `now`: where the shutdown
-- flag goes up at a moment `raised` that is not before `now`, no connect takes longer than `limit`,
-- and the rounds are as many as fill the time from `now` to one interval after `raised`, the loop
-- returns with the state `disabled`, no earlier than `raised` and no later than `limit` after it. The
-- pool, the dedup cache and the frames sent stay as they were, and connect is called once in every
-- started interval at most.
pub refused_rounds-StopsInTime :
    {Tx : Type 0} (api : TxApi Tx) (raised limit now : ℕ) (tooks : List ℕ) (s : LoopState Tx)
    → now ≤ raised
    → All (λ t. t ≤ limit) tooks
    → raised + reconnect_interval ≤ now + length tooks * reconnect_interval
    → StopsInTime api raised limit now (refused_rounds (some raised) now tooks) s
refused_rounds-StopsInTime api raised limit now [] s soon bounded enough = absurd (omega arith)
refused_rounds-StopsInTime api raised limit now (took ∷ tooks) s soon bounded enough =
    refused_rounds_stop api raised limit now took tooks s (omega arith) bounded (omega arith)
