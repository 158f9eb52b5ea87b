-- ===== src/TxpoolIpc/Loop/Once.antt =====
-- How often src/txpool_ipc.rs sends one hash.
use magma_sidecar.Prelude.{
  ap, ℕ, suc, ◌+◌, ◌≡◌, ◌≢◌, refl, sym, ◌∙◌, true, false, List, [], ◌∷◌, ◌++◌, Option, arith, All,
  All-any, All-append, ltb, if◌then◌else◌,
}
use magma_sidecar.Tx.{TxApi}
use magma_sidecar.Backrun.Pool.{Reinjection}
use magma_sidecar.Backrun.Queues.{prune}
use magma_sidecar.Backrun.Observe.{observe_at}
use magma_sidecar.Metrics.{
  Metrics, EventKind, EventCounters, record_event, record_insert, record_prioritized,
  add_backrun_expired, set_sent_cache, record_send_failure, set_ipc_state, record_reconnect,
}
use magma_sidecar.TxpoolIpc.Sent.{was_sent, insert_sent}
use magma_sidecar.TxpoolIpc.Sent.Kept.{insert_sent_idle}
use magma_sidecar.TxpoolIpc.Event.{
  EthTxPoolIpcTx, LoopState, World, with_metrics, ipc_tx, note_sent, handle_gone, observe_insert,
}
use magma_sidecar.TxpoolIpc.Loop.{PriorityMode, Attempt, run_attempts, start}
use magma_sidecar.TxpoolIpc.Loop.Counts.{
  expired_lem, add_sent_cache_evictions_lem, note_observed_lem,
}
use magma_sidecar.TxpoolIpc.Loop.Induction.{Steps, run_attempts_keeps_always}

-- The commits, drops and evictions that the metrics count.
abbrev pub departures : EventCounters → ℕ
departures c = c.commits + c.drops + c.evicts

module _ {Tx : Type 0} where
  -- No hash stands twice on the wire.
  abbrev pub Unrepeated : List (ℕ × EthTxPoolIpcTx Tx) → Type 0
  Unrepeated [] = Unit {0}
  Unrepeated (f ∷ frames) =
      All (λ (g : ℕ × EthTxPoolIpcTx Tx). f.0 ≢ g.0) frames × Unrepeated frames

  Unrepeated-snoc :
      (frames : List (ℕ × EthTxPoolIpcTx Tx)) (g : ℕ × EthTxPoolIpcTx Tx)
      → Unrepeated frames
      → All (λ (f : ℕ × EthTxPoolIpcTx Tx). f.0 ≢ g.0) frames
      → Unrepeated (frames ++ g ∷ [])
  Unrepeated-snoc [] g u apart = (tt, tt)
  Unrepeated-snoc (f ∷ frames) g u apart =
      (All-append _ frames (g ∷ []) u.0 (apart.0, tt), Unrepeated-snoc frames g u.1 apart.1)

  All-map :
      {P Q : ℕ × EthTxPoolIpcTx Tx → Type 0}
      → ((f : ℕ × EthTxPoolIpcTx Tx) → P f → Q f)
      → (frames : List (ℕ × EthTxPoolIpcTx Tx)) → All P frames
      → All Q frames
  All-map g [] h = tt
  All-map g (f ∷ frames) h = (g f h.0, All-map g frames h.1)

  -- While nothing was evicted from the dedup cache and nothing left the node's pool, what was sent is
  -- in the dedup cache, and was sent once.
  IsOnce : LoopState Tx → Type 0
  IsOnce s =
      s.metrics.txpool_sent_cache_evictions_total ≡ 0
      → departures s.metrics.txpool_events_total ≡ 0
      → All (λ (f : ℕ × EthTxPoolIpcTx Tx). was_sent f.0 s.sent ≡ true) s.wire × Unrepeated s.wire

-- Both counts.
abbrev counts : Metrics → ℕ × ℕ
counts m = (m.txpool_sent_cache_evictions_total, departures m.txpool_events_total)

-- A commit, a drop or an eviction is counted.
departure_counted :
    (kind : EventKind) (clock : Option ℕ) (m : Metrics)
    → kind ≢ EventKind.insert
    → departures (record_event kind clock m).txpool_events_total
      ≡ suc (departures m.txpool_events_total)
unfolding record_event
departure_counted EventKind.insert clock m other = absurd (other refl)
departure_counted EventKind.commit clock m other = omega arith
departure_counted EventKind.drop clock m other = omega arith
departure_counted EventKind.evict clock m other = omega arith

module _ {Tx : Type 0} (api : TxApi Tx) where
  -- Other metrics with the same counts, and the same cache and wire.
  keep-IsOnce :
      (s t : LoopState Tx)
      → counts t.metrics ≡ counts s.metrics
      → t.sent ≡ s.sent
      → t.wire ≡ s.wire
      → IsOnce s
      → IsOnce t
  unfolding IsOnce
  keep-IsOnce s t same sent wire o idle stayed =
      rw (sent, wire) (o (ap (λ c. c.0) (sym same) ∙ idle) (ap (λ c. c.1) (sym same) ∙ stayed))

  note_sent-IsOnce :
      (r : Reinjection Tx) (clock : Option ℕ) (s : LoopState Tx)
      → was_sent r.hash s.sent ≡ false
      → IsOnce s
      → IsOnce (note_sent r clock s)
  unfolding IsOnce note_sent ipc_tx set_sent_cache record_prioritized
  note_sent-IsOnce r clock s new o idle stayed =
      let (sent, evicted) = insert_sent r.hash r.priority s.sent in
      let same =
        ap counts (add_sent_cache_evictions_lem evicted (record_prioritized clock s.metrics)) in
      let more = ap (λ c. c.0) same in
      let (held, once) = o (omega (arith, more, idle)) (ap (λ c. c.1) (sym same) ∙ stayed) in
      let (here, kept) = insert_sent_idle r.hash r.priority s.sent (omega (arith, more, idle)) in
      (
        All-append _ s.wire _ (All-map (λ f. kept f.0) s.wire held) (here, tt),
        Unrepeated-snoc s.wire (r.hash, ipc_tx r) once
            (All-map (λ f sent_before e. cc (sent_before, new, e)) s.wire held),
      )

  gone-IsOnce :
      (kind : EventKind) (clock : Option ℕ) (hash : ℕ) (s : LoopState Tx)
      → kind ≢ EventKind.insert
      → IsOnce s
      → IsOnce (handle_gone hash (with_metrics (record_event kind clock) s))
  unfolding IsOnce handle_gone set_sent_cache
  gone-IsOnce kind clock hash s other o idle stayed =
      absurd (omega (arith, stayed, departure_counted kind clock s.metrics other))

  observe_insert-IsOnce :
      (hash : ℕ) (tx : Tx) (world : World) (s : LoopState Tx)
      → IsOnce s
      → IsOnce (observe_insert api hash tx world s).0
  unfolding observe_insert
  observe_insert-IsOnce hash tx world s o =
      let (p, expired) = prune world.prune_now s.pool in
      let (q, res) = observe_at api hash tx world.observe_now p in
      let noted = if ltb 0 expired then add_backrun_expired expired s.metrics else s.metrics in
      let e = ap counts (expired_lem expired s.metrics) in
      let n = ap counts (note_observed_lem res q noted) in keep-IsOnce s _ (n ∙ e) refl refl o

  IsOnce-Steps : Steps api (λ hash tx. Unit {0}) (λ r. Unit {0}) IsOnce
  unfolding record_event record_insert record_send_failure set_ipc_state record_reconnect
  IsOnce-Steps = record {
    event = λ clock s. keep-IsOnce s _ refl refl refl;
    inserted = λ s. keep-IsOnce s _ refl refl refl;
    observed = λ hash tx world s any o. (observe_insert-IsOnce hash tx world s o, All-any _);
    frame_sent = λ r clock s any new. note_sent-IsOnce r clock s new;
    send_failed = λ s. keep-IsOnce s _ refl refl refl;
    gone = gone-IsOnce;
    state = λ st s. keep-IsOnce s _ refl refl refl;
    reconnected = λ s. keep-IsOnce s _ refl refl refl;
  }

-- Started in any mode with any metrics, over any connections: where the metrics at the end count no
-- eviction from the dedup cache, and no commit, drop or eviction of a transaction by the node, no
-- hash stands twice on the wire, and each is still in the dedup cache.
pub run_attempts-Unrepeated :
    {Tx : Type 0} (api : TxApi Tx) (mode : PriorityMode) (metrics : Metrics)
    (attempts : List (Attempt Tx))
    → (run_attempts api attempts (start api mode metrics)
        ).0.metrics.txpool_sent_cache_evictions_total
      ≡ 0
    → departures (run_attempts api attempts (start api mode metrics)).0.metrics.txpool_events_total
      ≡ 0
    → let s = (run_attempts api attempts (start api mode metrics)).0 in
      All (λ (f : ℕ × EthTxPoolIpcTx Tx). was_sent f.0 s.sent ≡ true) s.wire × Unrepeated s.wire
unfolding IsOnce start
run_attempts-Unrepeated api mode metrics attempts =
    run_attempts_keeps_always api IsOnce (IsOnce-Steps api) attempts (start api mode metrics)
      (λ idle stayed. (tt, tt))
