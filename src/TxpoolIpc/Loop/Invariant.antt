-- ===== src/TxpoolIpc/Loop/Invariant.antt =====
-- The invariant of the variables of `run_txpool_priority_loop` (src/txpool_ipc.rs).
use magma_sidecar.Prelude.{
  ℕ, ◌+◌, ◌≡◌, refl, ap, ◌∙◌, ltb, if◌then◌else◌, [], ◌∷◌, length, length-append, arith, Option,
  All-any,
}
use magma_sidecar.Prelude.Int.{as_i64}
use magma_sidecar.Tx.{TxApi}
use magma_sidecar.Backrun.Pool.{Reinjection}
use magma_sidecar.Backrun.Queues.{prune}
use magma_sidecar.Backrun.Observe.{observe_at}
use magma_sidecar.Backrun.Invariant.{IsValid, prune-IsValid, forget-IsValid, observe_at-IsValid}
use magma_sidecar.Metrics.{
  Metrics, EventKind, record_event, record_insert, record_prioritized, add_backrun_expired,
  add_sent_cache_evictions, set_sent_cache, record_send_failure, set_ipc_state, record_reconnect,
}
use magma_sidecar.TxpoolIpc.Sent.{sent_len}
use magma_sidecar.TxpoolIpc.Sent.Bounds.{
  IsSentValid, insert_sent-IsSentValid, remove_sent-IsSentValid,
}
use magma_sidecar.TxpoolIpc.Loop.Counts.{expired_lem, note_observed_lem}
use magma_sidecar.TxpoolIpc.Loop.Induction.{Steps}
use magma_sidecar.TxpoolIpc.Event.{
  LoopState, World, with_metrics, ipc_tx, note_sent, handle_gone, observe_insert,
}

-- `before` is the number of frames that the metrics counted before the loop started.
pub record IsLoopValid {Tx : Type 0} (before : ℕ) (s : LoopState Tx) : Type 0 where
  pub pool : IsValid s.pool
  pub sent : IsSentValid s.sent
  pub sent_gauge : s.metrics.txpool_sent_cache ≡ as_i64 (sent_len s.sent)
  pub counted : s.metrics.txpool_prioritized_total ≡ before + length s.wire

module _ {Tx : Type 0} where
  note_sent-IsLoopValid :
      (before : ℕ) (r : Reinjection Tx) (clock : Option ℕ) (s : LoopState Tx)
      → IsLoopValid before s
      → IsLoopValid before (note_sent r clock s)
  unfolding note_sent set_sent_cache add_sent_cache_evictions record_prioritized
  note_sent-IsLoopValid before r clock s v = record {
    pool = v.pool;
    sent = (insert_sent-IsSentValid r.hash r.priority s.sent v.sent).0;
    sent_gauge = refl;
    counted = ground (arith, v.counted, length-append s.wire ((r.hash, ipc_tx r) ∷ []));
  }

  -- An update of the metrics that leaves these two alone.
  metrics-IsLoopValid :
      (before : ℕ) (f : Metrics → Metrics) (s : LoopState Tx)
      → (f s.metrics).txpool_sent_cache ≡ s.metrics.txpool_sent_cache
      → (f s.metrics).txpool_prioritized_total ≡ s.metrics.txpool_prioritized_total
      → IsLoopValid before s
      → IsLoopValid before (with_metrics f s)
  metrics-IsLoopValid before f s sent prioritized v = record {
    pool = v.pool;
    sent = v.sent;
    sent_gauge = sent ∙ v.sent_gauge;
    counted = prioritized ∙ v.counted;
  }

  handle_gone-IsLoopValid :
      (before hash : ℕ) (s : LoopState Tx)
      → IsLoopValid before s
      → IsLoopValid before (handle_gone hash s)
  unfolding handle_gone set_sent_cache
  handle_gone-IsLoopValid before hash s v = record {
    pool = forget-IsValid hash s.pool v.pool;
    sent = remove_sent-IsSentValid hash s.sent v.sent;
    sent_gauge = refl;
    counted = v.counted;
  }

module _ {Tx : Type 0} (api : TxApi Tx) (before : ℕ) where
  observe_insert-IsLoopValid :
      (hash : ℕ) (tx : Tx) (world : World) (s : LoopState Tx)
      → IsLoopValid before s
      → IsLoopValid before (observe_insert api hash tx world s).0
  unfolding observe_insert
  observe_insert-IsLoopValid hash tx world s v =
      let pruned = (prune world.prune_now s.pool).0 in
      let expired = (prune world.prune_now s.pool).1 in
      let noted = if ltb 0 expired then add_backrun_expired expired s.metrics else s.metrics in
      let result = observe_at api hash tx world.observe_now pruned in
      let e = expired_lem expired s.metrics in
      let o = note_observed_lem result.1 result.0 noted in
      record {
        pool =
            observe_at-IsValid api hash tx world.observe_now pruned
              (prune-IsValid world.prune_now s.pool v.pool).0;
        sent = v.sent;
        sent_gauge =
            ap (λ m. m.txpool_sent_cache) o ∙ ap (λ m. m.txpool_sent_cache) e ∙ v.sent_gauge;
        counted =
            ap (λ m. m.txpool_prioritized_total) o
            ∙ ap (λ m. m.txpool_prioritized_total) e
            ∙ v.counted;
      }

  event-IsLoopValid :
      (kind : EventKind) (clock : Option ℕ) (s : LoopState Tx)
      → IsLoopValid before s
      → IsLoopValid before (with_metrics (record_event kind clock) s)
  unfolding record_event
  event-IsLoopValid kind clock s = metrics-IsLoopValid before (record_event kind clock) s refl refl

  pub IsLoopValid-Steps : Steps api (λ hash tx. Unit {0}) (λ r. Unit {0}) (IsLoopValid before)
  unfolding record_insert record_send_failure set_ipc_state record_reconnect
  IsLoopValid-Steps = record {
    event = λ clock s. event-IsLoopValid EventKind.insert clock s;
    inserted = λ s. metrics-IsLoopValid before record_insert s refl refl;
    observed = λ hash tx world s any v. (observe_insert-IsLoopValid hash tx world s v, All-any _);
    frame_sent = λ r clock s any new. note_sent-IsLoopValid before r clock s;
    send_failed = λ s. metrics-IsLoopValid before record_send_failure s refl refl;
    gone = λ kind clock hash s other v.
        handle_gone-IsLoopValid before hash _ (event-IsLoopValid kind clock s v);
    state = λ st s. metrics-IsLoopValid before (set_ipc_state st) s refl refl;
    reconnected = λ s. metrics-IsLoopValid before record_reconnect s refl refl;
  }
