-- ===== src/Routes/Apart.antt =====
-- The requests of src/routes.rs and the events of src/txpool_ipc.rs, which share the metrics.
use Prim.Native.String.{String}
use magma_sidecar.Prelude.{
  ℕ, suc, ◌≡◌, refl, sym, ap, ◌∙◌, inl, inr, Bool-cases, ltb, if◌then◌else◌, Option, List, [], ◌∷◌,
}
use magma_sidecar.Prelude.Int.{as_i64}
use magma_sidecar.Tx.{TxApi}
use magma_sidecar.Backrun.Queues.{prune}
use magma_sidecar.Backrun.Observe.{observe}
use magma_sidecar.Backrun.Pool.{PendingPool, Reinjection, ObserveResult}
use magma_sidecar.Metrics.{
  Metrics, record_event, record_insert, record_prioritized, record_send_failure,
  add_backrun_expired, set_sent_cache,
}
use magma_sidecar.TxpoolIpc.Sent.{was_sent, insert_sent, sent_len}
use magma_sidecar.TxpoolIpc.Event.{
  LoopState, EthTxPoolEvent, Action, insert, commit, drop, evict, World, SendOutcome,
  SendOutcome-cases, with_metrics, kind_of, note_sent, send_all, note_observed, handle_gone,
  observe_insert, handle_insert, handle_action, handle_event,
}
use magma_sidecar.TxpoolIpc.Loop.Counts.{
  expired_lem, add_sent_cache_evictions_lem, note_observed_lem,
}

module _ (f : String → String → ℕ) where
  -- The same metrics with other counters of requests.
  abbrev pub recounted : Metrics → Metrics
  recounted m = record m { http_requests_total = f }

  module _ {Tx : Type 0} where
    abbrev pub retagged : LoopState Tx → LoopState Tx
    retagged s = with_metrics recounted s

    note_sent_apart :
        (r : Reinjection Tx) (clock : Option ℕ) (s : LoopState Tx)
        → note_sent r clock (retagged s) ≡ retagged (note_sent r clock s)
    unfolding note_sent record_prioritized set_sent_cache
    note_sent_apart r clock s =
        let (sent, evicted) = insert_sent r.hash r.priority s.sent in
        let m = record_prioritized clock s.metrics in
        ap
          (λ n. record (note_sent r clock s) {
            metrics = set_sent_cache (as_i64 (sent_len sent)) n;
          })
          (add_sent_cache_evictions_lem evicted (recounted m)
            ∙ sym (ap recounted (add_sent_cache_evictions_lem evicted m)))

    note_observed_apart :
        (res : ObserveResult Tx) (pool : PendingPool Tx) (m : Metrics)
        → note_observed res pool (recounted m) ≡ recounted (note_observed res pool m)
    note_observed_apart res pool m =
        note_observed_lem res pool (recounted m) ∙ sym (ap recounted (note_observed_lem res pool m))

    send_all_apart :
        (sends : ℕ → SendOutcome) (i : ℕ) (rs : List (Reinjection Tx)) (s : LoopState Tx)
        → let (after, broken) = send_all sends i rs s in
          send_all sends i rs (retagged s) ≡ (retagged after, broken)
    unfolding send_all record_send_failure
    send_all_apart sends i [] s = refl
    send_all_apart sends i (r ∷ rs) s = elim (Bool-cases (was_sent r.hash s.sent)) [
      | inl echo ↦ rw (echo, send_all) (send_all_apart sends i rs s)
      | inr new ↦ elim (SendOutcome-cases (sends i)) [
        | inl down ↦ rw (new, down, send_all) refl
        | inr (clock, up) ↦
            rw (new, up, send_all)
              (rw (note_sent_apart r clock s)
                (send_all_apart sends (suc i) rs (note_sent r clock s)))
      ]
    ]

module _ {Tx : Type 0} (api : TxApi Tx) (f : String → String → ℕ) where
  observe_insert_apart :
      (hash : ℕ) (tx : Tx) (world : World) (s : LoopState Tx)
      → let (after, chosen) = observe_insert api hash tx world s in
        observe_insert api hash tx world (retagged f s) ≡ (retagged f after, chosen)
  unfolding observe_insert
  observe_insert_apart hash tx world s =
      let (pruned, expired) = prune world.prune_now s.pool in
      let (pool, res) = observe api hash tx world.observe_now pruned in
      let noted = if ltb 0 expired then add_backrun_expired expired s.metrics else s.metrics in
      let same =
        expired_lem expired (recounted f s.metrics)
        ∙ sym (ap (recounted f) (expired_lem expired s.metrics)) in
      ap (λ m. (record s { pool = pool; metrics = m }, res.reinjections))
        (ap (note_observed res pool) same ∙ note_observed_apart f res pool noted)

  handle_insert_apart :
      (hash : ℕ) (tx : Tx) (world : World) (s : LoopState Tx)
      → let (after, broken) = handle_insert api hash tx world s in
        handle_insert api hash tx world (retagged f s) ≡ (retagged f after, broken)
  unfolding handle_insert record_insert
  handle_insert_apart hash tx world s = elim (Bool-cases (was_sent hash s.sent)) [
    | inl echo ↦ rw echo refl
    | inr new ↦
        let counted = with_metrics record_insert s in
        let (observed, chosen) = observe_insert api hash tx world counted in
        rw new (
          ap (λ r. send_all world.sends 0 r.1 r.0) (observe_insert_apart hash tx world counted)
          ∙ send_all_apart f world.sends 0 chosen observed)
  ]

  handle_action_apart :
      (hash : ℕ) (action : Action Tx) (world : World) (s : LoopState Tx)
      → let (after, broken) = handle_action api hash action world s in
        handle_action api hash action world (retagged f s) ≡ (retagged f after, broken)
  unfolding handle_action handle_gone set_sent_cache
  handle_action_apart hash (insert tx) world s = handle_insert_apart hash tx world s
  handle_action_apart hash commit world s = refl
  handle_action_apart hash drop world s = refl
  handle_action_apart hash evict world s = refl

  pub handle_event_apart :
      (ev : EthTxPoolEvent Tx) (world : World) (s : LoopState Tx)
      → let (after, broken) = handle_event api ev world s in
        handle_event api ev world (retagged f s) ≡ (retagged f after, broken)
  unfolding handle_event record_event
  handle_event_apart ev world s =
      handle_action_apart ev.tx_hash ev.action world
        (with_metrics (record_event (kind_of ev.action) world.clock) s)
