-- ===== src/TxpoolIpc/Event/Lead.antt =====
-- A lead-block bid, from the event in src/txpool_ipc.rs to the wire.
use magma_sidecar.Prelude.{
  ℕ, ◌+◌, ◌%◌, ◌^◌, ◌≡◌, refl, ◌∙◌, true, false, some, Option, [], ◌∷◌, ◌++◌, if◌then◌else◌, ◌==◌,
}
use magma_sidecar.Tx.{TxApi}
use magma_sidecar.Policy.Score.{GatewayCall, is_tob, decode_gateway_call, compute_priority}
use magma_sidecar.Backrun.Pool.{PendingPool, Reinjection}
use magma_sidecar.Backrun.Queues.{prune}
use magma_sidecar.Backrun.Invariant.{IsValid, prune-IsValid, prune-SameLimits}
use magma_sidecar.Backrun.Observe.{is_gateway}
use magma_sidecar.Backrun.Lead.{observe_at_lead}
use magma_sidecar.TxpoolIpc.Sent.{was_sent}
use magma_sidecar.TxpoolIpc.Event.{
  LoopState, World, sent_at, observe_insert, handle_insert, with_metrics,
}
use magma_sidecar.TxpoolIpc.Event.Complete.{send_all_complete}
use magma_sidecar.TxpoolIpc.Event.Dedup.{frame}
use magma_sidecar.Metrics.{record_insert}

module _ {Tx : Type 0} (api : TxApi Tx) (hash : ℕ) (tx : Tx) where
  -- The re-injection of a lead-block bid: with 2 ^ 255 and the low 128 bits of its score, or the
  -- fallback where the score is zero.
  abbrev pub lead_reinjection : PendingPool Tx → Reinjection Tx
  lead_reinjection p = record {
    hash = hash;
    tx = tx;
    priority =
        if compute_priority api tx p.policy == 0
        then p.fallback
        else 2 ^ 255 + compute_priority api tx p.policy % 2 ^ 128;
  }

  observe_insert_lead :
      (world : World) (call : GatewayCall) (s : LoopState Tx)
      → IsValid s.pool
      → is_gateway api tx s.pool.policy ≡ true
      → decode_gateway_call api tx ≡ some call
      → is_tob call ≡ true
      → (observe_insert api hash tx world s).1 ≡ lead_reinjection s.pool ∷ []
  unfolding observe_insert
  observe_insert_lead world call s v bound decoded lead =
      let q = (prune world.prune_now s.pool).0 in
      let policy = (prune-SameLimits world.prune_now s.pool v).policy in
      let fallback = (prune-SameLimits world.prune_now s.pool v).fallback in
      (observe_at_lead api hash tx world.observe_now q call
        (prune-IsValid world.prune_now s.pool v).0 (rw policy bound) decoded lead).0
      ∙ rw (policy, fallback) refl

  -- A lead-block bid that arrives at a valid pool, is not in the dedup cache, and meets a node that
  -- takes what is sent: exactly one frame goes out, the bid with the priority of its score or the
  -- fallback, and the connection is kept.
  pub handle_insert_lead :
      (world : World) (call : GatewayCall) (s : LoopState Tx)
      → IsValid s.pool
      → was_sent hash s.sent ≡ false
      → ((j : ℕ) → (clock : Option ℕ) × (world.sends j ≡ sent_at clock))
      → is_gateway api tx s.pool.policy ≡ true
      → decode_gateway_call api tx ≡ some call
      → is_tob call ≡ true
      → let (after, broken) = handle_insert api hash tx world s in
        (after.wire ≡ s.wire ++ frame (lead_reinjection s.pool) ∷ []) × (broken ≡ false)
  unfolding handle_insert observe_insert
  handle_insert_lead world call s v new up bound decoded lead =
      let counted = with_metrics record_insert s in
      rw (new, observe_insert_lead world call counted v bound decoded lead, handle_insert)
        (send_all_complete world.sends 0 (lead_reinjection s.pool ∷ [])
          (observe_insert api hash tx world counted).0 up (new, tt, tt))
