-- ===== src/TxpoolIpc/Event/Lost.antt =====
-- A send that fails, in src/txpool_ipc.rs, and what the pool has marked by then.
use magma_sidecar.Prelude.{
  ℕ, ◌≡◌, refl, ap, ◌∙◌, true, false, some, List, [], ◌∷◌, ◌++◌, contains, arith, ==_refl,
}
use magma_sidecar.Prelude.Map
use magma_sidecar.Tx.{TxApi}
use magma_sidecar.Metrics.{record_insert, record_send_failure}
use magma_sidecar.Policy.Encoding.{encode_opportunity_priority, encode_backrun_bid_priority}
use magma_sidecar.Policy.Score.{GatewayCall, is_tob, decode_gateway_call, compute_priority}
use magma_sidecar.Backrun.Pool.{PendingPool, CachedTx, Reinjection, ObserveResult}
use magma_sidecar.Backrun.Queues.{prune, insert_cache}
use magma_sidecar.Backrun.Queues.Cache.{insert_cache-IsCacheValid}
use magma_sidecar.Backrun.Invariant.{IsValid, prune-IsValid, prune-SameLimits}
use magma_sidecar.Backrun.Observe.{is_gateway, emit_opportunity_once}
use magma_sidecar.Backrun.Observe.Branches.{opportunity, streamed_with, observe_backrun_pooled}
use magma_sidecar.Backrun.Observe.Cases.{observe_at_backrun}
use magma_sidecar.TxpoolIpc.Sent.{was_sent}
use magma_sidecar.TxpoolIpc.Event.{
  LoopState, World, SendOutcome, failed, with_metrics, send_all, observe_insert, handle_insert,
}

module _ {Tx : Type 0} where
  send_all_fails :
      (sends : ℕ → SendOutcome) (r : Reinjection Tx) (rs : List (Reinjection Tx)) (s : LoopState Tx)
      → was_sent r.hash s.sent ≡ false
      → sends 0 ≡ failed
      → send_all sends 0 (r ∷ rs) s ≡ (with_metrics record_send_failure s, true)
  unfolding send_all
  send_all_fails sends r rs s new down = rw (new, down, send_all) refl

  emit_marked :
      (t : ℕ) (p : PendingPool Tx) (res : ObserveResult Tx)
      → contains t p.streamed_targets ≡ true
      → emit_opportunity_once t p res ≡ (p, res)
  unfolding emit_opportunity_once
  emit_marked t p res marked = rw marked refl

  -- A target that is cached and not streamed is chosen, and marked.
  chosen :
      (t : ℕ) (cached : CachedTx Tx) (p : PendingPool Tx)
      → Map.get t p.cache ≡ some cached
      → contains t p.streamed_targets ≡ false
      → (opportunity t p
          ≡ record { hash = t; tx = cached.tx; priority = encode_opportunity_priority t } ∷ [])
        × (contains t (streamed_with t p) ≡ true)
  unfolding opportunity streamed_with
  chosen t cached p held first = (
    rw (first, held, opportunity) refl,
    rw (first, held, streamed_with) (ground (arith, first, ==_refl t)),
  )

module _ {Tx : Type 0} (api : TxApi Tx) (hash : ℕ) (tx : Tx) where
  -- The pool that the bid meets: pruned, and with the bid cached.
  abbrev pub met : World → PendingPool Tx → PendingPool Tx
  met world p = insert_cache hash tx world.observe_now (prune world.prune_now p).0

  -- What the bid brings about in the pool, before anything is sent.
  observe_insert_chosen :
      (world : World) (call : GatewayCall) (cached : CachedTx Tx) (s : LoopState Tx)
      → IsValid s.pool
      → is_gateway api tx s.pool.policy ≡ true
      → decode_gateway_call api tx ≡ some call
      → is_tob call ≡ false
      → Map.get call.target_tx_hash (met world s.pool).cache ≡ some cached
      → contains call.target_tx_hash (met world s.pool).streamed_targets ≡ false
      → let target = call.target_tx_hash in
        let (after, reinjections) = observe_insert api hash tx world s in
        (rest : List (Reinjection Tx)) × (reinjections
          ≡ record { hash = target; tx = cached.tx; priority = encode_opportunity_priority target }
            ∷ rest)
        × (contains target after.pool.streamed_targets ≡ true)
        × (Map.get target after.pool.cache ≡ some cached)
  unfolding observe_insert
  observe_insert_chosen world call cached s v bound decoded follows held first =
      let target = call.target_tx_hash in
      let p = (prune world.prune_now s.pool).0 in
      let q = met world s.pool in
      let (_, _, same) =
        insert_cache-IsCacheValid hash tx world.observe_now p
          (prune-IsValid world.prune_now s.pool v).0.cache in
      let policy = same.policy ∙ (prune-SameLimits world.prune_now s.pool v).policy in
      let (first_out, marked) = chosen target cached q held first in
      let bid : Reinjection Tx = record {
        hash = hash;
        tx = tx;
        priority = encode_backrun_bid_priority target (compute_priority api tx q.policy);
      } in
      let e =
        observe_at_backrun api hash tx world.observe_now p call (rw policy bound) decoded follows
        ∙ observe_backrun_pooled hash tx target (compute_priority api tx q.policy) world.observe_now
            q (Map.contains_key_of_get target cached q.cache held) in
      (
        bid ∷ [],
        ap (λ r. r.1.reinjections) e ∙ ap (λ rs. rs ++ bid ∷ []) first_out,
        ap (λ r. contains target r.0.streamed_targets) e ∙ marked,
        ap (λ r. Map.get target r.0.cache) e ∙ held,
      )

  -- A backrun bid arrives at a valid pool that has its target cached and not streamed; neither is in
  -- the dedup cache; and the first send fails. Then no frame goes out, the dedup cache stays as it
  -- is, the connection is left, and the pool, which still has the target cached, will not choose it
  -- again for any later bid: it is marked as streamed, and was never sent.
  pub handle_insert_lost :
      (world : World) (call : GatewayCall) (cached : CachedTx Tx) (s : LoopState Tx)
      → IsValid s.pool
      → was_sent hash s.sent ≡ false
      → was_sent call.target_tx_hash s.sent ≡ false
      → is_gateway api tx s.pool.policy ≡ true
      → decode_gateway_call api tx ≡ some call
      → is_tob call ≡ false
      → Map.get call.target_tx_hash (met world s.pool).cache ≡ some cached
      → contains call.target_tx_hash (met world s.pool).streamed_targets ≡ false
      → world.sends 0 ≡ failed
      → let (after, broken) = handle_insert api hash tx world s in
        (after.wire ≡ s.wire)
        × (after.sent ≡ s.sent)
        × (broken ≡ true)
        × (Map.get call.target_tx_hash after.pool.cache ≡ some cached)
        × ((res : ObserveResult Tx)
            → emit_opportunity_once call.target_tx_hash after.pool res ≡ (after.pool, res))
  unfolding handle_insert observe_insert
  handle_insert_lost world call cached s v new new_target bound decoded follows held first down =
      let counted = with_metrics record_insert s in
      let observed = observe_insert api hash tx world counted in
      let (rest, reinjections, marked, kept) =
        observe_insert_chosen world call cached counted v bound decoded follows held first in
      let e : handle_insert api hash tx world s
          ≡ (with_metrics record_send_failure observed.0, true) =
        rw (new, reinjections) (send_all_fails world.sends _ rest observed.0 new_target down) in
      (
        ap (λ r. r.0.wire) e,
        ap (λ r. r.0.sent) e,
        ap (λ r. r.1) e,
        ap (λ r. Map.get call.target_tx_hash r.0.pool.cache) e ∙ kept,
        λ res. rw e (emit_marked call.target_tx_hash observed.0.pool res marked),
      )
