-- ===== src/TxpoolIpc/Event/Safety.antt =====
-- The inserts that src/txpool_ipc.rs leaves to the node's own ordering.
use magma_sidecar.Prelude.{ℕ, ◌≡◌, refl, ◌∙◌, ap, inl, inr, true, false, none, [], ◌⊎◌}
use magma_sidecar.Prelude.Map
use magma_sidecar.Tx.{TxApi}
use magma_sidecar.Policy.Score.{decode_gateway_call}
use magma_sidecar.Backrun.Pool.{PendingPool}
use magma_sidecar.Backrun.Queues.{prune, insert_cache}
use magma_sidecar.Backrun.Queues.Cache.{insert_cache-IsCacheValid}
use magma_sidecar.Backrun.Invariant.{IsValid, prune-IsValid, prune-SameLimits}
use magma_sidecar.Backrun.Observe.{is_gateway, observe_at}
use magma_sidecar.Backrun.Observe.Branches.{observe_other_vanilla}
use magma_sidecar.Backrun.Observe.Cases.{observe_at_other, observe_at_invalid}
use magma_sidecar.TxpoolIpc.Sent.{was_sent}
use magma_sidecar.TxpoolIpc.Event.{LoopState, World, send_all, observe_insert, handle_insert}

module _ {Tx : Type 0} (api : TxApi Tx) (hash : ℕ) (tx : Tx) where
  -- Nothing to send: not for the gateway and no parked bid waits for it once the pool is pruned, or a
  -- call of the gateway that does not decode.
  abbrev pub Unscored : World → PendingPool Tx → Type 0
  Unscored world p =
      ((is_gateway api tx p.policy ≡ false)
        × (Map.get hash (prune world.prune_now p).0.pending ≡ none))
      ⊎ ((is_gateway api tx p.policy ≡ true) × (decode_gateway_call api tx ≡ none))

  observe_at-Unscored :
      (world : World) (p : PendingPool Tx)
      → IsValid p
      → Unscored world p
      → let q = (prune world.prune_now p).0 in
        ((observe_at api hash tx world.observe_now q).1.reinjections ≡ [])
        × ((observe_at api hash tx world.observe_now q).0
            ≡ insert_cache hash tx world.observe_now q)
  observe_at-Unscored world p v idle =
      let q = (prune world.prune_now p).0 in
      let now = world.observe_now in
      let pruned = prune-IsValid world.prune_now p v in
      let (_, _, same) = insert_cache-IsCacheValid hash tx now q pruned.0.cache in
      let policy = same.policy ∙ (prune-SameLimits world.prune_now p v).policy in
      elim idle [
        | inl (away, gone) ↦
            let e =
              observe_at_other api hash tx now q (rw policy away)
              ∙ observe_other_vanilla hash (insert_cache hash tx now q) (rw same.pending gone) in
            (ap (λ r. r.1.reinjections) e, ap (λ r. r.0) e)
        | inr (bound, undecoded) ↦
            let e = observe_at_invalid api hash tx now q (rw policy bound) undecoded in
            (ap (λ r. r.1.reinjections) e, ap (λ r. r.0) e)
      ]

  -- An insert into a valid pool, of a hash that is not in the dedup cache, that is either not for
  -- the gateway and awaited by no bid that is still parked after pruning, or a gateway call that
  -- does not decode: no frame goes out, the dedup cache stays as it is, the connection is kept,
  -- and the pool prunes and caches the transaction and does no more.
  pub handle_insert-Unscored :
      (world : World) (s : LoopState Tx)
      → IsValid s.pool
      → was_sent hash s.sent ≡ false
      → Unscored world s.pool
      → let (after, broken) = handle_insert api hash tx world s in
        (after.wire ≡ s.wire)
        × (after.sent ≡ s.sent)
        × (broken ≡ false)
        × (after.pool ≡ insert_cache hash tx world.observe_now (prune world.prune_now s.pool).0)
  unfolding handle_insert observe_insert send_all
  handle_insert-Unscored world s v new idle =
      let (empty, pool) = observe_at-Unscored world s.pool v idle in
      rw (new, empty, handle_insert) (refl, refl, refl, pool)
