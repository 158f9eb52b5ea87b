-- ===== src/Backrun/Arrival/Waiting.antt =====
-- Bids that src/backrun.rs observes before their target.
use magma_sidecar.Prelude.{
  ℕ, suc, ◌≡◌, ◌≢◌, refl, ◌∙◌, Option, none, some, List, [], ◌∷◌, ◌++◌, length-append, arith,
}
use magma_sidecar.Prelude.Map
use magma_sidecar.Tx.{TxApi}
use magma_sidecar.Policy.Config.{PolicyConfig}
use magma_sidecar.Policy.Score.{compute_priority}
use magma_sidecar.Backrun.Pool.{PendingPool, PendingBid, CachedTx}
use magma_sidecar.Backrun.Queues.{add_cache, park}
use magma_sidecar.Backrun.Queues.Room.{push_pending_grown}
use magma_sidecar.Backrun.Observe.{observe_at}
use magma_sidecar.Backrun.Observe.Branches.{observe_backrun_parked}
use magma_sidecar.Backrun.Arrival.{Arrival, Bids, parked_bid, entry, IsWaiting, bid_observed}

module _ {Tx : Type 0} (api : TxApi Tx) (policy : PolicyConfig) (t : ℕ) where
  -- The bid parked, with the bids that wait before it.
  entry_snoc :
      (waiting : List (PendingBid Tx)) (b : PendingBid Tx) (m : Option (List (PendingBid Tx)))
      → m ≡ entry waiting
      → some (elim m [ none ↦ [] | some bids ↦ bids ] ++ b ∷ []) ≡ entry (waiting ++ b ∷ [])
  entry_snoc [] b m e = rw e refl
  entry_snoc (c ∷ waiting) b m e = rw e refl

  park-IsWaiting :
      (x : Arrival Tx) (waiting : List (PendingBid Tx)) (parked inserts bids : ℕ)
      (p : PendingPool Tx)
      → x.hash ≢ t
      → IsWaiting policy t waiting parked (suc inserts) (suc bids) p
      → IsWaiting policy t
          (waiting ++ parked_bid api policy t x ∷ [])
          parked
          inserts
          bids
          (park (parked_bid api policy t x) (add_cache x.hash x.tx x.now p))
  unfolding add_cache park
  park-IsWaiting x waiting parked inserts bids p apart w =
      let c : CachedTx Tx = record { tx = x.tx; seen_at = x.now } in
      record {
        same_policy = w.same_policy;
        uncached = ground (arith, Map.contains_key-insert x.hash t c p.cache, w.uncached, apart);
        unstreamed = w.unstreamed;
        held =
            Map.get-insert_self t _ p.pending
            ∙ entry_snoc waiting (parked_bid api policy t x) (Map.get t p.pending) w.held;
        counted = omega (arith, w.counted, length-append waiting (parked_bid api policy t x ∷ []));
        cache_room = ground (arith, Map.length-insert x.hash c p.cache, w.cache_room);
        pending_room = omega (arith, w.pending_room);
      }

  pub waiting_bid :
      (x : Arrival Tx) (waiting : List (PendingBid Tx)) (parked inserts bids : ℕ)
      (p : PendingPool Tx)
      → Bids api policy t x
      → IsWaiting policy t waiting parked (suc inserts) (suc bids) p
      → let (q, res) = observe_at api x.hash x.tx x.now p in
        IsWaiting policy t (waiting ++ parked_bid api policy t x ∷ []) parked inserts bids q
        × (res.reinjections ≡ [])
        × (res.pairs_matched ≡ 0)
  unfolding add_cache
  waiting_bid x waiting parked inserts bids p b w =
      let q = add_cache x.hash x.tx x.now p in
      let c : CachedTx Tx = record { tx = x.tx; seen_at = x.now } in
      let grown =
        push_pending_grown (parked_bid api policy t x) q (omega (arith, w.pending_room)) in
      let e =
        bid_observed api policy t x p b w.same_policy (omega (arith, w.cache_room))
        ∙ observe_backrun_parked x.hash x.tx t (compute_priority api x.tx policy) x.now q
            (ground (arith, Map.contains_key-insert x.hash t c p.cache, w.uncached, b.1)) in
      rw (e, grown) (park-IsWaiting x waiting parked inserts bids p b.1 w, refl, refl)
