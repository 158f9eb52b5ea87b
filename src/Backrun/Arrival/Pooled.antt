-- ===== src/Backrun/Arrival/Pooled.antt =====
-- Bids that src/backrun.rs observes after their target.
use magma_sidecar.Prelude.{
  ℕ, suc, ◌≡◌, refl, ap, ◌∙◌, Bool, true, false, some, List, [], ◌∷◌, ◌++◌, map, length, contains,
  All, arith, if◌then◌else◌,
}
use magma_sidecar.Prelude.Map
use magma_sidecar.Tx.{TxApi}
use magma_sidecar.Policy.Config.{PolicyConfig}
use magma_sidecar.Policy.Score.{compute_priority}
use magma_sidecar.Backrun.Pool.{PendingPool, CachedTx}
use magma_sidecar.Backrun.Queues.{add_cache}
use magma_sidecar.Backrun.Observe.{observe_at}
use magma_sidecar.Backrun.Observe.Branches.{opportunity, streamed_with, observe_backrun_pooled}
use magma_sidecar.Backrun.Arrival.{
  Arrival, observe_all, Bids, bid_frame, target_frame, group, IsPooled, bid_observed,
}

module _ {Tx : Type 0} (api : TxApi Tx) (policy : PolicyConfig) (t : ℕ) (a : Tx) where
  -- What goes out for the target, if the pool is asked for it.
  pub opportunity_pooled :
      (streamed : Bool) (p : PendingPool Tx) (seen_at : ℕ)
      → Map.get t p.cache ≡ some (record { tx = a; seen_at = seen_at })
      → contains t p.streamed_targets ≡ streamed
      → (opportunity t p ≡ (if streamed then [] else target_frame t a ∷ []))
        × (contains t (streamed_with t p) ≡ true)
  unfolding opportunity streamed_with
  opportunity_pooled true p seen_at held mark = rw mark (refl, mark)
  opportunity_pooled false p seen_at held mark = rw (mark, held) (refl, ground (arith, mark))

  late_bid_observed :
      (x : Arrival Tx) (streamed : Bool) (parked inserts : ℕ) (p : PendingPool Tx)
      → Bids api policy t x
      → IsPooled policy t a streamed parked (suc inserts) p
      → let (q, res) = observe_at api x.hash x.tx x.now p in
        IsPooled policy t a true parked inserts q
        × (res.reinjections
            ≡ (if streamed then [] else target_frame t a ∷ []) ++ bid_frame api policy t x ∷ [])
        × (res.pairs_matched ≡ 1)
  unfolding add_cache
  late_bid_observed x streamed parked inserts p b w =
      let q = add_cache x.hash x.tx x.now p in
      let c : CachedTx Tx = record { tx = x.tx; seen_at = x.now } in
      let held : Map.get t q.cache ≡ some (record { tx = a; seen_at = w.seen_at }) =
        ground (arith, Map.get-insert x.hash t c p.cache, w.cached, b.1) in
      let (out, marked) = opportunity_pooled streamed q w.seen_at held w.mark in
      let e =
        bid_observed api policy t x p b w.same_policy (omega (arith, w.cache_room))
        ∙ observe_backrun_pooled x.hash x.tx t (compute_priority api x.tx policy) x.now q
            (Map.contains_key_of_get t _ q.cache held) in
      rw e (
        record {
          same_policy = w.same_policy;
          seen_at = w.seen_at;
          cached = held;
          mark = marked;
          counted = w.counted;
          cache_room = ground (arith, Map.length-insert x.hash c p.cache, w.cache_room);
        },
        ap (λ o. o ++ bid_frame api policy t x ∷ []) out,
        refl,
      )

  -- Bids that arrive after their target.
  pub after_target :
      (xs : List (Arrival Tx)) (streamed : Bool) (parked : ℕ) (p : PendingPool Tx)
      → All (Bids api policy t) xs
      → IsPooled policy t a streamed parked (length xs) p
      → let (q, sent, pairs) = observe_all api xs p in
        (sent ≡ (
          if streamed
          then map (bid_frame api policy t) xs
          else group t a (map (bid_frame api policy t) xs)))
        × (pairs ≡ length xs)
        × (q.pending_count ≡ parked)
  unfolding observe_all
  after_target [] streamed parked p bs w = (ground arith, refl, w.counted)
  after_target (x ∷ xs) streamed parked p (b, bs) w =
      let q = (observe_at api x.hash x.tx x.now p).0 in
      let (pooled, out, one) = late_bid_observed x streamed parked (length xs) p b w in
      let (sent, pairs, left) = after_target xs true parked q bs pooled in
      ((λ i. out i ++ sent i) ∙ by_mark streamed, omega (arith, one, pairs), left)
    where
      by_mark :
          (streamed : Bool)
          → (if streamed then [] else target_frame t a ∷ [])
              ++ bid_frame api policy t x ∷ []
              ++ map (bid_frame api policy t) xs
            ≡ (if streamed
                then map (bid_frame api policy t) (x ∷ xs)
                else group t a (map (bid_frame api policy t) (x ∷ xs)))
      by_mark true = refl
      by_mark false = refl
