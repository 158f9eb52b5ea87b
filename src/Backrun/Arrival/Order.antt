-- ===== src/Backrun/Arrival/Order.antt =====
-- The place of a target among the bids on it does not matter to src/backrun.rs.
use mathlib.Core.List.{append_assoc, map-append}
use magma_sidecar.Prelude.{
  ℕ, suc, ◌+◌, ◌≤◌, ◌≡◌, refl, ap, ◌∙◌, Bool, true, false, none, some, List, [], ◌∷◌, ◌++◌, map,
  length, length-append, All, arith, if◌then◌else◌,
}
use magma_sidecar.Prelude.Map
use magma_sidecar.Tx.{TxApi}
use magma_sidecar.Policy.Config.{PolicyConfig}
use magma_sidecar.Backrun.Pool.{PendingPool, PendingBid, Reinjection, CachedTx}
use magma_sidecar.Backrun.Queues.{add_cache}
use magma_sidecar.Backrun.Queues.Room.{insert_cache_grown}
use magma_sidecar.Backrun.Invariant.{IsValid}
use magma_sidecar.Backrun.Observe.{is_gateway, observe_at, observe_other}
use magma_sidecar.Backrun.Observe.Branches.{
  flushed_bid, observe_other_vanilla, observe_other_target,
}
use magma_sidecar.Backrun.Observe.Cases.{observe_at_other}
use magma_sidecar.Backrun.Arrival.{
  Arrival, observe_all, Bids, bid_frame, group, parked_bid, IsWaiting, IsPooled,
}
use magma_sidecar.Backrun.Arrival.Waiting.{waiting_bid}
use magma_sidecar.Backrun.Arrival.Pooled.{opportunity_pooled, after_target}

module _ {Tx : Type 0} (api : TxApi Tx) (policy : PolicyConfig) (t : ℕ) (a : Tx) where
  abbrev awaited : List (PendingBid Tx) → Bool
  awaited [] = false
  awaited (b ∷ bids) = true

  -- The target cached.
  target_cached :
      (now : ℕ) (waiting : List (PendingBid Tx)) (parked inserts bids : ℕ) (p : PendingPool Tx)
      → is_gateway api a policy ≡ false
      → IsWaiting policy t waiting parked (suc inserts) bids p
      → let q = add_cache t a now p in
        (observe_at api t a now p ≡ observe_other t q)
        × (Map.get t q.cache ≡ some (record { tx = a; seen_at = now }))
        × (length q.cache + inserts ≤ p.max_cache_entries)
  unfolding add_cache
  target_cached now waiting parked inserts bids p away w =
      let c : CachedTx Tx = record { tx = a; seen_at = now } in
      let cached = insert_cache_grown t a now p (omega (arith, w.cache_room)) in
      (
        observe_at_other api t a now p (rw (cached, w.same_policy) away)
            ∙ ap (observe_other t) cached,
        Map.get-insert_self t c p.cache,
        ground (arith, Map.length-insert t c p.cache, w.cache_room),
      )

  -- The target, with the bids that wait for it.
  target_observed :
      (now : ℕ) (waiting : List (PendingBid Tx)) (parked inserts bids : ℕ) (p : PendingPool Tx)
      → is_gateway api a policy ≡ false
      → IsWaiting policy t waiting parked (suc inserts) bids p
      → let (q, res) = observe_at api t a now p in
        IsPooled policy t a (awaited waiting) parked inserts q
        × (res.reinjections ≡ group t a (map (flushed_bid t) waiting))
        × (res.pairs_matched ≡ length waiting)
  unfolding add_cache
  target_observed now [] parked inserts bids p away w =
      let q = add_cache t a now p in
      let (e, held, room) = target_cached now [] parked inserts bids p away w in
      rw (e, observe_other_vanilla t q w.held)
        (
          record {
            same_policy = w.same_policy;
            seen_at = now;
            cached = held;
            mark = w.unstreamed;
            counted = omega (arith, w.counted);
            cache_room = room;
          },
          refl,
          refl,
        )
  target_observed now (b ∷ waiting) parked inserts bids p away w =
      let q = add_cache t a now p in
      let (e, held, room) = target_cached now (b ∷ waiting) parked inserts bids p away w in
      let (out, marked) = opportunity_pooled api policy t a false q now held w.unstreamed in
      rw (e, observe_other_target t (b ∷ waiting) q w.held (omega (arith, w.counted)))
        (
          record {
            same_policy = w.same_policy;
            seen_at = now;
            cached = held;
            mark = marked;
            counted = omega (arith, w.counted);
            cache_room = room;
          },
          ap (λ o. o ++ map (flushed_bid t) (b ∷ waiting)) out,
          refl,
        )

  -- What has gone out with the target, and what goes out after it.
  group-append :
      (waiting : List (PendingBid Tx)) (rs : List (Reinjection Tx))
      → group t a (map (flushed_bid t) waiting) ++ (if awaited waiting then rs else group t a rs)
        ≡ group t a (map (flushed_bid t) waiting ++ rs)
  group-append [] rs = refl
  group-append (b ∷ waiting) rs = refl

  abbrev pub target_arrival : ℕ → Arrival Tx
  target_arrival now = record { hash = t; tx = a; now = now }

  arrives :
      (before after : List (Arrival Tx)) (now : ℕ) (waiting : List (PendingBid Tx)) (parked : ℕ)
      (p : PendingPool Tx)
      → is_gateway api a policy ≡ false
      → All (Bids api policy t) before
      → All (Bids api policy t) after
      → IsWaiting policy t waiting parked (suc (length (before ++ after))) (length before) p
      → let (q, sent, pairs) = observe_all api (before ++ target_arrival now ∷ after) p in
        (sent
          ≡ group t a
              (map (flushed_bid t) waiting ++ map (bid_frame api policy t) (before ++ after)))
        × (pairs ≡ length waiting + length (before ++ after))
        × (q.pending_count ≡ parked)
  unfolding observe_all
  arrives [] after now waiting parked p away bs cs w =
      let q = (observe_at api t a now p).0 in
      let (pooled, out, matched) = target_observed now waiting parked (length after) 0 p away w in
      let (sent, pairs, left) =
        after_target api policy t a after (awaited waiting) parked q cs pooled in
      (
        (λ i. out i ++ sent i) ∙ group-append waiting (map (bid_frame api policy t) after),
        omega (arith, matched, pairs),
        left,
      )
  arrives (x ∷ before) after now waiting parked p away (b, bs) cs w =
      let q = (observe_at api x.hash x.tx x.now p).0 in
      let (parks, silent, none_matched) =
        waiting_bid api policy t x waiting parked (suc (length (before ++ after))) (length before) p
          b w in
      let (sent, pairs, left) =
        arrives before after now (waiting ++ parked_bid api policy t x ∷ []) parked q away bs cs
          parks in
      (
        (λ i. silent i ++ sent i)
            ∙ ap (group t a) (moved (map (bid_frame api policy t) (before ++ after))),
        omega (arith, pairs, none_matched, length-append waiting (parked_bid api policy t x ∷ [])),
        left,
      )
    where
      moved :
          (rs : List (Reinjection Tx))
          → map (flushed_bid t) (waiting ++ parked_bid api policy t x ∷ []) ++ rs
            ≡ map (flushed_bid t) waiting ++ bid_frame api policy t x ∷ rs
      moved rs =
          ap (λ l. l ++ rs) (map-append (flushed_bid t) waiting (parked_bid api policy t x ∷ []))
          ∙ append_assoc (map (flushed_bid t) waiting) (bid_frame api policy t x ∷ []) rs

  -- From a valid pool that has neither seen the target nor parked a bid on it, with room for every
  -- arrival: a target that is not for the gateway, and any bids on it, under other hashes, that arrive
  -- before and after it, at any times and with no pruning in between. Whatever the place of the target
  -- among them, the same re-injections go out in the same order: the target and then every bid, in the
  -- order in which the bids arrive, or nothing if there is no bid. Every bid counts as a pair, and no
  -- bid is left parked beyond those that were.
  pub observe_all_in_any_order :
      (before after : List (Arrival Tx)) (now : ℕ) (p : PendingPool Tx)
      → IsValid p
      → p.policy ≡ policy
      → is_gateway api a policy ≡ false
      → All (Bids api policy t) before
      → All (Bids api policy t) after
      → Map.contains_key t p.cache ≡ false
      → Map.get t p.pending ≡ none
      → length p.cache + suc (length (before ++ after)) ≤ p.max_cache_entries
      → p.pending_count + length before ≤ p.max_pending_entries
      → let (q, sent, pairs) = observe_all api (before ++ target_arrival now ∷ after) p in
        (sent ≡ group t a (map (bid_frame api policy t) (before ++ after)))
        × (pairs ≡ length (before ++ after))
        × (q.pending_count ≡ p.pending_count)
  observe_all_in_any_order before after now p v same away bs cs new alone room waits =
      let (sent, pairs, left) = arrives before after now [] p.pending_count p away bs cs (record {
        same_policy = same;
        uncached = new;
        unstreamed = ground (arith, v.cache.streamed t, new);
        held = alone;
        counted = omega arith;
        cache_room = room;
        pending_room = waits;
      }) in
      (sent, omega (arith, pairs), left)
