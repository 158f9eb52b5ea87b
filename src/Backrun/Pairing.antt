-- ===== src/Backrun/Pairing.antt =====
-- `observe_at` (src/backrun.rs) of a backrun bid and its target, in either order.
use magma_sidecar.Prelude.{
  ℕ, ◌+◌, ◌≤◌, ◌<◌, ◌≡◌, ◌≢◌, refl, ap, ◌∙◌, true, false, none, some, List, [], ◌∷◌, ◌++◌, length,
  contains, arith,
}
use magma_sidecar.Prelude.Map
use magma_sidecar.Tx.{TxApi}
use magma_sidecar.Policy.Score.{GatewayCall, is_tob, decode_gateway_call, compute_priority}
use magma_sidecar.Policy.Encoding.{encode_opportunity_priority, encode_backrun_bid_priority}
use magma_sidecar.Backrun.Pool.{PendingPool, PendingBid, Reinjection, CachedTx, default_result}
use magma_sidecar.Backrun.Queues.{insert_cache}
use magma_sidecar.Backrun.Queues.Room.{insert_cache_room, push_pending_room}
use magma_sidecar.Backrun.Invariant.{IsValid}
use magma_sidecar.Backrun.Observe.{is_gateway, observe_at, observe_other, observe_backrun}
use magma_sidecar.Backrun.Observe.Branches.{
  opportunity, flushed_bid, observe_other_vanilla, observe_other_target, observe_backrun_pooled,
  observe_backrun_parked,
}
use magma_sidecar.Backrun.Observe.Cases.{observe_at_other, observe_at_backrun}

-- A target `a` with hash `t` and a bid `b` on it with hash `h`, which the pool has not seen, and room
-- for both.
pub record IsPair {Tx : Type 0} (api : TxApi Tx) (t h : ℕ) (a b : Tx) (call : GatewayCall)
    (p : PendingPool Tx) : Type 0 where
  pub target_away : is_gateway api a p.policy ≡ false
  pub bid_bound : is_gateway api b p.policy ≡ true
  pub decoded : decode_gateway_call api b ≡ some call
  pub follows : is_tob call ≡ false
  pub on_target : call.target_tx_hash ≡ t
  pub apart : h ≢ t
  pub target_new : Map.contains_key t p.cache ≡ false
  pub bid_new : Map.contains_key h p.cache ≡ false
  pub target_alone : Map.get t p.pending ≡ none
  pub cache_room : length p.cache + 2 ≤ p.max_cache_entries
  pub pending_room : p.pending_count < p.max_pending_entries

module _ {Tx : Type 0} (api : TxApi Tx) (t h : ℕ) (a b : Tx) (call : GatewayCall)
    (p : PendingPool Tx) (v : IsValid p) (pair : IsPair api t h a b call p) where
  -- What goes out for the pair.
  abbrev pub both : List (Reinjection Tx)
  both =
      record { hash = t; tx = a; priority = encode_opportunity_priority t }
      ∷ record {
        hash = h;
        tx = b;
        priority = encode_backrun_bid_priority t (compute_priority api b p.policy);
      }
      ∷ []

  abbrev seen : ℕ → Tx → ℕ → PendingPool Tx → PendingPool Tx
  seen hash tx now q = record q {
    cache = Map.insert hash (record { tx = tx; seen_at = now }) q.cache;
    cache_order = q.cache_order ++ hash ∷ [];
  }

  abbrev parked_bid : ℕ → PendingBid Tx
  parked_bid now = record {
    hash = h;
    tx = b;
    scalar = compute_priority api b p.policy;
    target = t;
    seen_at = now;
  }

  unstreamed : contains t p.streamed_targets ≡ false
  unstreamed = ground (arith, v.cache.streamed t, pair.target_new)

  target_first_1 :
      (now : ℕ)
      → observe_at api t a now p
        ≡ (seen t a now p, record default_result { skipped_non_gateway = true })
  target_first_1 now =
      let cached = insert_cache_room t a now p pair.target_new (omega (arith, pair.cache_room)) in
      observe_at_other api t a now p (rw cached pair.target_away)
      ∙ ap (observe_other t) cached
      ∙ observe_other_vanilla t (seen t a now p) pair.target_alone

  -- The opportunity goes out where the target is cached.
  opportunity_seen :
      (q : PendingPool Tx) (now : ℕ)
      → contains t q.streamed_targets ≡ false
      → Map.get t q.cache ≡ some (record { tx = a; seen_at = now })
      → opportunity t q ≡ record { hash = t; tx = a; priority = encode_opportunity_priority t } ∷ []
  unfolding opportunity
  opportunity_seen q now fresh held = rw (fresh, held) refl

  -- The bid, once cached, is treated as a backrun bid on `t`.
  bid_observed :
      (now : ℕ) (q : PendingPool Tx)
      → q.policy ≡ p.policy
      → insert_cache h b now q ≡ seen h b now q
      → observe_at api h b now q
        ≡ observe_backrun h b t (compute_priority api b p.policy) now (seen h b now q)
  bid_observed now q policy cached =
      observe_at_backrun api h b now q call (rw (cached, policy) pair.bid_bound) pair.decoded
        pair.follows
      ∙ ap (λ r. observe_backrun h b call.target_tx_hash (compute_priority api b r.policy) now r)
          cached
      ∙ (λ i.
          observe_backrun h b (pair.on_target i) (compute_priority api b (policy i)) now
            (seen h b now q))

  target_first_2 :
      (now later : ℕ)
      → let (q, res) = observe_at api h b later (seen t a now p) in
        (res.reinjections ≡ both) × (res.pairs_matched ≡ 1) × (q.pending_count ≡ p.pending_count)
  target_first_2 now later =
      let q = seen t a now p in
      let target : CachedTx Tx = record { tx = a; seen_at = now } in
      let cached =
        insert_cache_room h b later q
          (ground (arith, Map.contains_key-insert t h target p.cache, pair.bid_new, pair.apart))
          (ground (arith, Map.length-insert t target p.cache, pair.target_new, pair.cache_room)) in
      let held : Map.get t (seen h b later q).cache ≡ some target = ground (
        arith,
        Map.get-insert h t (record { tx = b; seen_at = later }) q.cache,
        Map.get-insert t t target p.cache,
        pair.apart,
      ) in
      let e =
        bid_observed later q refl cached
        ∙ observe_backrun_pooled h b t (compute_priority api b p.policy) later (seen h b later q)
            (Map.contains_key_of_get t target (seen h b later q).cache held) in
      (
        ap (λ r. r.1.reinjections) e
            ∙ ap (λ o. o ++ flushed_bid t (parked_bid later) ∷ [])
                (opportunity_seen (seen h b later q) now unstreamed held),
        ap (λ r. r.1.pairs_matched) e,
        ap (λ r. r.0.pending_count) e,
      )

  -- The pool with the bid parked.
  abbrev waiting_bid : ℕ → PendingPool Tx
  waiting_bid now = record (seen h b now p) {
    pending = Map.insert t (parked_bid now ∷ []) p.pending;
    pending_order = p.pending_order ++ (t, h) ∷ [];
    pending_count = p.pending_count + 1;
  }

  bid_first_1 :
      (now : ℕ)
      → observe_at api h b now p ≡ (waiting_bid now, record default_result { bids_pended = 1 })
  bid_first_1 now =
      let cached = insert_cache_room h b now p pair.bid_new (omega (arith, pair.cache_room)) in
      let gone : Map.contains_key t (seen h b now p).cache ≡ false = ground (
        arith,
        Map.contains_key-insert h t (record { tx = b; seen_at = now }) p.cache,
        pair.target_new,
        pair.apart,
      ) in
      let room =
        push_pending_room (parked_bid now) (seen h b now p) pair.target_alone pair.pending_room in
      bid_observed now p refl cached
      ∙ observe_backrun_parked h b t (compute_priority api b p.policy) now (seen h b now p) gone
      ∙ (λ i. ((room i).0, record default_result { bids_evicted = (room i).1; bids_pended = 1 }))

  bid_first_2 :
      (now later : ℕ)
      → let (q, res) = observe_at api t a later (waiting_bid now) in
        (res.reinjections ≡ both) × (res.pairs_matched ≡ 1) × (q.pending_count ≡ p.pending_count)
  bid_first_2 now later =
      let q = waiting_bid now in
      let bid : CachedTx Tx = record { tx = b; seen_at = now } in
      let cached =
        insert_cache_room t a later q
          (ground (arith, Map.contains_key-insert h t bid p.cache, pair.target_new, pair.apart))
          (ground (arith, Map.length-insert h bid p.cache, pair.bid_new, pair.cache_room)) in
      let held = Map.get-insert t t (record { tx = a; seen_at = later }) q.cache in
      let parked = Map.get-insert t t (parked_bid now ∷ []) p.pending in
      let e =
        observe_at_other api t a later q (rw cached pair.target_away)
        ∙ ap (observe_other t) cached
        ∙ observe_other_target t (parked_bid now ∷ []) (seen t a later q) (ground (arith, parked))
            (omega arith) in
      (
        ap (λ r. r.1.reinjections) e
            ∙ ap (λ o. o ++ flushed_bid t (parked_bid now) ∷ [])
                (opportunity_seen (seen t a later q) later unstreamed (ground (arith, held))),
        ap (λ r. r.1.pairs_matched) e,
        ap (λ r. r.0.pending_count) e ∙ omega arith,
      )

  -- From a valid pool with room that has seen neither, a target that is not for the gateway and a
  -- backrun bid on it give the same re-injections in either order of arrival, at any times: nothing
  -- for the first of them, and for the second the target and then the bid, as one matched pair, with
  -- no bid left parked beyond those that were.
  pub observe_at_commutes :
      (now later : ℕ)
      → let (after_target, alone) = observe_at api t a now p in
        let (paired, sent) = observe_at api h b later after_target in
        let (after_bid, parked) = observe_at api h b now p in
        let (paired', sent') = observe_at api t a later after_bid in
        (alone.reinjections ≡ [])
        × (parked.reinjections ≡ [])
        × (sent.reinjections ≡ both)
        × (sent'.reinjections ≡ both)
        × (sent.pairs_matched ≡ 1)
        × (sent'.pairs_matched ≡ 1)
        × (paired.pending_count ≡ p.pending_count)
        × (paired'.pending_count ≡ p.pending_count)
  observe_at_commutes now later =
      let first = target_first_1 now in
      let parked = bid_first_1 now in
      rw (first, parked)
        (let (s, m, c) = target_first_2 now later in
          let (s', m', c') = bid_first_2 now later in (refl, refl, s, s', m, m', c, c'))
