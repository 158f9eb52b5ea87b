-- ===== src/Backrun/Origin/Observe.antt =====
-- What `observe_at` (src/backrun.rs) re-injects, and what the pool holds after it.
use magma_sidecar.Prelude.{
  ℕ, ◌≡◌, refl, subst, sym, inl, inr, true, false, some, List, [], ◌∷◌, map, contains, Bool-cases,
  Option-cases, All, All-append, arith,
}
use magma_sidecar.Prelude.Map
use magma_sidecar.Tx.{TxApi}
use magma_sidecar.Policy.Config.{PolicyConfig}
use magma_sidecar.Policy.Score.{GatewayCall, is_tob, decode_gateway_call, compute_priority}
use magma_sidecar.Backrun.Pool.{PendingPool, PendingBid, CachedTx, Reinjection, ObserveResult}
use magma_sidecar.Backrun.Queues.{insert_cache, is_empty}
use magma_sidecar.Backrun.Queues.Holds.{insert_cache-Holds, push_pending-Holds}
use magma_sidecar.Backrun.Queues.Parked.{Entries-full}
use magma_sidecar.Backrun.Queues.Parked.Take.{get-total-le}
use magma_sidecar.Backrun.Invariant.{IsValid, insert_cache-IsValid}
use magma_sidecar.Backrun.Observe.{
  is_gateway, observe_at, observe_other, observe_tob, observe_backrun,
}
use magma_sidecar.Backrun.Observe.Branches.{
  opportunity, flushed_bid, observe_other_vanilla, observe_other_target, observe_backrun_pooled,
  observe_backrun_parked,
}
use magma_sidecar.Backrun.Observe.Cases.{observe_at_cases}
use magma_sidecar.Backrun.Origin
use magma_sidecar.Backrun.Origin.{BidsOn, IsBid, FromNode, Justified}

module _ {Tx : Type 0} (api : TxApi Tx) (policy : PolicyConfig) (fallback : ℕ)
    (Announced : ℕ → Tx → Type 0) where
  abbrev Good : PendingPool Tx → Type 0
  Good p = FromNode api policy fallback Announced p

  abbrev Just : List (Reinjection Tx) → Type 0
  Just rs = All (Justified api policy fallback Announced) rs

  -- A pool that holds announced transactions, and justified re-injections.
  abbrev pub Sound : PendingPool Tx × ObserveResult Tx → Type 0
  Sound r = Good r.0 × Just r.1.reinjections

  mark-FromNode :
      (marks : List ℕ) (p : PendingPool Tx) → Good p → Good (record p { streamed_targets = marks })
  mark-FromNode marks p f = record {
    policy_kept = f.policy_kept;
    fallback_kept = f.fallback_kept;
    cached = f.cached;
    parked = f.parked;
  }

  opportunity-Justified :
      (t h : ℕ) (tx : Tx) (p : PendingPool Tx)
      → Good p
      → Announced h tx
      → BidsOn api policy t tx
      → Just (opportunity t p)
  unfolding opportunity
  opportunity-Justified t h tx p f a b = elim (Bool-cases (contains t p.streamed_targets)) [
    | inl again ↦ rw again tt
    | inr first ↦ elim (Option-cases (Map.get t p.cache)) [
      | inl gone ↦ rw (first, gone, opportunity) tt
      | inr (c, held) ↦
          let seen =
            Map.Every-get (λ h (c : CachedTx Tx). Announced h c.tx) t c p.cache f.cached held in
          rw (first, held, opportunity) (Origin.Justified.opportunity h tx seen a b refl, tt)
    ]
  ]

  flushed-Justified :
      (t : ℕ) (target_tx : Tx) (bids : List (PendingBid Tx))
      → Announced t target_tx
      → All (IsBid api policy Announced t) bids
      → Just (map (flushed_bid t) bids)
  flushed-Justified t target_tx [] a g = tt
  flushed-Justified t target_tx (b ∷ bids) a g = (
    Origin.backrun t target_tx g.0.announced a g.0.bids (rw g.0.scored refl),
    flushed-Justified t target_tx bids a g.1,
  )

  observe_other-Sound :
      (h : ℕ) (tx : Tx) (p : PendingPool Tx)
      → IsValid p
      → Good p
      → Announced h tx
      → Sound (observe_other h p)
  unfolding is_empty
  observe_other-Sound h tx p v f a = elim (Option-cases (Map.get h p.pending)) [
    | inl gone ↦ rw (observe_other_vanilla h p gone) (f, tt)
    | inr ([], held) ↦ absurd (ground (arith, Entries-full h [] p.pending v.parked.entries held))
    | inr (b ∷ bids, held) ↦
        let few = get-total-le h (b ∷ bids) p.pending held in
        let good =
          Map.Every-get (λ t bids. All (IsBid api policy Announced t) bids) h (b ∷ bids) p.pending
            f.parked held in
        rw (observe_other_target h (b ∷ bids) p held (omega (arith, v.parked.counted, few))) (
          record {
            policy_kept = f.policy_kept;
            fallback_kept = f.fallback_kept;
            cached = f.cached;
            parked = Map.Every-remove _ h p.pending f.parked;
          },
          All-append _ _ _ (opportunity-Justified h b.hash b.tx p f good.0.announced good.0.bids)
              (flushed-Justified h tx (b ∷ bids) a good),
        )
  ]

  observe_backrun-Sound :
      (hash : ℕ) (tx : Tx) (call : GatewayCall) (now : ℕ) (p : PendingPool Tx)
      → Good p
      → Announced hash tx
      → is_gateway api tx policy ≡ true
      → decode_gateway_call api tx ≡ some call
      → is_tob call ≡ false
      → Sound (observe_backrun hash tx call.target_tx_hash (compute_priority api tx policy) now p)
  observe_backrun-Sound hash tx call now p f a bound decoded follows =
      let target = call.target_tx_hash in
      let scalar = compute_priority api tx policy in
      let bid : BidsOn api policy target tx = record {
        call = call;
        bound = bound;
        decoded = decoded;
        follows = follows;
        aims = refl;
      } in
      elim (Option-cases (Map.get target p.cache)) [
        | inl gone ↦
            rw
              (observe_backrun_parked hash tx target scalar now p
                (Map.not-contains_key_of_get target p.cache gone))
              (
                push_pending-Holds _ _ _ _ _ p (record { announced = a; bids = bid; scored = refl })
                    f,
                tt,
              )
        | inr (c, held) ↦
            let seen =
              Map.Every-get (λ h (c : CachedTx Tx). Announced h c.tx) target c p.cache f.cached
                held in
            rw
              (observe_backrun_pooled hash tx target scalar now p
                (Map.contains_key_of_get target c p.cache held))
              (
                mark-FromNode _ p f,
                All-append _ (opportunity target p) _
                    (opportunity-Justified target hash tx p f a bid)
                    (Origin.backrun target c.tx a seen bid refl, tt),
              )
      ]

  observe_tob-Sound :
      (hash : ℕ) (tx : Tx) (call : GatewayCall) (p : PendingPool Tx)
      → Good p
      → Announced hash tx
      → is_gateway api tx policy ≡ true
      → decode_gateway_call api tx ≡ some call
      → is_tob call ≡ true
      → Sound (p, observe_tob hash tx (compute_priority api tx policy) p)
  unfolding observe_tob
  observe_tob-Sound hash tx call p f a bound decoded first =
      (f, (Origin.lead call a bound decoded first (rw f.fallback_kept refl), tt))

  pub observe_at-Sound :
      (hash : ℕ) (tx : Tx) (now : ℕ) (p : PendingPool Tx)
      → IsValid p
      → Good p
      → Announced hash tx
      → Sound (observe_at api hash tx now p)
  observe_at-Sound hash tx now p v f a =
      let q = insert_cache hash tx now p in
      let g : Good q = insert_cache-Holds _ _ _ _ hash tx now p a f in
      observe_at_cases api hash tx now p Sound
        (λ away. observe_other-Sound hash tx q (insert_cache-IsValid hash tx now p v) g a)
        (λ bound. (g, tt))
        (λ call bound decoded first.
          subst (λ r. Sound (q, observe_tob hash tx (compute_priority api tx r) q))
            (sym g.policy_kept)
            (observe_tob-Sound hash tx call q g a (rw g.policy_kept at bound) decoded first))
        (λ call bound decoded follows.
          subst
            (λ r.
              Sound (observe_backrun hash tx call.target_tx_hash (compute_priority api tx r) now q))
            (sym g.policy_kept)
            (observe_backrun-Sound hash tx call now q g a (rw g.policy_kept at bound) decoded
              follows))
