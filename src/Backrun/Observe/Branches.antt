-- ===== src/Backrun/Observe/Branches.antt =====
-- The branches of `observe_at` (src/backrun.rs) in closed form: what is sent and counted, and the pool.
use mathlib.Core.List.{append-nil, append_assoc}
use magma_sidecar.Prelude.{
  ℕ, ◌+◌, ◌-◌, ◌≤◌, ◌≡◌, refl, sym, ◌∙◌, inl, inr, true, false, none, some, List, [], ◌∷◌, ◌++◌,
  length, contains, arith, Bool-cases, Option-cases, if◌then◌else◌, map,
}
use magma_sidecar.Prelude.Map
use magma_sidecar.Prelude.Set
use magma_sidecar.Word.{wrapping_sub_usize}
use magma_sidecar.Policy.Encoding.{encode_opportunity_priority, encode_backrun_bid_priority}
use magma_sidecar.Backrun.Pool.{PendingPool, PendingBid, Reinjection, ObserveResult, default_result}
use magma_sidecar.Backrun.Queues.{push_pending}
use magma_sidecar.Backrun.Observe.{
  emit_opportunity_once, flush_bids, observe_other, observe_backrun,
}

module _ {Tx : Type 0} where
  -- The re-injection of a target, if it is cached and was not streamed before.
  unfoldable pub opportunity : ℕ → PendingPool Tx → List (Reinjection Tx)
  opportunity t p = if contains t p.streamed_targets then [] else elim (Map.get t p.cache) [
    | none ↦ []
    | some cached ↦
        record { hash = t; tx = cached.tx; priority = encode_opportunity_priority t } ∷ []
  ]

  -- The streamed targets after that.
  unfoldable pub streamed_with : ℕ → PendingPool Tx → List ℕ
  streamed_with t p =
      if contains t p.streamed_targets then p.streamed_targets else elim (Map.get t p.cache) [
        | none ↦ p.streamed_targets
        | some cached ↦ Set.insert t p.streamed_targets
      ]

  abbrev pub emitted : ℕ → PendingPool Tx → ObserveResult Tx → PendingPool Tx × ObserveResult Tx
  emitted t p res = (
    record p { streamed_targets = streamed_with t p },
    record res { reinjections = res.reinjections ++ opportunity t p },
  )

  emit_opportunity_once_lem :
      (t : ℕ) (p : PendingPool Tx) (res : ObserveResult Tx)
      → emit_opportunity_once t p res ≡ emitted t p res
  unfolding emit_opportunity_once opportunity streamed_with
  emit_opportunity_once_lem t p res = elim (Bool-cases (contains t p.streamed_targets)) [
    | inl again ↦ ground (arith, again, append-nil res.reinjections)
    | inr first ↦ elim (Option-cases (Map.get t p.cache)) [
      | inl gone ↦ ground (arith, first, gone, append-nil res.reinjections)
      | inr (cached, held) ↦ ground (arith, first, held)
    ]
  ]

  -- The re-injection of a parked bid, and the result of flushing a list of them.
  abbrev pub flushed_bid : ℕ → PendingBid Tx → Reinjection Tx
  flushed_bid t b = record {
    hash = b.hash;
    tx = b.tx;
    priority = encode_backrun_bid_priority t b.scalar;
  }

  abbrev flushed :
      ℕ
      → List (Reinjection Tx)
      → ℕ
      → PendingPool Tx
      → ObserveResult Tx
      → PendingPool Tx × ObserveResult Tx
  flushed left sent pairs p res =
      (record p { pending_count = left }, record res { reinjections = sent; pairs_matched = pairs })

  flushed_cong :
      (p : PendingPool Tx) (res : ObserveResult Tx) {left left' : ℕ}
      {sent sent' : List (Reinjection Tx)} {pairs pairs' : ℕ}
      → left ≡ left'
      → sent ≡ sent'
      → pairs ≡ pairs'
      → flushed left sent pairs p res ≡ flushed left' sent' pairs' p res
  flushed_cong p res e f g = λ i. flushed (e i) (f i) (g i) p res

  -- Flushing counts the bids out of the pool, and sends them in the order in which they were parked.
  flush_bids_lem :
      (t : ℕ) (bids : List (PendingBid Tx)) (p : PendingPool Tx) (res : ObserveResult Tx)
      → length bids ≤ p.pending_count
      → flush_bids t bids p res
        ≡ flushed
            (p.pending_count - length bids)
            (res.reinjections ++ map (flushed_bid t) bids)
            (res.pairs_matched + length bids)
            p
            res
  unfolding flush_bids
  flush_bids_lem t [] p res h =
      flushed_cong p res (omega arith) (sym (append-nil res.reinjections)) (omega arith)
  flush_bids_lem t (b ∷ bids) p res h =
      let one : wrapping_sub_usize p.pending_count 1 ≡ p.pending_count - 1 = ground arith in
      flush_bids_lem t bids (record p { pending_count = wrapping_sub_usize p.pending_count 1 })
        (record res {
          reinjections = res.reinjections ++ flushed_bid t b ∷ [];
          pairs_matched = res.pairs_matched + 1;
        })
        (omega (arith, one))
      ∙ flushed_cong p res (omega (arith, one))
          (append_assoc res.reinjections (flushed_bid t b ∷ []) (map (flushed_bid t) bids))
          (omega arith)

  -- A transaction that no parked bid waits for is left to the node's own ordering.
  pub observe_other_vanilla :
      (h : ℕ) (p : PendingPool Tx)
      → Map.get h p.pending ≡ none
      → observe_other h p ≡ (p, record default_result { skipped_non_gateway = true })
  unfolding observe_other
  observe_other_vanilla h p gone = rw (gone, observe_other)

  -- The target of parked bids.
  pub observe_other_target :
      (h : ℕ) (bids : List (PendingBid Tx)) (p : PendingPool Tx)
      → Map.get h p.pending ≡ some bids
      → length bids ≤ p.pending_count
      → observe_other h p ≡ (
        record p {
          pending = Map.remove h p.pending;
          pending_count = p.pending_count - length bids;
          streamed_targets = streamed_with h p;
        },
        record default_result {
          reinjections = opportunity h p ++ map (flushed_bid h) bids;
          pairs_matched = length bids;
        },
      )
  unfolding observe_other opportunity streamed_with
  observe_other_target h bids p held room =
      let q = record p { pending = Map.remove h p.pending } in
      let (marked, res) = emitted h q default_result in
      rw (held, observe_other)
        (rw (emit_opportunity_once_lem h q default_result)
          (flush_bids_lem h bids marked res room ∙ flushed_cong marked res refl refl (omega arith)))

  -- A backrun bid whose target is cached.
  pub observe_backrun_pooled :
      (hash : ℕ) (tx : Tx) (target scalar now : ℕ) (p : PendingPool Tx)
      → Map.contains_key target p.cache ≡ true
      → observe_backrun hash tx target scalar now p ≡ (
        record p { streamed_targets = streamed_with target p },
        record default_result {
          reinjections =
              opportunity target p
              ++ record {
                hash = hash;
                tx = tx;
                priority = encode_backrun_bid_priority target scalar;
              }
                ∷ [];
          pairs_matched = 1;
        },
      )
  unfolding observe_backrun
  observe_backrun_pooled hash tx target scalar now p held =
      rw (held, emit_opportunity_once_lem target p default_result) refl

  -- A backrun bid whose target is not cached.
  pub observe_backrun_parked :
      (hash : ℕ) (tx : Tx) (target scalar now : ℕ) (p : PendingPool Tx)
      → Map.contains_key target p.cache ≡ false
      → let bid : PendingBid Tx = record {
        hash = hash;
        tx = tx;
        scalar = scalar;
        target = target;
        seen_at = now;
      } in
        observe_backrun hash tx target scalar now p ≡ (
          (push_pending bid p).0,
          record default_result { bids_evicted = (push_pending bid p).1; bids_pended = 1 },
        )
  unfolding observe_backrun
  observe_backrun_parked hash tx target scalar now p gone = rw gone refl
