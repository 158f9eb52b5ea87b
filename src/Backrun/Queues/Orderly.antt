-- ===== src/Backrun/Queues/Orderly.antt =====
-- The parked bids of src/backrun.rs stand in their queue in the order of their times.
pub mod Park
pub mod Forget
use magma_sidecar.Prelude.{
  ℕ, ◌≤◌, ◌≡◌, ◌⊎◌, sym, subst, ◌∙◌, inl, inr, none, some, List, [], ◌∷◌, arith, All, Bool-cases,
  Option-cases, leb, ltb, ◌-◌, ◌+◌,
}
use magma_sidecar.Prelude.Map.{HashMap}
use magma_sidecar.Backrun.Pool.{PendingPool, PendingBid}
use magma_sidecar.Backrun.Queues.{find_parked, take_parked, prune_pending, evict_pending}
use magma_sidecar.Backrun.Queues.Search.{parked_at, waiting, waiting_gone, waiting_held}
use magma_sidecar.Backrun.Queues.Overdue.{Once, Ascending, waiting-take}
use magma_sidecar.Backrun.Queues.Evict.{
  evict_pending_nil, evict_pending_within, evict_pending_stale, evict_pending_taken,
}
use magma_sidecar.Backrun.Queues.ExpireParked.{
  prune_pending_nil, prune_pending_stale, prune_pending_old, prune_pending_young,
}

module _ {Tx : Type 0} where
  -- No pair stands twice in the queue, and the bids that are still parked stand in the order of their
  -- times, none of which is after `now`.
  pub record Orderly (now : ℕ) (q : List (ℕ × ℕ)) (m : HashMap (List (PendingBid Tx)))
      : Type 0 where
    pub once : Once q
    pub ascending : Ascending (waiting q m)
    pub past : All (λ b. b.seen_at ≤ now) (waiting q m)

  abbrev pub IsOrderly : ℕ → PendingPool Tx → Type 0
  IsOrderly now p = Orderly now p.pending_order p.pending

  -- A pool that finds what the other one finds, or nothing.
  abbrev pub Shrinks : HashMap (List (PendingBid Tx)) → HashMap (List (PendingBid Tx)) → Type 0
  Shrinks m n = (t h : ℕ) → (parked_at t h n ≡ none) ⊎ (parked_at t h n ≡ parked_at t h m)

  waiting-shrinks :
      (P : PendingBid Tx → Type 0) (m n : HashMap (List (PendingBid Tx))) (q : List (ℕ × ℕ))
      → Shrinks m n
      → All P (waiting q m)
      → All P (waiting q n)
  waiting-shrinks P m n [] s all = tt
  waiting-shrinks P m n ((t, h) ∷ q) s all = elim (Option-cases (parked_at t h m)) [
    | inl gone ↦
        let rest = waiting-shrinks P m n q s (subst (All P) (waiting_gone t h q m gone) all) in
        let none_left : parked_at t h n ≡ none = ground (arith, s t h, gone) in
        subst (All P) (sym (waiting_gone t h q n none_left)) rest
    | inr (b, held) ↦
        let (here, more) = subst (All P) (waiting_held t h b q m held) all in
        let rest = waiting-shrinks P m n q s more in
        elim (s t h) [
          | inl lost ↦ subst (All P) (sym (waiting_gone t h q n lost)) rest
          | inr kept ↦ subst (All P) (sym (waiting_held t h b q n (kept ∙ held))) (here, rest)
        ]
  ]

  Ascending-Shrinks :
      (m n : HashMap (List (PendingBid Tx))) (q : List (ℕ × ℕ))
      → Shrinks m n
      → Ascending (waiting q m)
      → Ascending (waiting q n)
  Ascending-Shrinks m n [] s asc = tt
  Ascending-Shrinks m n ((t, h) ∷ q) s asc = elim (Option-cases (parked_at t h m)) [
    | inl gone ↦
        let rest = Ascending-Shrinks m n q s (subst Ascending (waiting_gone t h q m gone) asc) in
        let none_left : parked_at t h n ≡ none = ground (arith, s t h, gone) in
        subst Ascending (sym (waiting_gone t h q n none_left)) rest
    | inr (b, held) ↦
        let (later, more) = subst Ascending (waiting_held t h b q m held) asc in
        let rest = Ascending-Shrinks m n q s more in
        elim (s t h) [
          | inl lost ↦ subst Ascending (sym (waiting_gone t h q n lost)) rest
          | inr kept ↦
              subst Ascending (sym (waiting_held t h b q n (kept ∙ held)))
                (waiting-shrinks _ m n q s later, rest)
        ]
  ]

  pub Orderly-Shrinks :
      (now : ℕ) (q : List (ℕ × ℕ)) (m n : HashMap (List (PendingBid Tx)))
      → Shrinks m n
      → Orderly now q m
      → Orderly now q n
  Orderly-Shrinks now q m n s o = record {
    once = o.once;
    ascending = Ascending-Shrinks m n q s o.ascending;
    past = waiting-shrinks _ m n q s o.past;
  }

  -- The queue without its front.
  Orderly-tail :
      (now t h : ℕ) (q : List (ℕ × ℕ)) (m : HashMap (List (PendingBid Tx)))
      → Orderly now ((t, h) ∷ q) m
      → Orderly now q m
  Orderly-tail now t h q m o = elim (Option-cases (parked_at t h m)) [
    | inl gone ↦ record {
      once = o.once.1;
      ascending = subst Ascending (waiting_gone t h q m gone) o.ascending;
      past =
          subst (All (λ (b : PendingBid Tx). b.seen_at ≤ now)) (waiting_gone t h q m gone) o.past;
    }
    | inr (b, held) ↦ record {
      once = o.once.1;
      ascending = (subst Ascending (waiting_held t h b q m held) o.ascending).1;
      past =
          (subst (All (λ (b : PendingBid Tx). b.seen_at ≤ now)) (waiting_held t h b q m held)
            o.past).1;
    }
  ]

  -- The queue without its front, and the pool without the bid that the front names.
  Orderly-take :
      (now t h pos : ℕ) (bid : PendingBid Tx) (bids : List (PendingBid Tx)) (q : List (ℕ × ℕ))
      (p : PendingPool Tx)
      → find_parked t h p.pending ≡ some (pos, bid, bids)
      → Orderly now ((t, h) ∷ q) p.pending
      → Orderly now q (take_parked t pos bids p).pending
  Orderly-take now t h pos bid bids q p found o =
      let left = Orderly-tail now t h q p.pending o in
      let same = waiting-take t h pos bid bids q p found o.once.0 in
      record {
        once = left.once;
        ascending = subst Ascending (sym same) left.ascending;
        past = subst (All (λ (b : PendingBid Tx). b.seen_at ≤ now)) (sym same) left.past;
      }

  Orderly-nil : (now : ℕ) (m : HashMap (List (PendingBid Tx))) → Orderly now [] m
  Orderly-nil now m = record { once = tt; ascending = tt; past = tt }

  pub prune_pending-IsOrderly :
      (now time : ℕ) (q : List (ℕ × ℕ)) (expired : ℕ) (p : PendingPool Tx)
      → Orderly now q p.pending
      → IsOrderly now (prune_pending time q expired p).0
  prune_pending-IsOrderly now time [] expired p o =
      rw (prune_pending_nil time expired p) (Orderly-nil now p.pending)
  prune_pending-IsOrderly now time ((t, h) ∷ q) expired p o =
      elim (Option-cases (find_parked t h p.pending)) [
        | inl missing ↦
            rw (prune_pending_stale time t h q expired p missing)
              (prune_pending-IsOrderly now time q expired p (Orderly-tail now t h q p.pending o))
        | inr ((pos, bid, bids), found) ↦ elim (Bool-cases (leb p.ttl (time - bid.seen_at))) [
          | inr young ↦ rw (prune_pending_young time t h q expired p pos bid bids found young) o
          | inl old ↦ rw (prune_pending_old time t h q expired p pos bid bids found old) (
              prune_pending-IsOrderly now time q (expired + 1) (take_parked t pos bids p)
                (Orderly-take now t h pos bid bids q p found o))
        ]
      ]

  pub evict_pending-IsOrderly :
      (now : ℕ) (q : List (ℕ × ℕ)) (evicted : ℕ) (p : PendingPool Tx)
      → Orderly now q p.pending
      → IsOrderly now (evict_pending q evicted p).0
  evict_pending-IsOrderly now [] evicted p o =
      rw (evict_pending_nil evicted p) (Orderly-nil now p.pending)
  evict_pending-IsOrderly now ((t, h) ∷ q) evicted p o =
      elim (Bool-cases (ltb p.max_pending_entries p.pending_count)) [
        | inr within ↦ rw (evict_pending_within t h q evicted p within) o
        | inl over ↦ elim (Option-cases (find_parked t h p.pending)) [
          | inl missing ↦
              rw (evict_pending_stale t h q evicted p over missing)
                (evict_pending-IsOrderly now q evicted p (Orderly-tail now t h q p.pending o))
          | inr ((pos, bid, bids), found) ↦
              rw (evict_pending_taken t h q evicted p pos bid bids over found) (
                evict_pending-IsOrderly now q (evicted + 1) (take_parked t pos bids p)
                  (Orderly-take now t h pos bid bids q p found o))
        ]
      ]
