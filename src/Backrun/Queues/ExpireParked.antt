-- ===== src/Backrun/Queues/ExpireParked.antt =====
-- The second loop of `prune` (src/backrun.rs).
use magma_sidecar.Prelude.{
  ℕ, ◌+◌, ◌-◌, ◌≡◌, refl, inl, inr, true, false, leb, none, some, List, [], ◌∷◌, Bool-cases,
  Option-cases,
}
use magma_sidecar.Backrun.Pool.{PendingPool, PendingBid}
use magma_sidecar.Backrun.Queues.{find_parked, take_parked, prune_pending}
use magma_sidecar.Backrun.Queues.Parked.{IsParked}
use magma_sidecar.Backrun.Queues.Parked.Take.{take_parked-IsParked, skip-IsParked}
use magma_sidecar.Backrun.Queues.Evict.{Drops, Drops-stopped, Drops-taken}

module _ {Tx : Type 0} where
  -- The cases of the expiry loop.
  module _ (now t h : ℕ) (rest : List (ℕ × ℕ)) (expired : ℕ) (p : PendingPool Tx) where
    pub prune_pending_stale :
        find_parked t h p.pending ≡ none
        → prune_pending now ((t, h) ∷ rest) expired p ≡ prune_pending now rest expired p
    unfolding prune_pending
    prune_pending_stale gone = rw (gone, prune_pending)

    pub prune_pending_old :
        (pos : ℕ) (bid : PendingBid Tx) (bids : List (PendingBid Tx))
        → find_parked t h p.pending ≡ some (pos, bid, bids)
        → leb p.ttl (now - bid.seen_at) ≡ true
        → prune_pending now ((t, h) ∷ rest) expired p
          ≡ prune_pending now rest (expired + 1) (take_parked t pos bids p)
    unfolding prune_pending
    prune_pending_old pos bid bids found old = rw (found, prune_pending) (rw (old, prune_pending))

    pub prune_pending_young :
        (pos : ℕ) (bid : PendingBid Tx) (bids : List (PendingBid Tx))
        → find_parked t h p.pending ≡ some (pos, bid, bids)
        → leb p.ttl (now - bid.seen_at) ≡ false
        → prune_pending now ((t, h) ∷ rest) expired p
          ≡ (record p { pending_order = (t, h) ∷ rest }, expired)
    unfolding prune_pending
    prune_pending_young pos bid bids found young =
        rw (found, prune_pending) (rw (young, prune_pending))

  pub prune_pending_nil :
      (now expired : ℕ) (p : PendingPool Tx)
      → prune_pending now [] expired p ≡ (record p { pending_order = [] }, expired)
  unfolding prune_pending
  prune_pending_nil now expired p = refl

  pub prune_pending-Drops :
      (now : ℕ) (queue : List (ℕ × ℕ)) (expired : ℕ) (p : PendingPool Tx)
      → IsParked queue p
      → Drops p expired (prune_pending now queue expired p)
  prune_pending-Drops now [] expired p v =
      rw (prune_pending_nil now expired p) (Drops-stopped [] expired p v)
  prune_pending-Drops now ((t, h) ∷ rest) expired p v =
      elim (Option-cases (find_parked t h p.pending)) [
        | inl gone ↦
            rw (prune_pending_stale now t h rest expired p gone)
              (prune_pending-Drops now rest expired p (skip-IsParked t h rest p v gone))
        | inr ((pos, bid, bids), found) ↦ elim (Bool-cases (leb p.ttl (now - bid.seen_at))) [
          | inr young ↦
              rw (prune_pending_young now t h rest expired p pos bid bids found young)
                (Drops-stopped ((t, h) ∷ rest) expired p v)
          | inl old ↦
              let taken = take_parked-IsParked t h pos bid bids rest p v found in
              rw (prune_pending_old now t h rest expired p pos bid bids found old) (
                Drops-taken t pos bids expired p _ taken.1
                  (prune_pending-Drops now rest (expired + 1) (take_parked t pos bids p) taken.0))
        ]
      ]
