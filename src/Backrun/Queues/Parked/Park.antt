-- ===== src/Backrun/Queues/Parked/Park.antt =====
-- Parking a bid (`push_pending` in src/backrun.rs) at the back of its entry and of the queue.
use magma_sidecar.Prelude.{
  All-append, ℕ, ◌≡◌, refl, inl, inr, false, none, some, List, [], ◌∷◌, ◌++◌, length-append, arith,
  Option-cases,
}
use magma_sidecar.Prelude.Map
use magma_sidecar.Prelude.Map.{HashMap}
use magma_sidecar.Backrun.Pool.{PendingPool, PendingBid}
use magma_sidecar.Backrun.Queues.{park, is_empty}
use magma_sidecar.Backrun.Queues.Parked.{
  queued-append, count_hash, parked, IsParked, count_hash-append, total-insert, total-insert_new,
  parked-insert, parked_of_get, Entries-insert, Entries-get,
}

module _ {Tx : Type 0} where
  is_empty-append :
      (xs : List (PendingBid Tx)) (x : PendingBid Tx) → is_empty (xs ++ x ∷ []) ≡ false
  unfolding is_empty
  is_empty-append [] x = refl
  is_empty-append (y ∷ xs) x = refl

  module _ (bid : PendingBid Tx) (p : PendingPool Tx) (v : IsParked p.pending_order p) where
    park_new :
        Map.get bid.target p.pending ≡ none → IsParked (park bid p).pending_order (park bid p)
    unfolding park is_empty
    park_new gone = rw gone (record {
      distinct = Map.insert-Distinct bid.target (bid ∷ []) p.pending v.distinct;
      entries = Entries-insert bid.target (bid ∷ []) p.pending v.entries refl (refl, tt);
      counted = omega (arith, v.counted, total-insert_new bid.target (bid ∷ []) p.pending gone);
      waiting = λ k j. ground (
        arith,
        v.waiting k j,
        parked-insert bid.target j k (bid ∷ []) p.pending,
        queued-append k j p.pending_order ((bid.target, bid.hash) ∷ []),
      );
    })

    park_more :
        (bids : List (PendingBid Tx))
        → Map.get bid.target p.pending ≡ some bids
        → IsParked (park bid p).pending_order (park bid p)
    unfolding park
    park_more bids held = rw held (record {
      distinct = Map.insert-Distinct bid.target (bids ++ bid ∷ []) p.pending v.distinct;
      entries =
          Entries-insert bid.target (bids ++ bid ∷ []) p.pending v.entries
            (is_empty-append bids bid)
            (All-append _ bids (bid ∷ []) (Entries-get bid.target bids p.pending v.entries held)
              (refl, tt));
      counted = omega (
        arith,
        v.counted,
        total-insert bid.target bids (bids ++ bid ∷ []) p.pending held,
        length-append bids (bid ∷ []),
      );
      waiting = λ k j. ground (
        arith,
        v.waiting k j,
        here j,
        count_hash-append j bids (bid ∷ []),
        parked-insert bid.target j k (bids ++ bid ∷ []) p.pending,
        queued-append k j p.pending_order ((bid.target, bid.hash) ∷ []),
      );
    })
      where
        here : (j : ℕ) → parked bid.target j p.pending ≡ count_hash j bids
        here j = rw (parked_of_get bid.target j p.pending, held) refl

    pub park-IsParked : IsParked (park bid p).pending_order (park bid p)
    park-IsParked = elim (Option-cases (Map.get bid.target p.pending)) [
      | inl gone ↦ park_new gone
      | inr (bids, held) ↦ park_more bids held
    ]
