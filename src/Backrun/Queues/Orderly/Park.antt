-- ===== src/Backrun/Queues/Orderly/Park.antt =====
-- `push_pending` (src/backrun.rs) of a bid that is younger than those parked.
use magma_sidecar.Prelude.{
  ℕ, ◌≤◌, ◌≡◌, ◌≢◌, refl, sym, ap, subst, ◌∙◌, inl, inr, false, ◌==◌, ◌&&◌, none, some, List, [],
  ◌∷◌, ◌++◌, arith, All, All-map, All-append, Bool-cases, Option-cases, if◌then◌else◌,
}
use magma_sidecar.Prelude.Map
use magma_sidecar.Prelude.Map.{HashMap}
use magma_sidecar.Backrun.Pool.{PendingPool, PendingBid}
use magma_sidecar.Backrun.Queues.{park, push_pending}
use magma_sidecar.Backrun.Queues.Parked.{queued, queued-append}
use magma_sidecar.Backrun.Queues.Search.{first, parked_at, waiting, waiting_gone, waiting_held}
use magma_sidecar.Backrun.Queues.Overdue.{Once, Ascending, waiting_apart}
use magma_sidecar.Backrun.Queues.Orderly.{IsOrderly, evict_pending-IsOrderly}

Once-snoc : (t h : ℕ) (q : List (ℕ × ℕ)) → Once q → queued t h q ≡ 0 → Once (q ++ (t, h) ∷ [])
Once-snoc t h [] o new = (refl, tt)
Once-snoc t h ((u, j) ∷ q) (single, o) new = (
  ground (arith, single, new, queued-append u j q ((t, h) ∷ [])),
  Once-snoc t h q o (ground (arith, new)),
)

module _ {Tx : Type 0} where
  first-snoc :
      (j : ℕ) (bids : List (PendingBid Tx)) (b : PendingBid Tx)
      → first j (bids ++ b ∷ [])
        ≡ elim (first j bids) [ none ↦ if b.hash == j then some b else none | some c ↦ some c ]
  first-snoc j [] b = refl
  first-snoc j (c ∷ bids) b = elim (Bool-cases (c.hash == j)) [
    | inl same ↦ rw same refl
    | inr other ↦ rw other (first-snoc j bids b)
  ]

  -- What is found in a written entry.
  parked_at-insert :
      (t : ℕ) (bids : List (PendingBid Tx)) (m : HashMap (List (PendingBid Tx))) (u j : ℕ)
      → parked_at u j (Map.insert t bids m) ≡ (if t == u then first j bids else parked_at u j m)
  parked_at-insert t bids m u j = elim (Bool-cases (t == u)) [
    | inl same ↦ rw (parked_at, Map.get-insert t u bids m, same) refl
    | inr other ↦ rw (parked_at, Map.get-insert t u bids m, other) refl
  ]

  -- The bids that `push_pending` appends to.
  first_of_entry :
      (t j : ℕ) (m : HashMap (List (PendingBid Tx)))
      → first j (elim (Map.get t m) [ none ↦ [] | some bids ↦ bids ]) ≡ parked_at t j m
  first_of_entry t j m = elim (Option-cases (Map.get t m)) [
    | inl gone ↦ rw (gone, parked_at) refl
    | inr (bids, held) ↦ rw (held, parked_at) refl
  ]

  parked_at-park :
      (bid : PendingBid Tx) (p : PendingPool Tx) (u j : ℕ)
      → (bid.target == u && bid.hash == j) ≡ false
      → parked_at u j (park bid p).pending ≡ parked_at u j p.pending
  unfolding park
  parked_at-park bid p u j apart =
      let old : List (PendingBid Tx) = elim (Map.get bid.target p.pending) [
        | none ↦ []
        | some bids ↦ bids
      ] in
      parked_at-insert bid.target (old ++ bid ∷ []) p.pending u j
      ∙ elim (Bool-cases (bid.target == u)) [
        | inr other ↦ rw other refl
        | inl same ↦
            let e : bid.target ≡ u = ground (arith, same) in
            let apart' : bid.hash ≢ j = ground (arith, same, apart) in
            rw same (
              ground (arith, first-snoc j old bid, apart')
              ∙ first_of_entry bid.target j p.pending
              ∙ (λ i. parked_at (e i) j p.pending))
      ]

  parked_at-park_new :
      (bid : PendingBid Tx) (p : PendingPool Tx)
      → parked_at bid.target bid.hash p.pending ≡ none
      → parked_at bid.target bid.hash (park bid p).pending ≡ some bid
  unfolding park
  parked_at-park_new bid p gone =
      let old : List (PendingBid Tx) = elim (Map.get bid.target p.pending) [
        | none ↦ []
        | some bids ↦ bids
      ] in
      let nothing = first_of_entry bid.target bid.hash p.pending ∙ gone in
      parked_at-insert bid.target (old ++ bid ∷ []) p.pending bid.target bid.hash
      ∙ ground (arith, first-snoc bid.hash old bid, nothing)

  waiting-append :
      (q r : List (ℕ × ℕ)) (m : HashMap (List (PendingBid Tx)))
      → waiting (q ++ r) m ≡ waiting q m ++ waiting r m
  waiting-append [] r m = refl
  waiting-append ((t, h) ∷ q) r m = elim (Option-cases (parked_at t h m)) [
    | inl gone ↦
        waiting_gone t h (q ++ r) m gone
        ∙ waiting-append q r m
        ∙ ap (λ l. l ++ waiting r m) (sym (waiting_gone t h q m gone))
    | inr (b, held) ↦
        waiting_held t h b (q ++ r) m held
        ∙ ap (◌∷◌ b) (waiting-append q r m)
        ∙ ap (λ l. l ++ waiting r m) (sym (waiting_held t h b q m held))
  ]

  Ascending-snoc :
      (bids : List (PendingBid Tx)) (b : PendingBid Tx)
      → Ascending bids
      → All (λ c. c.seen_at ≤ b.seen_at) bids
      → Ascending (bids ++ b ∷ [])
  Ascending-snoc [] b asc all = (tt, tt)
  Ascending-snoc (c ∷ bids) b (later, asc) (before, all) =
      (All-append _ bids (b ∷ []) later (before, tt), Ascending-snoc bids b asc all)

  -- A bid that is no younger than the parked ones, under a pair that is neither parked nor queued.
  pub push_pending-IsOrderly :
      (now : ℕ) (bid : PendingBid Tx) (p : PendingPool Tx)
      → IsOrderly now p
      → now ≤ bid.seen_at
      → queued bid.target bid.hash p.pending_order ≡ 0
      → parked_at bid.target bid.hash p.pending ≡ none
      → IsOrderly bid.seen_at (push_pending bid p).0
  unfolding push_pending park
  push_pending-IsOrderly now bid p o later new gone =
      let r = park bid p in
      let same =
        waiting_apart bid.target bid.hash p.pending r.pending p.pending_order (parked_at-park bid p)
          new in
      let ends : waiting r.pending_order r.pending ≡ waiting p.pending_order p.pending ++ bid ∷ [] =
        waiting-append p.pending_order ((bid.target, bid.hash) ∷ []) r.pending ∙ (λ i.
          same i
          ++ waiting_held bid.target bid.hash bid [] r.pending (parked_at-park_new bid p gone) i) in
      let past =
        All-map (λ (b : PendingBid Tx). b.seen_at ≤ now)
          (λ (b : PendingBid Tx). b.seen_at ≤ bid.seen_at) (waiting p.pending_order p.pending)
          (λ b h. omega (arith, h)) o.past in
      evict_pending-IsOrderly bid.seen_at r.pending_order 0 r (record {
        once = Once-snoc bid.target bid.hash p.pending_order o.once new;
        ascending =
            subst Ascending (sym ends)
              (Ascending-snoc (waiting p.pending_order p.pending) bid o.ascending past);
        past =
            subst (All (λ (b : PendingBid Tx). b.seen_at ≤ bid.seen_at)) (sym ends)
              (All-append _ (waiting p.pending_order p.pending) (bid ∷ []) past (omega arith, tt));
      })
