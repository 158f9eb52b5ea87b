-- ===== src/Backrun/Queues/Search.antt =====
-- What the search for a parked bid (src/backrun.rs) finds, as the pool changes.
use magma_sidecar.Prelude.{
  ℕ, suc, ◌≡◌, ◌≢◌, refl, sym, ap, ◌∙◌, inl, inr, false, ◌==◌, ◌&&◌, Option, none, some, List, [],
  ◌∷◌, ◌++◌, position, position_from, remove_at, arith, Bool-cases, Option-cases, if◌then◌else◌,
}
use magma_sidecar.Prelude.Map
use magma_sidecar.Prelude.Map.{HashMap}
use magma_sidecar.Backrun.Pool.{PendingPool, PendingBid}
use magma_sidecar.Backrun.Queues.{find_parked, take_parked, is_empty}
use magma_sidecar.Backrun.Queues.Parked.{count_hash, parked, parked_of_get}
use magma_sidecar.Backrun.Queues.Parked.Take.{find_parked-split, eq-nil_of_is_empty}

module _ {Tx : Type 0} where
  -- The first bid with the hash.
  abbrev pub first : ℕ → List (PendingBid Tx) → Option (PendingBid Tx)
  first h [] = none
  first h (b ∷ bids) = if b.hash == h then some b else first h bids

  -- The bid that is found under a target.
  abbrev pub parked_at : ℕ → ℕ → HashMap (List (PendingBid Tx)) → Option (PendingBid Tx)
  parked_at t h m = elim (Map.get t m) [ none ↦ none | some bids ↦ first h bids ]

  first_of_position :
      (i h : ℕ) (bids : List (PendingBid Tx))
      → first h bids
        ≡ elim (position_from i (λ b. b.hash == h) bids) [ none ↦ none | some f ↦ some f.1 ]
  first_of_position i h [] = refl
  first_of_position i h (b ∷ bids) = elim (Bool-cases (b.hash == h)) [
    | inl same ↦ rw same refl
    | inr other ↦ rw other (first_of_position (suc i) h bids)
  ]

  pub parked_at_of_find :
      (t h : ℕ) (m : HashMap (List (PendingBid Tx)))
      → parked_at t h m ≡ elim (find_parked t h m) [ none ↦ none | some f ↦ some f.1 ]
  unfolding find_parked
  parked_at_of_find t h m = elim (Option-cases (Map.get t m)) [
    | inl gone ↦ rw (gone, parked_at) refl
    | inr (bids, held) ↦ elim (Option-cases (position (λ (b : PendingBid Tx). b.hash == h) bids)) [
      | inl missing ↦ rw (held, parked_at) (rw missing (rw missing at (first_of_position 0 h bids)))
      | inr (f, there) ↦ rw (held, parked_at) (rw there (rw there at (first_of_position 0 h bids)))
    ]
  ]

  pub first-count_hash :
      (h : ℕ) (bids : List (PendingBid Tx)) → count_hash h bids ≡ 0 → first h bids ≡ none
  first-count_hash h [] e = refl
  first-count_hash h (b ∷ bids) e = ground (arith, first-count_hash h bids)

  pub parked_at-none :
      (t h : ℕ) (m : HashMap (List (PendingBid Tx))) → parked t h m ≡ 0 → parked_at t h m ≡ none
  parked_at-none t h m e = elim (Option-cases (Map.get t m)) [
    | inl gone ↦ rw (gone, parked_at) refl
    | inr (bids, held) ↦
        rw (held, parked_at) (first-count_hash h bids (ground (arith, parked_of_get t h m, held)))
  ]

  pub first-without :
      (h j : ℕ) (front back : List (PendingBid Tx)) (b : PendingBid Tx)
      → b.hash ≡ h
      → h ≢ j
      → first j (front ++ b ∷ back) ≡ first j (front ++ back)
  first-without h j [] back b e apart = ground (arith, e, apart)
  first-without h j (c ∷ front) back b e apart =
      ground (arith, first-without h j front back b e apart)

  -- Taking a bid out leaves what is found for any other pair.
  pub parked_at-take :
      (t h pos : ℕ) (bid : PendingBid Tx) (bids : List (PendingBid Tx)) (p : PendingPool Tx)
      (u j : ℕ)
      → find_parked t h p.pending ≡ some (pos, bid, bids)
      → (t == u && h == j) ≡ false
      → parked_at u j (take_parked t pos bids p).pending ≡ parked_at u j p.pending
  unfolding take_parked is_empty
  parked_at-take t h pos bid bids p u j found apart =
      let (front, back, held, split, taken, named) =
        find_parked-split t h p.pending pos bid bids found in
      let left = remove_at pos bids in
      elim (Bool-cases (t == u)) [
        | inr other ↦ elim (Bool-cases (is_empty left)) [
          | inl bare ↦ rw (bare, parked_at, Map.get-remove t u p.pending, other) refl
          | inr full ↦ rw (full, parked_at, Map.get-insert t u left p.pending, other) refl
        ]
        | inl same ↦
            let here : Map.get u p.pending ≡ some bids = ground (arith, same, held) in
            let kept : first j bids ≡ first j left =
              ap (first j) split
              ∙ first-without h j front back bid named (ground (arith, same, apart))
              ∙ ap (first j) (sym taken) in
            elim (Bool-cases (is_empty left)) [
              | inl bare ↦
                  rw (bare, parked_at, Map.get-remove t u p.pending, same, here)
                    (sym (kept ∙ ap (first j) (eq-nil_of_is_empty left bare)))
              | inr full ↦
                  rw (full, parked_at, Map.get-insert t u left p.pending, same, here) (sym kept)
            ]
      ]

  -- The bids that a queue names and the pool still holds, in the order of the queue.
  abbrev pub waiting : List (ℕ × ℕ) → HashMap (List (PendingBid Tx)) → List (PendingBid Tx)
  waiting [] m = []
  waiting ((t, h) ∷ q) m = elim (parked_at t h m) [ none ↦ waiting q m | some b ↦ b ∷ waiting q m ]

  pub waiting_gone :
      (t h : ℕ) (q : List (ℕ × ℕ)) (m : HashMap (List (PendingBid Tx)))
      → parked_at t h m ≡ none
      → waiting ((t, h) ∷ q) m ≡ waiting q m
  waiting_gone t h q m gone =
      ap (λ o. elim o [ none ↦ waiting q m | some b ↦ b ∷ waiting q m ]) gone

  pub waiting_held :
      (t h : ℕ) (b : PendingBid Tx) (q : List (ℕ × ℕ)) (m : HashMap (List (PendingBid Tx)))
      → parked_at t h m ≡ some b
      → waiting ((t, h) ∷ q) m ≡ b ∷ waiting q m
  waiting_held t h b q m held =
      ap (λ o. elim o [ none ↦ waiting q m | some b ↦ b ∷ waiting q m ]) held
