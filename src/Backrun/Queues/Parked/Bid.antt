-- ===== src/Backrun/Queues/Parked/Bid.antt =====
-- The last loop of `forget` (src/backrun.rs): a parked copy of the bid, and the entries left empty.
use magma_sidecar.Prelude.{
  All, All-without, ℕ, ◌+◌, ◌≤◌, ◌≡◌, ◌≢◌, ◌⊎◌, refl, ap, ◌∙◌, inl, inr, not, none, some, List, [],
  ◌∷◌, length, arith, Option-cases, retain, remove_at, position, position-split, ◌==◌, subst,
}
use magma_sidecar.Prelude.Map
use magma_sidecar.Prelude.Map.{HashMap}
use magma_sidecar.Backrun.Pool.{PendingBid}
use magma_sidecar.Backrun.Queues.{forget_bid, is_empty}
use magma_sidecar.Backrun.Queues.Parked.{total, count_hash, parked, Entries, parked_of_get}
use magma_sidecar.Backrun.Queues.Parked.Take.{
  without-count_hash, without-length, position-count_hash,
}

module _ {Tx : Type 0} where
  -- How many bids with the hash are parked, under any target.
  abbrev pub copies : ℕ → HashMap (List (PendingBid Tx)) → ℕ
  copies h [] = 0
  copies h ((t, bids) ∷ m) = count_hash h bids + copies h m

  -- Entries of bids for their own target, some perhaps empty.
  abbrev pub Targets : HashMap (List (PendingBid Tx)) → Type 0
  Targets [] = Unit {0}
  Targets ((t, bids) ∷ m) = All (λ b. b.target ≡ t) bids × Targets m

  pub Targets-Entries : (m : HashMap (List (PendingBid Tx))) → Entries m → Targets m
  Targets-Entries [] e = tt
  Targets-Entries ((t, bids) ∷ m) e = (e.1, Targets-Entries m e.2)

  pub forget_bid_found :
      (h t pos : ℕ) (b : PendingBid Tx) (bids : List (PendingBid Tx))
      (m : HashMap (List (PendingBid Tx)))
      → position (λ b. b.hash == h) bids ≡ some (pos, b)
      → forget_bid h ((t, bids) ∷ m) ≡ ((t, remove_at pos bids) ∷ m, 1)
  unfolding forget_bid
  forget_bid_found h t pos b bids m e = rw (e, forget_bid)

  pub forget_bid_next :
      (h t : ℕ) (bids : List (PendingBid Tx)) (m : HashMap (List (PendingBid Tx)))
      → position (λ b. b.hash == h) bids ≡ none
      → forget_bid h ((t, bids) ∷ m) ≡ ((t, bids) ∷ (forget_bid h m).0, (forget_bid h m).1)
  unfolding forget_bid
  forget_bid_next h t bids m e = rw (e, forget_bid)

  -- One entry loses one bid, at most.
  pub record Forgets (h : ℕ) (m : HashMap (List (PendingBid Tx)))
      (r : HashMap (List (PendingBid Tx)) × ℕ) : Type 0 where
    pub counted : total r.0 + r.1 ≡ total m
    pub lost : copies h r.0 + r.1 ≡ copies h m
    pub at_most_one : (r.1 ≡ 1) ⊎ ((r.1 ≡ 0) × (copies h m ≡ 0))
    pub targets : Targets r.0
    pub distinct : Map.Distinct r.0
    pub absent : (k : ℕ) → Map.get k m ≡ none → Map.get k r.0 ≡ none
    pub fewer : (k j : ℕ) → parked k j r.0 ≤ parked k j m
    pub others : (k j : ℕ) → j ≢ h → parked k j r.0 ≡ parked k j m

  forget_bid_nil : (h : ℕ) → Forgets h [] (forget_bid h [])
  unfolding forget_bid
  forget_bid_nil h = record {
    counted = refl;
    lost = refl;
    at_most_one = inr (refl, refl);
    targets = tt;
    distinct = tt;
    absent = λ k gone. refl;
    fewer = λ k j. omega arith;
    others = λ k j other. refl;
  }

  pub forget_bid-Forgets :
      (h : ℕ) (m : HashMap (List (PendingBid Tx)))
      → Targets m
      → Map.Distinct m
      → Forgets h m (forget_bid h m)
  forget_bid-Forgets h [] e d = forget_bid_nil h
  forget_bid-Forgets h ((t, bids) ∷ m) e d =
      elim (Option-cases (position (λ (b : PendingBid Tx). b.hash == h) bids)) [
        | inl missing ↦
            let rec = forget_bid-Forgets h m e.1 d.1 in
            let zero_here = position-count_hash 0 h bids missing in
            rw (forget_bid_next h t bids m missing) (record {
              counted = omega (arith, rec.counted);
              lost = omega (arith, rec.lost);
              at_most_one = ground (arith, rec.at_most_one, zero_here);
              targets = (e.0, rec.targets);
              distinct = (rec.absent t d.0, rec.distinct);
              absent = λ k gone. ground (arith, rec.absent k);
              fewer = λ k j. ground (arith, rec.fewer k j);
              others = λ k j other. ground (arith, rec.others k j other);
            })
        | inr ((pos, b), found) ↦
            let (front, back, split, taken, passes) = position-split _ bids pos b found in
            let here = λ (j : ℕ). ap (count_hash j) split ∙ without-count_hash j front back b in
            rw (forget_bid_found h t pos b bids m found, taken)
              (record {
                counted = omega (arith, ap length split, without-length front back b);
                lost = ground (arith, here h, passes);
                at_most_one = inl refl;
                targets = (
                  All-without _ front b back
                      (subst (λ xs. All (λ (c : PendingBid Tx). c.target ≡ t) xs) split e.0),
                  e.1,
                );
                distinct = d;
                absent = λ k gone. ground arith;
                fewer = λ k j. ground (arith, here j);
                others = λ k j other. ground (arith, here j, passes, other);
              })
      ]

  -- `retain(|_, v| !v.is_empty())` drops entries in which nothing is parked.
  abbrev pub occupied : HashMap (List (PendingBid Tx)) → HashMap (List (PendingBid Tx))
  occupied = retain (λ e. not (is_empty e.1))

  pub occupied-total : (m : HashMap (List (PendingBid Tx))) → total (occupied m) ≡ total m
  unfolding is_empty
  occupied-total [] = refl
  occupied-total ((t, []) ∷ m) = omega (arith, occupied-total m)
  occupied-total ((t, b ∷ bids) ∷ m) = omega (arith, occupied-total m)

  pub occupied-copies :
      (h : ℕ) (m : HashMap (List (PendingBid Tx))) → copies h (occupied m) ≡ copies h m
  unfolding is_empty
  occupied-copies h [] = refl
  occupied-copies h ((t, []) ∷ m) = omega (arith, occupied-copies h m)
  occupied-copies h ((t, b ∷ bids) ∷ m) =
      ap (λ (n : ℕ). count_hash h (b ∷ bids) + n) (occupied-copies h m)

  pub occupied-Entries : (m : HashMap (List (PendingBid Tx))) → Targets m → Entries (occupied m)
  unfolding is_empty
  occupied-Entries [] e = tt
  occupied-Entries ((t, []) ∷ m) e = occupied-Entries m e.1
  occupied-Entries ((t, b ∷ bids) ∷ m) e = (refl, e.0, occupied-Entries m e.1)

  pub occupied_absent :
      (k : ℕ) (m : HashMap (List (PendingBid Tx)))
      → Map.get k m ≡ none
      → Map.get k (occupied m) ≡ none
  unfolding is_empty
  occupied_absent k [] h = refl
  occupied_absent k ((t, []) ∷ m) h = ground (arith, occupied_absent k m)
  occupied_absent k ((t, b ∷ bids) ∷ m) h = ground (arith, occupied_absent k m)

  pub occupied-Distinct :
      (m : HashMap (List (PendingBid Tx))) → Map.Distinct m → Map.Distinct (occupied m)
  unfolding is_empty
  occupied-Distinct [] d = tt
  occupied-Distinct ((t, []) ∷ m) d = occupied-Distinct m d.1
  occupied-Distinct ((t, b ∷ bids) ∷ m) d = (occupied_absent t m d.0, occupied-Distinct m d.1)

  pub parked_absent :
      (k j : ℕ) (m : HashMap (List (PendingBid Tx))) → Map.get k m ≡ none → parked k j m ≡ 0
  parked_absent k j m gone = rw (parked_of_get k j m, gone) refl

  pub occupied-parked :
      (k j : ℕ) (m : HashMap (List (PendingBid Tx)))
      → Map.Distinct m
      → parked k j (occupied m) ≡ parked k j m
  unfolding is_empty
  occupied-parked k j [] d = refl
  occupied-parked k j ((t, []) ∷ m) d =
      ground (arith, occupied-parked k j m d.1, parked_absent t j m d.0)
  occupied-parked k j ((t, b ∷ bids) ∷ m) d = ground (arith, occupied-parked k j m d.1)
