-- ===== src/Backrun/Queues/Orderly/Forget.antt =====
-- `forget` (src/backrun.rs), and what is found afterwards.
use magma_sidecar.Prelude.{
  ℕ, ◌≤◌, ◌≡◌, ◌⊎◌, refl, sym, ap, subst, ◌∙◌, inl, inr, ◌==◌, ◌&&◌, none, some, List, [], ◌∷◌,
  ◌++◌, position, remove_at, position-split, arith, Bool-cases, Option-cases, if◌then◌else◌,
}
use magma_sidecar.Prelude.Map
use magma_sidecar.Prelude.Map.{HashMap}
use magma_sidecar.Prelude.Set
use magma_sidecar.Backrun.Pool.{PendingPool, PendingBid}
use magma_sidecar.Backrun.Queues.{forget, forget_target, forget_parked, forget_bid, is_empty}
use magma_sidecar.Backrun.Queues.Parked.{queued, count_hash, parked, IsParked}
use magma_sidecar.Backrun.Queues.Parked.Take.{without-count_hash}
use magma_sidecar.Backrun.Queues.Parked.Bid.{
  Targets-Entries, forget_bid_found, forget_bid_next, forget_bid-Forgets, occupied, parked_absent,
  occupied_absent,
}
use magma_sidecar.Backrun.Queues.Parked.Forget.{forget_target-IsParked, forget_target-SameCache}
use magma_sidecar.Backrun.Queues.Search.{first, parked_at, first-without, first-count_hash}
use magma_sidecar.Backrun.Queues.Overdue.{Once}
use magma_sidecar.Backrun.Queues.Orderly.{Orderly, IsOrderly, Shrinks, Orderly-Shrinks}

queued_once : (t h : ℕ) (q : List (ℕ × ℕ)) → Once q → queued t h q ≤ 1
queued_once t h [] o = omega arith
queued_once t h ((u, j) ∷ q) (single, o) = elim (Bool-cases (u == t && j == h)) [
  | inl same ↦
      let e : u ≡ t = ground (arith, same) in
      let f : j ≡ h = ground (arith, same) in
      let here : queued t h q ≡ 0 = (λ i. queued (sym e i) (sym f i) q) ∙ single in
      ground (arith, same, here)
  | inr other ↦ ground (arith, other, queued_once t h q o)
]

module _ {Tx : Type 0} where
  Shrinks-trans : (m n r : HashMap (List (PendingBid Tx))) → Shrinks m n → Shrinks n r → Shrinks m r
  Shrinks-trans m n r s z t h = elim (z t h) [
    | inl lost ↦ inl lost
    | inr kept ↦ elim (s t h) [ inl lost ↦ inl (kept ∙ lost) | inr held ↦ inr (kept ∙ held) ]
  ]

  pub remove-Shrinks : (k : ℕ) (m : HashMap (List (PendingBid Tx))) → Shrinks m (Map.remove k m)
  remove-Shrinks k m t h = elim (Bool-cases (k == t)) [
    | inl same ↦ inl (rw (parked_at, Map.get-remove k t m, same) refl)
    | inr other ↦ inr (rw (parked_at, Map.get-remove k t m, other) refl)
  ]

  parked_at_cons :
      (k : ℕ) (bids : List (PendingBid Tx)) (m : HashMap (List (PendingBid Tx))) (t h : ℕ)
      → parked_at t h ((k, bids) ∷ m) ≡ (if k == t then first h bids else parked_at t h m)
  parked_at_cons k bids m t h = elim (Bool-cases (k == t)) [
    | inl same ↦ rw (parked_at, same) refl
    | inr other ↦ rw (parked_at, other) refl
  ]

  -- Two maps with one more entry under the same key.
  cons-Shrinks :
      (k : ℕ) (bids bids' : List (PendingBid Tx)) (m n : HashMap (List (PendingBid Tx)))
      → ((h : ℕ) → (first h bids' ≡ none) ⊎ (first h bids' ≡ first h bids))
      → Shrinks m n
      → Shrinks ((k, bids) ∷ m) ((k, bids') ∷ n)
  cons-Shrinks k bids bids' m n here there t h =
      rw (parked_at_cons k bids m t h, parked_at_cons k bids' n t h)
        (elim (Bool-cases (k == t)) [
          | inl same ↦ rw same (here h)
          | inr other ↦ rw other (there t h)
        ])

  occupied-Shrinks : (m : HashMap (List (PendingBid Tx))) → Map.Distinct m → Shrinks m (occupied m)
  unfolding is_empty
  occupied-Shrinks [] d t h = inl refl
  occupied-Shrinks ((k, []) ∷ m) d t h = elim (Bool-cases (k == t)) [
    | inl same ↦
        let e : k ≡ t = ground (arith, same) in
        let gone = (λ i. Map.get (sym e i) (occupied m)) ∙ occupied_absent k m d.0 in
        inl (rw (parked_at, gone) refl)
    | inr other ↦ rw (parked_at_cons k [] m t h, other) (occupied-Shrinks m d.1 t h)
  ]
  occupied-Shrinks ((k, b ∷ bids) ∷ m) d t h =
      cons-Shrinks k (b ∷ bids) (b ∷ bids) m (occupied m) (λ j. inr refl) (occupied-Shrinks m d.1) t
        h

  -- A list of bids without the first one with the hash.
  first-forgotten :
      (h pos : ℕ) (b : PendingBid Tx) (bids : List (PendingBid Tx)) (j : ℕ)
      → position (λ b. b.hash == h) bids ≡ some (pos, b)
      → count_hash h bids ≤ 1
      → (first j (remove_at pos bids) ≡ none) ⊎ (first j (remove_at pos bids) ≡ first j bids)
  first-forgotten h pos b bids j placed single =
      let (front, back, split, taken, passes) =
        position-split (λ (c : PendingBid Tx). c.hash == h) bids pos b placed in
      let named : b.hash ≡ h = ground (arith, passes) in
      elim (Bool-cases (h == j)) [
        | inl same ↦
            let counts = ap (count_hash h) split ∙ without-count_hash h front back b in
            let left : count_hash h (front ++ back) ≡ 0 = ground (arith, single, counts, named) in
            let e : h ≡ j = ground (arith, same) in
            inl (
              ap (first j) taken
              ∙ (λ i. first (sym e i) (front ++ back))
              ∙ first-count_hash h (front ++ back) left)
        | inr other ↦ inr (
            ap (first j) taken
            ∙ sym (first-without h j front back b named (ground (arith, other)))
            ∙ ap (first j) (sym split))
      ]

  forget_bid-Shrinks :
      (h : ℕ) (m : HashMap (List (PendingBid Tx)))
      → Map.Distinct m
      → ((t : ℕ) → parked t h m ≤ 1)
      → Shrinks m (forget_bid h m).0
  unfolding forget_bid
  forget_bid-Shrinks h [] d single = λ t j. inl refl
  forget_bid-Shrinks h ((k, bids) ∷ m) d single =
      let here : count_hash h bids ≤ 1 = ground (arith, single k) in
      elim (Option-cases (position (λ (b : PendingBid Tx). b.hash == h) bids)) [
        | inl missing ↦ rw (forget_bid_next h k bids m missing) (
            cons-Shrinks k bids bids m (forget_bid h m).0 (λ j. inr refl)
              (forget_bid-Shrinks h m d.1 λ t. elim (Bool-cases (k == t)) [
                | inl same ↦
                    let e : k ≡ t = ground (arith, same) in
                    omega (arith, parked_absent t h m ((λ i. Map.get (sym e i) m) ∙ d.0))
                | inr other ↦ ground (arith, single t, other)
              ]))
        | inr ((pos, b), found) ↦ rw (forget_bid_found h k pos b bids m found) (
            cons-Shrinks k bids (remove_at pos bids) m m
              (λ j. first-forgotten h pos b bids j found here) (λ t j. inr refl))
      ]

  -- Forgetting finds nothing new, where no pair stands twice in the queue.
  pub forget-Shrinks :
      (h : ℕ) (p : PendingPool Tx)
      → IsParked p.pending_order p
      → Once p.pending_order
      → Shrinks p.pending (forget h p).pending
  unfolding forget forget_parked
  forget-Shrinks h p v once =
      let q = record p {
        cache = Map.remove h p.cache;
        streamed_targets = Set.remove h p.streamed_targets;
      } in
      let w : IsParked p.pending_order q = record {
        distinct = v.distinct;
        entries = v.entries;
        counted = v.counted;
        waiting = v.waiting;
      } in
      let r = forget_target h q in
      let (x, less, fewer) = forget_target-IsParked h p.pending_order q w in
      let left = (forget_bid h r.pending).0 in
      let f = forget_bid-Forgets h r.pending (Targets-Entries r.pending x.entries) x.distinct in
      let removed : Shrinks p.pending r.pending =
        subst (Shrinks p.pending) (sym less) (remove-Shrinks h p.pending) in
      let single : (t : ℕ) → parked t h r.pending ≤ 1 =
        λ t. omega (arith, x.waiting t h, queued_once t h p.pending_order once) in
      Shrinks-trans p.pending r.pending (occupied left) removed (
        Shrinks-trans r.pending left (occupied left)
          (forget_bid-Shrinks h r.pending x.distinct single) (occupied-Shrinks left f.distinct))

  pub forget-IsOrderly :
      (now h : ℕ) (p : PendingPool Tx)
      → IsParked p.pending_order p
      → IsOrderly now p
      → IsOrderly now (forget h p)
  unfolding forget forget_parked
  forget-IsOrderly now h p v o =
      let q = record p {
        cache = Map.remove h p.cache;
        streamed_targets = Set.remove h p.streamed_targets;
      } in
      let (_, queue) = forget_target-SameCache h q in
      subst (λ r. Orderly now r (forget h p).pending) (sym queue)
        (Orderly-Shrinks now p.pending_order p.pending (forget h p).pending
          (forget-Shrinks h p v o.once) o)
