-- ===== src/Backrun/Queues/Overdue.antt =====
-- Which parked bids the second loop of `prune` (src/backrun.rs) drops.
use mathlib.Core.Option.{none-ne-some}
use magma_sidecar.Prelude.{
  ℕ, ◌+◌, ◌-◌, ◌≤◌, ◌<◌, ◌≡◌, refl, sym, ap, subst, ◌∙◌, inl, inr, true, false, ◌==◌, ◌&&◌, ltb,
  leb, Option, none, some, List, [], ◌∷◌, arith, Bool-cases, Option-cases, if◌then◌else◌, All,
}
use magma_sidecar.Prelude.Map.{HashMap}
use magma_sidecar.Backrun.Pool.{PendingPool, PendingBid}
use magma_sidecar.Backrun.Queues.{find_parked, take_parked, prune_pending}
use magma_sidecar.Backrun.Queues.Parked.{queued, IsParked}
use magma_sidecar.Backrun.Queues.Parked.Take.{take_parked-IsParked, skip-IsParked}
use magma_sidecar.Backrun.Queues.ExpireParked.{
  prune_pending_nil, prune_pending_stale, prune_pending_old, prune_pending_young,
}
use magma_sidecar.Backrun.Queues.Search.{
  parked_at, parked_at_of_find, parked_at-none, parked_at-take, waiting, waiting_gone, waiting_held,
}

-- No pair stands twice in the queue.
abbrev pub Once : List (ℕ × ℕ) → Type 0
Once [] = Unit
Once ((t, h) ∷ q) = (queued t h q ≡ 0) × Once q

module _ {Tx : Type 0} where
  -- Bids in the order of their times.
  abbrev pub Ascending : List (PendingBid Tx) → Type 0
  Ascending [] = Unit
  Ascending (b ∷ bids) = All (λ c. b.seen_at ≤ c.seen_at) bids × Ascending bids

  -- A bid that has not reached the time to live.
  abbrev pub unexpired : ℕ → ℕ → Option (PendingBid Tx) → Option (PendingBid Tx)
  unexpired now ttl none = none
  unexpired now ttl (some b) = if leb ttl (now - b.seen_at) then none else some b

  parked_at_same :
      (t h u j : ℕ) (m : HashMap (List (PendingBid Tx)))
      → (u == t && j == h) ≡ true
      → parked_at u j m ≡ parked_at t h m
  parked_at_same t h u j m same =
      let e : u ≡ t = ground (arith, same) in
      let f : j ≡ h = ground (arith, same) in λ i. parked_at (e i) (f i) m

  -- A bid that is found stands in the queue, and what holds of all waiting bids holds of it.
  waiting-All :
      (P : PendingBid Tx → Type 0) (t h : ℕ) (b : PendingBid Tx) (q : List (ℕ × ℕ))
      (m : HashMap (List (PendingBid Tx)))
      → All P (waiting q m)
      → 0 < queued t h q
      → parked_at t h m ≡ some b
      → P b
  waiting-All P t h b [] m all names found = absurd (omega arith)
  waiting-All P t h b ((u, j) ∷ q) m all names found = elim (Bool-cases (u == t && j == h)) [
    | inl same ↦
        let held = parked_at_same t h u j m same ∙ found in
        (subst (All P) (waiting_held u j b q m held) all).0
    | inr other ↦
        let names' : 0 < queued t h q = ground (arith, names, other) in
        elim (Option-cases (parked_at u j m)) [
          | inl gone ↦
              waiting-All P t h b q m (subst (All P) (waiting_gone u j q m gone) all) names' found
          | inr (c, held) ↦
              waiting-All P t h b q m (subst (All P) (waiting_held u j c q m held) all).1 names'
                found
        ]
  ]

  named :
      (t h : ℕ) (b : PendingBid Tx) (q : List (ℕ × ℕ)) (p : PendingPool Tx)
      → IsParked q p
      → parked_at t h p.pending ≡ some b
      → 0 < queued t h q
  named t h b q p v found = elim (Bool-cases (ltb 0 (queued t h q))) [
    | inl in_queue ↦ ground (arith, in_queue)
    | inr out ↦ absurd (
        none-ne-some b
          (sym (parked_at-none t h p.pending (ground (arith, v.waiting t h, out))) ∙ found))
  ]

  -- A change at one pair does not show in a queue without that pair.
  pub waiting_apart :
      (t h : ℕ) (m n : HashMap (List (PendingBid Tx))) (q : List (ℕ × ℕ))
      → ((u j : ℕ) → (t == u && h == j) ≡ false → parked_at u j n ≡ parked_at u j m)
      → queued t h q ≡ 0
      → waiting q n ≡ waiting q m
  waiting_apart t h m n [] same apart = refl
  waiting_apart t h m n ((u, j) ∷ q) same apart =
      let here = same u j (ground (arith, apart)) in
      let rest = waiting_apart t h m n q same (ground (arith, apart)) in
      elim (Option-cases (parked_at u j m)) [
        | inl gone ↦ waiting_gone u j q n (here ∙ gone) ∙ rest ∙ sym (waiting_gone u j q m gone)
        | inr (c, held) ↦
            waiting_held u j c q n (here ∙ held)
            ∙ ap (◌∷◌ c) rest
            ∙ sym (waiting_held u j c q m held)
      ]

  pub waiting-take :
      (t h pos : ℕ) (bid : PendingBid Tx) (bids : List (PendingBid Tx)) (q : List (ℕ × ℕ))
      (p : PendingPool Tx)
      → find_parked t h p.pending ≡ some (pos, bid, bids)
      → queued t h q ≡ 0
      → waiting q (take_parked t pos bids p).pending ≡ waiting q p.pending
  waiting-take t h pos bid bids q p found apart =
      waiting_apart t h p.pending (take_parked t pos bids p).pending q
        (λ u j other. parked_at-take t h pos bid bids p u j found other) apart

  -- Every bid that the pool holds is at least as young as the front of the queue.
  front_oldest :
      (now ttl t h u j : ℕ) (b c : PendingBid Tx) (q : List (ℕ × ℕ)) (p : PendingPool Tx)
      → IsParked ((t, h) ∷ q) p
      → Ascending (waiting ((t, h) ∷ q) p.pending)
      → parked_at t h p.pending ≡ some b
      → leb ttl (now - b.seen_at) ≡ false
      → parked_at u j p.pending ≡ some c
      → leb ttl (now - c.seen_at) ≡ false
  front_oldest now ttl t h u j b c q p v asc held young found =
      let (later, _) = subst Ascending (waiting_held t h b q p.pending held) asc in
      let all : All (λ (d : PendingBid Tx). b.seen_at ≤ d.seen_at)
          (waiting ((t, h) ∷ q) p.pending) =
        subst (All (λ (d : PendingBid Tx). b.seen_at ≤ d.seen_at))
          (sym (waiting_held t h b q p.pending held)) (omega arith, later) in
      let in_queue = named u j c ((t, h) ∷ q) p v found in
      let order = waiting-All _ u j c ((t, h) ∷ q) p.pending all in_queue found in
      ground (arith, order, young)

  unexpired_keeps :
      (now ttl : ℕ) (o : Option (PendingBid Tx))
      → ((c : PendingBid Tx) → o ≡ some c → leb ttl (now - c.seen_at) ≡ false)
      → o ≡ unexpired now ttl o
  unexpired_keeps now ttl none young = refl
  unexpired_keeps now ttl (some c) young = rw (young c refl) refl

  -- Taking out an expired bid of the front of the queue.
  take-unexpired :
      (now t h u j pos : ℕ) (bid : PendingBid Tx) (bids : List (PendingBid Tx)) (q : List (ℕ × ℕ))
      (p : PendingPool Tx)
      → IsParked q (take_parked u pos bids p)
      → queued u j q ≡ 0
      → find_parked u j p.pending ≡ some (pos, bid, bids)
      → parked_at u j p.pending ≡ some bid
      → leb p.ttl (now - bid.seen_at) ≡ true
      → unexpired now p.ttl (parked_at t h (take_parked u pos bids p).pending)
        ≡ unexpired now p.ttl (parked_at t h p.pending)
  take-unexpired now t h u j pos bid bids q p v single found held old =
      elim (Bool-cases (u == t && j == h)) [
        | inr other ↦ ap (unexpired now p.ttl) (parked_at-take u j pos bid bids p t h found other)
        | inl same ↦
            let r = take_parked u pos bids p in
            let out : queued t h q ≡ 0 = ground (arith, same, single) in
            let gone = parked_at-none t h r.pending (omega (arith, v.waiting t h, out)) in
            let here = sym (parked_at_same t h u j p.pending same) ∙ held in
            ap (unexpired now p.ttl) gone ∙ rw (here, old) refl
      ]

  pub prune_pending_lem :
      (now : ℕ) (q : List (ℕ × ℕ)) (expired : ℕ) (p : PendingPool Tx) (t h : ℕ)
      → IsParked q p
      → Once q
      → Ascending (waiting q p.pending)
      → parked_at t h (prune_pending now q expired p).0.pending
        ≡ unexpired now p.ttl (parked_at t h p.pending)
  unfolding take_parked
  prune_pending_lem now [] expired p t h v once asc =
      let gone = parked_at-none t h p.pending (omega (arith, v.waiting t h)) in
      rw (prune_pending_nil now expired p) (gone ∙ sym (ap (unexpired now p.ttl) gone))
  prune_pending_lem now ((u, j) ∷ q) expired p t h v (single, once) asc =
      elim (Option-cases (find_parked u j p.pending)) [
        | inl missing ↦
            let gone : parked_at u j p.pending ≡ none =
              rw missing at (parked_at_of_find u j p.pending) in
            rw (prune_pending_stale now u j q expired p missing) (
              prune_pending_lem now q expired p t h (skip-IsParked u j q p v missing) once
                (subst Ascending (waiting_gone u j q p.pending gone) asc))
        | inr ((pos, bid, bids), found) ↦
            let held : parked_at u j p.pending ≡ some bid =
              rw found at (parked_at_of_find u j p.pending) in
            elim (Bool-cases (leb p.ttl (now - bid.seen_at))) [
              | inr young ↦ rw (prune_pending_young now u j q expired p pos bid bids found young) (
                  unexpired_keeps now p.ttl (parked_at t h p.pending)
                    λ c there. front_oldest now p.ttl u j t h bid c q p v asc held young there)
              | inl old ↦
                  let r = take_parked u pos bids p in
                  let (taken, _) = take_parked-IsParked u j pos bid bids q p v found in
                  let left = (subst Ascending (waiting_held u j bid q p.pending held) asc).1 in
                  let rest = waiting-take u j pos bid bids q p found single in
                  rw (prune_pending_old now u j q expired p pos bid bids found old) (
                    prune_pending_lem now q (expired + 1) r t h taken once
                      (subst Ascending (sym rest) left)
                    ∙ take-unexpired now t h u j pos bid bids q p taken single found held old)
            ]
      ]
