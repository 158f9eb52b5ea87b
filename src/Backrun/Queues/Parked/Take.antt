-- ===== src/Backrun/Queues/Parked/Take.antt =====
-- Taking a parked bid out (src/backrun.rs): the search for it, and the pool without it.
use magma_sidecar.Prelude.{
  All, All-without, ℕ, suc, ◌+◌, ◌≤◌, ◌≡◌, refl, ap, subst, ◌∙◌, inl, inr, true, false, ◌==◌, none,
  some, List, [], ◌∷◌, ◌++◌, length, length-append, position, position_from, position-split,
  remove_at, arith, Bool-cases, Option-cases, if◌then◌else◌,
}
use magma_sidecar.Prelude.Map
use magma_sidecar.Prelude.Map.{HashMap}
use magma_sidecar.Word.{wrapping_sub_usize}
use magma_sidecar.Backrun.Pool.{PendingPool, PendingBid}
use magma_sidecar.Backrun.Queues.{find_parked, take_parked, is_empty}
use magma_sidecar.Backrun.Queues.Parked.{
  total, count_hash, parked, IsParked, count_hash-append, total-insert, total-remove, parked-insert,
  parked-remove, parked_of_get, Entries-insert, Entries-remove, Entries-get,
}

module _ {Tx : Type 0} where
  pub position-count_hash :
      (i h : ℕ) (bids : List (PendingBid Tx))
      → position_from i (λ b. b.hash == h) bids ≡ none
      → count_hash h bids ≡ 0
  position-count_hash i h [] e = refl
  position-count_hash i h (b ∷ bids) e = elim (Bool-cases (b.hash == h)) [
    | inl same ↦ absurd (ground (arith, same))
    | inr other ↦ ground (arith, other, position-count_hash (suc i) h bids)
  ]

  -- What a successful search finds: the bids of the target, and the bid among them.
  pub find_parked-split :
      (t h : ℕ) (m : HashMap (List (PendingBid Tx))) (pos : ℕ) (bid : PendingBid Tx)
      (bids : List (PendingBid Tx))
      → find_parked t h m ≡ some (pos, bid, bids)
      → (front : List (PendingBid Tx)) × (back : List (PendingBid Tx)) × (Map.get t m ≡ some bids)
        × (bids ≡ front ++ bid ∷ back)
        × (remove_at pos bids ≡ front ++ back)
        × (bid.hash ≡ h)
  unfolding find_parked
  find_parked-split t h m pos bid bids e = elim (Option-cases (Map.get t m)) [
    | inl gone ↦ absurd (ground (arith, gone))
    | inr (others, held) ↦ elim (Option-cases (position (λ b. b.hash == h) others)) [
      | inl missing ↦ absurd (ground (arith, held, missing))
      | inr ((at, found), placed) ↦
          let these : others ≡ bids = ground (arith, held, placed) in
          let place : position (λ b. b.hash == h) bids ≡ some (pos, bid) =
            ground (arith, held, placed) in
          let (front, back, split, taken, passes) =
            position-split (λ b. b.hash == h) bids pos bid place in
          (front, back, rw (← these) held, split, taken, ground (arith, passes))
    ]
  ]

  find_parked-none :
      (t h : ℕ) (m : HashMap (List (PendingBid Tx))) → find_parked t h m ≡ none → parked t h m ≡ 0
  unfolding find_parked
  find_parked-none t h m e = elim (Option-cases (Map.get t m)) [
    | inl gone ↦ rw (parked_of_get t h m, gone)
    | inr (others, held) ↦
        rw (parked_of_get t h m, held) (position-count_hash 0 h others (ground (arith, held)))
  ]

  pub skip-IsParked :
      (t h : ℕ) (queue : List (ℕ × ℕ)) (p : PendingPool Tx)
      → IsParked ((t, h) ∷ queue) p
      → find_parked t h p.pending ≡ none
      → IsParked queue p
  skip-IsParked t h queue p v gone = record {
    distinct = v.distinct;
    entries = v.entries;
    counted = v.counted;
    waiting = λ k j. ground (arith, v.waiting k j, find_parked-none t h p.pending gone);
  }

  pub without-count_hash :
      (j : ℕ) (front back : List (PendingBid Tx)) (bid : PendingBid Tx)
      → count_hash j (front ++ bid ∷ back)
        ≡ count_hash j (front ++ back) + (if bid.hash == j then 1 else 0)
  without-count_hash j front back bid =
      ground (arith, count_hash-append j front back, count_hash-append j front (bid ∷ back))

  pub without-length :
      (front back : List (PendingBid Tx)) (bid : PendingBid Tx)
      → length (front ++ bid ∷ back) ≡ suc (length (front ++ back))
  without-length front back bid =
      omega (arith, length-append front back, length-append front (bid ∷ back))

  -- The pool with the bids of `t` written anew, or its entry removed, once one bid is out.
  module _ (t h : ℕ) (bid : PendingBid Tx) (bids left : List (PendingBid Tx)) (queue : List (ℕ × ℕ))
      (p : PendingPool Tx) (v : IsParked ((t, h) ∷ queue) p)
      (held : Map.get t p.pending ≡ some bids) (named : bid.hash ≡ h)
      (shorter : length bids ≡ suc (length left))
      (counts : (j : ℕ)
        → count_hash j bids ≡ count_hash j left + (if bid.hash == j then 1 else 0)) where
    parked_here : (j : ℕ) → parked t j p.pending ≡ count_hash j bids
    parked_here j = rw (parked_of_get t j p.pending, held) refl

    rewritten-IsParked :
        is_empty left ≡ false
        → All (λ b. b.target ≡ t) left
        → IsParked queue (record p {
          pending = Map.insert t left p.pending;
          pending_count = wrapping_sub_usize p.pending_count 1;
        })
    rewritten-IsParked full good = record {
      distinct = Map.insert-Distinct t left p.pending v.distinct;
      entries = Entries-insert t left p.pending v.entries full good;
      counted = ground (arith, v.counted, shorter, total-insert t bids left p.pending held);
      waiting = λ k j. ground (
        arith,
        v.waiting k j,
        counts j,
        named,
        parked_here j,
        parked-insert t j k left p.pending,
      );
    }

    removed-IsParked :
        left ≡ []
        → IsParked queue (record p {
          pending = Map.remove t p.pending;
          pending_count = wrapping_sub_usize p.pending_count 1;
        })
    removed-IsParked none_left = record {
      distinct = Map.remove-Distinct t p.pending v.distinct;
      entries = Entries-remove t p.pending v.entries;
      counted = ground (
        arith,
        v.counted,
        shorter,
        ap length none_left,
        total-remove t bids p.pending v.distinct held,
      );
      waiting = λ k j. ground (
        arith,
        v.waiting k j,
        counts j,
        named,
        ap (count_hash j) none_left,
        parked_here j,
        parked-remove t j k p.pending,
      );
    }

  pub eq-nil_of_is_empty : (xs : List (PendingBid Tx)) → is_empty xs ≡ true → xs ≡ []
  unfolding is_empty
  eq-nil_of_is_empty [] h = refl
  eq-nil_of_is_empty (x ∷ xs) h = absurd (ground arith)

  pub get-total-le :
      (t : ℕ) (bids : List (PendingBid Tx)) (m : HashMap (List (PendingBid Tx)))
      → Map.get t m ≡ some bids
      → length bids ≤ total m
  get-total-le t bids [] e = absurd (ground arith)
  get-total-le t bids ((t', others) ∷ m) e = ground (arith, get-total-le t bids m)

  -- Taking out the bid that a search found: it leaves the pool once, the count goes down by one
  -- without wrapping, and the invariant holds for the queue without it.
  pub take_parked-IsParked :
      (t h pos : ℕ) (bid : PendingBid Tx) (bids : List (PendingBid Tx)) (queue : List (ℕ × ℕ))
      (p : PendingPool Tx)
      → IsParked ((t, h) ∷ queue) p
      → find_parked t h p.pending ≡ some (pos, bid, bids)
      → IsParked queue (take_parked t pos bids p)
        × ((take_parked t pos bids p).pending_count + 1 ≡ p.pending_count)
  unfolding take_parked
  take_parked-IsParked t h pos bid bids queue p v e =
      let (front, back, held, split, taken, named) =
        find_parked-split t h p.pending pos bid bids e in
      let shorter : length bids ≡ suc (length (front ++ back)) =
        ap length split ∙ without-length front back bid in
      let counts = λ (j : ℕ). ap (count_hash j) split ∙ without-count_hash j front back bid in
      let good : All (λ (b : PendingBid Tx). b.target ≡ t) (front ++ back) =
        All-without _ front bid back (
          subst (λ xs. All (λ (b : PendingBid Tx). b.target ≡ t) xs) split
            (Entries-get t bids p.pending v.entries held)) in
      let room = get-total-le t bids p.pending held in
      (
        elim (Bool-cases (is_empty (front ++ back))) [
          | inl bare ↦
              rw (taken, bare)
                (removed-IsParked t h bid bids (front ++ back) queue p v held named shorter counts
                  (eq-nil_of_is_empty (front ++ back) bare))
          | inr full ↦
              rw (taken, full)
                (rewritten-IsParked t h bid bids (front ++ back) queue p v held named shorter counts
                  full good)
        ],
        ground (arith, room, shorter, v.counted),
      )
