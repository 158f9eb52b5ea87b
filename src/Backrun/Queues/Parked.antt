-- ===== src/Backrun/Queues/Parked.antt =====
-- The invariant of the parked bids (src/backrun.rs): the count, the entries and the queue.
use mathlib.Core.Path.{subst₂}
pub mod Take
pub mod Park
pub mod Bid
pub mod Forget
use magma_sidecar.Prelude.{
  All, ℕ, suc, ◌+◌, ◌-◌, ◌≤◌, ◌<◌, ◌≡◌, ◌≢◌, refl, ap, subst, ◌∙◌, inl, inr, true, false, ◌==◌, ltb,
  leb, none, some, List, [], ◌∷◌, ◌++◌, length, length-append, position, position_from,
  position-split, remove_at, arith, Bool-cases, Option-cases, if◌then◌else◌, Option, Bool, ◌&&◌,
  ◌⊎◌,
}
use magma_sidecar.Prelude.Map
use magma_sidecar.Prelude.Map.{HashMap}
use magma_sidecar.Word.{wrapping_sub_usize}
use magma_sidecar.Backrun.Pool.{PendingPool, PendingBid}
use magma_sidecar.Backrun.Queues.{find_parked, take_parked, is_empty}

-- How often a pair stands in the queue.
abbrev pub queued : ℕ → ℕ → List (ℕ × ℕ) → ℕ
queued t h [] = 0
queued t h ((t', h') ∷ q) = if t' == t && h' == h then suc (queued t h q) else queued t h q

pub queued-append :
    (t h : ℕ) (q r : List (ℕ × ℕ)) → queued t h (q ++ r) ≡ queued t h q + queued t h r
queued-append t h [] r = omega arith
queued-append t h ((t', h') ∷ q) r = ground (arith, queued-append t h q r)

module _ {Tx : Type 0} where
  -- How many bids are parked.
  abbrev pub total : HashMap (List (PendingBid Tx)) → ℕ
  total [] = 0
  total ((t, bids) ∷ m) = length bids + total m

  -- How many bids of a list have the hash.
  abbrev pub count_hash : ℕ → List (PendingBid Tx) → ℕ
  count_hash h [] = 0
  count_hash h (b ∷ bids) = if b.hash == h then suc (count_hash h bids) else count_hash h bids

  -- How often the bid is parked under the target.
  abbrev pub parked : ℕ → ℕ → HashMap (List (PendingBid Tx)) → ℕ
  parked t h [] = 0
  parked t h ((t', bids) ∷ m) = if t' == t then count_hash h bids else parked t h m

  -- Every entry holds bids of its own target, and at least one.
  abbrev pub Entries : HashMap (List (PendingBid Tx)) → Type 0
  Entries [] = Unit {0}
  Entries ((t, bids) ∷ m) = (is_empty bids ≡ false) × All (λ b. b.target ≡ t) bids × Entries m

  pub record IsParked (queue : List (ℕ × ℕ)) (p : PendingPool Tx) : Type 0 where
    pub distinct : Map.Distinct p.pending
    pub entries : Entries p.pending
    pub counted : p.pending_count ≡ total p.pending
    pub waiting : (t h : ℕ) → parked t h p.pending ≤ queued t h queue

  count_hash-append :
      (h : ℕ) (xs ys : List (PendingBid Tx))
      → count_hash h (xs ++ ys) ≡ count_hash h xs + count_hash h ys
  count_hash-append h [] ys = omega arith
  count_hash-append h (x ∷ xs) ys = ground (arith, count_hash-append h xs ys)

  -- A written entry, and a removed one.
  total-insert :
      (t : ℕ) (old new : List (PendingBid Tx)) (m : HashMap (List (PendingBid Tx)))
      → Map.get t m ≡ some old
      → total (Map.insert t new m) + length old ≡ total m + length new
  total-insert t old new [] h = absurd (ground arith)
  total-insert t old new ((t', bids) ∷ m) h = ground (arith, total-insert t old new m)

  total-insert_new :
      (t : ℕ) (new : List (PendingBid Tx)) (m : HashMap (List (PendingBid Tx)))
      → Map.get t m ≡ none
      → total (Map.insert t new m) ≡ total m + length new
  total-insert_new t new [] h = omega arith
  total-insert_new t new ((t', bids) ∷ m) h = ground (arith, total-insert_new t new m)

  pub total-remove :
      (t : ℕ) (old : List (PendingBid Tx)) (m : HashMap (List (PendingBid Tx)))
      → Map.Distinct m
      → Map.get t m ≡ some old
      → total (Map.remove t m) + length old ≡ total m
  total-remove t old [] d h = absurd (ground arith)
  total-remove t old ((t', bids) ∷ m) d h = elim (Bool-cases (t' == t)) [
    | inl same ↦ ground (arith, same, Map.remove_absent t m)
    | inr other ↦ ground (arith, other, total-remove t old m d.1)
  ]

  parked-insert :
      (t h k : ℕ) (new : List (PendingBid Tx)) (m : HashMap (List (PendingBid Tx)))
      → parked k h (Map.insert t new m) ≡ (if t == k then count_hash h new else parked k h m)
  parked-insert t h k new [] = refl
  parked-insert t h k new ((t', bids) ∷ m) = ground (arith, parked-insert t h k new m)

  pub parked-remove :
      (t h k : ℕ) (m : HashMap (List (PendingBid Tx)))
      → parked k h (Map.remove t m) ≡ (if t == k then 0 else parked k h m)
  parked-remove t h k [] = ground arith
  parked-remove t h k ((t', bids) ∷ m) = ground (arith, parked-remove t h k m)

  pub parked_of_get :
      (t h : ℕ) (m : HashMap (List (PendingBid Tx)))
      → parked t h m ≡ elim (Map.get t m) [ none ↦ 0 | some bids ↦ count_hash h bids ]
  parked_of_get t h [] = refl
  parked_of_get t h ((t', bids) ∷ m) = ground (arith, parked_of_get t h m)

  Entries-insert :
      (t : ℕ) (new : List (PendingBid Tx)) (m : HashMap (List (PendingBid Tx)))
      → Entries m
      → is_empty new ≡ false
      → All (λ b. b.target ≡ t) new
      → Entries (Map.insert t new m)
  Entries-insert t new [] e full good = (full, good, tt)
  Entries-insert t new ((t', bids) ∷ m) e full good =
      ground (arith, Entries-insert t new m e.2 full good)

  pub Entries-remove :
      (t : ℕ) (m : HashMap (List (PendingBid Tx))) → Entries m → Entries (Map.remove t m)
  Entries-remove t [] e = tt
  Entries-remove t ((t', bids) ∷ m) e = ground (arith, Entries-remove t m e.2)

  Entries-get :
      (t : ℕ) (bids : List (PendingBid Tx)) (m : HashMap (List (PendingBid Tx)))
      → Entries m
      → Map.get t m ≡ some bids
      → All (λ b. b.target ≡ t) bids
  Entries-get t bids [] e h = absurd (ground arith)
  Entries-get t bids ((t', others) ∷ m) e h = elim (Bool-cases (t' == t)) [
    | inl same ↦
        let here : t' ≡ t = ground (arith, same) in
        let these : others ≡ bids = ground (arith, same) in
        subst₂ (λ u xs. All (λ (b : PendingBid Tx). b.target ≡ u) xs) here these e.1
    | inr other ↦ Entries-get t bids m e.2 (ground (arith, other))
  ]

  pub Entries-full :
      (t : ℕ) (bids : List (PendingBid Tx)) (m : HashMap (List (PendingBid Tx)))
      → Entries m
      → Map.get t m ≡ some bids
      → is_empty bids ≡ false
  Entries-full t bids [] e h = absurd (ground arith)
  Entries-full t bids ((t', others) ∷ m) e h = elim (Bool-cases (t' == t)) [
    | inl same ↦ let these : others ≡ bids = ground (arith, same) in rw (← these) e.0
    | inr other ↦ Entries-full t bids m e.2 (ground (arith, other))
  ]
