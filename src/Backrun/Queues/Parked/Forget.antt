-- ===== src/Backrun/Queues/Parked/Forget.antt =====
-- `forget` (src/backrun.rs) of a transaction that left the node's pool.
use magma_sidecar.Prelude.{
  ℕ, ◌-◌, ◌≤◌, ◌≡◌, ◌≢◌, ◌⊎◌, ◌==◌, ==_iff, refl, sym, ap, ◌∙◌, inl, inr, false, Bool-cases, none,
  some, List, length, arith, Option-cases, contains, subst,
}
use magma_sidecar.Prelude.Map
use magma_sidecar.Prelude.Set
use magma_sidecar.Prelude.Map.{HashMap}
use magma_sidecar.Word.{wrapping_sub_usize}
use magma_sidecar.Backrun.Pool.{PendingPool, PendingBid}
use magma_sidecar.Backrun.Queues.{forget, forget_bid, forget_target, forget_parked}
use magma_sidecar.Backrun.Queues.Frames.{SameCache}
use magma_sidecar.Backrun.Queues.Cache.{IsCacheValid, uncache}
use magma_sidecar.Backrun.Queues.Parked.{
  IsParked, parked, total-remove, parked-remove, Entries-remove,
}
use magma_sidecar.Backrun.Queues.Parked.Take.{get-total-le}
use magma_sidecar.Backrun.Queues.Parked.Bid.{
  copies, Targets-Entries, forget_bid-Forgets, occupied-total, occupied-copies, occupied-Entries,
  occupied-Distinct, occupied-parked, occupied_absent,
}

module _ {Tx : Type 0} where
  forget_target_hit :
      (h : ℕ) (bids : List (PendingBid Tx)) (p : PendingPool Tx)
      → Map.get h p.pending ≡ some bids
      → forget_target h p ≡ record p {
        pending = Map.remove h p.pending;
        pending_count = wrapping_sub_usize p.pending_count (length bids);
      }
  unfolding forget_target
  forget_target_hit h bids p held = rw (held, forget_target)

  forget_target_miss :
      (h : ℕ) (p : PendingPool Tx) → Map.get h p.pending ≡ none → forget_target h p ≡ p
  unfolding forget_target
  forget_target_miss h p gone = rw (gone, forget_target)

  pub forget_target-SameCache :
      (h : ℕ) (p : PendingPool Tx)
      → SameCache p (forget_target h p) × ((forget_target h p).pending_order ≡ p.pending_order)
  unfolding forget_target
  forget_target-SameCache h p = ground arith

  -- The entry of the hash goes, with its bids.
  pub forget_target-IsParked :
      (h : ℕ) (queue : List (ℕ × ℕ)) (p : PendingPool Tx)
      → IsParked queue p
      → IsParked queue (forget_target h p)
        × ((forget_target h p).pending ≡ Map.remove h p.pending)
        × ((forget_target h p).pending_count ≤ p.pending_count)
  forget_target-IsParked h queue p v = elim (Option-cases (Map.get h p.pending)) [
    | inl gone ↦
        rw (forget_target_miss h p gone)
          (v, ground (arith, Map.remove_absent h p.pending gone), omega arith)
    | inr (bids, held) ↦ rw (forget_target_hit h bids p held) (
      record {
        distinct = Map.remove-Distinct h p.pending v.distinct;
        entries = Entries-remove h p.pending v.entries;
        counted = ground (arith, v.counted, total-remove h bids p.pending v.distinct held);
        waiting = λ k j. ground (arith, v.waiting k j, parked-remove h j k p.pending);
      },
      refl,
      ground (arith, v.counted, get-total-le h bids p.pending held),
    )
  ]

  -- One copy of the bid goes.
  forget_parked-IsParked :
      (h : ℕ) (queue : List (ℕ × ℕ)) (p : PendingPool Tx)
      → IsParked queue p
      → IsParked queue (forget_parked h p)
        × (copies h (forget_parked h p).pending ≡ copies h p.pending - 1)
        × ((forget_parked h p).pending_count ≤ p.pending_count)
        × ((k : ℕ) → Map.get k p.pending ≡ none → Map.get k (forget_parked h p).pending ≡ none)
        × ((k j : ℕ) → j ≢ h → parked k j (forget_parked h p).pending ≡ parked k j p.pending)
  unfolding forget_parked
  forget_parked-IsParked h queue p v =
      let f = forget_bid-Forgets h p.pending (Targets-Entries p.pending v.entries) v.distinct in
      let left = (forget_bid h p.pending).0 in
      (
        record {
          distinct = occupied-Distinct left f.distinct;
          entries = occupied-Entries left f.targets;
          counted = ground (arith, v.counted, f.counted, occupied-total left);
          waiting =
              λ k j. omega (arith, v.waiting k j, f.fewer k j, occupied-parked k j left f.distinct);
        },
        ground (arith, occupied-copies h left, f.lost, f.at_most_one),
        ground (arith, v.counted, f.counted),
        λ k gone. occupied_absent k left (f.absent k gone),
        λ k j other. occupied-parked k j left f.distinct ∙ f.others k j other,
      )

  parked-remove_other :
      (h k j : ℕ) (m : HashMap (List (PendingBid Tx)))
      → k ≢ h
      → parked k j (Map.remove h m) ≡ parked k j m
  parked-remove_other h k j m other = ground (arith, other, parked-remove h j k m)

  -- From a pool whose cache and parked bids are well formed, forgetting a hash keeps both so.
  -- After it the hash is neither cached nor streamed, and no bid is parked under it as a target; of
  -- the bids with that hash that are parked under other targets exactly one goes, if there is any,
  -- and every other bid under another target stays parked. Neither the count of parked bids, the
  -- capacities nor the size of the cache grow.
  pub forget-IsParkedValid :
      (h : ℕ) (p : PendingPool Tx)
      → IsCacheValid p
      → IsParked p.pending_order p
      → IsCacheValid (forget h p)
        × IsParked (forget h p).pending_order (forget h p)
        × (Map.contains_key h (forget h p).cache ≡ false)
        × (contains h (forget h p).streamed_targets ≡ false)
        × (Map.get h (forget h p).pending ≡ none)
        × ((k j : ℕ)
            → (k ≡ h) ⊎ ((j ≡ h) ⊎ (parked k j (forget h p).pending ≡ parked k j p.pending)))
        × (copies h (forget h p).pending ≡ copies h (Map.remove h p.pending) - 1)
        × ((forget h p).pending_count ≤ p.pending_count)
        × (((forget h p).max_cache_entries ≡ p.max_cache_entries)
            × ((forget h p).max_pending_entries ≡ p.max_pending_entries))
        × (length (forget h p).cache ≤ length p.cache)
  unfolding forget forget_parked
  forget-IsParkedValid h p c v =
      let q = uncache h p in
      let kept : IsParked p.pending_order q = record {
        distinct = v.distinct;
        entries = v.entries;
        counted = v.counted;
        waiting = v.waiting;
      } in
      let (same, order) = forget_target-SameCache h q in
      let (without, removed, less) = forget_target-IsParked h p.pending_order q kept in
      let (parked_left, fewer, still_less, absent, others) =
        forget_parked-IsParked h p.pending_order (forget_target h q) without in
      (
        record {
          queued = λ k held. ground (
            arith,
            same.cache,
            same.cache_order,
            c.queued k,
            Map.contains_key-remove h k p.cache,
          );
          streamed = λ k held. ground (
            arith,
            same.cache,
            same.streamed_targets,
            c.streamed k,
            Map.contains_key-remove h k p.cache,
            Set.contains-remove h k p.streamed_targets,
          );
        },
        subst (λ queue. IsParked queue (forget_parked h (forget_target h q))) (sym order)
            parked_left,
        ground (arith, same.cache, Map.contains_key-remove h h p.cache),
        ground (arith, same.streamed_targets, Set.contains-remove h h p.streamed_targets),
        absent h (ap (Map.get h) removed ∙ ground (arith, Map.get-remove h h p.pending)),
        λ k j. elim (Bool-cases (k == h)) [
          | inl target ↦ inl ((==_iff k h).0 target)
          | inr elsewhere ↦ elim (Bool-cases (j == h)) [
            | inl bid ↦ inr (inl ((==_iff j h).0 bid))
            | inr other ↦ inr (
                inr (
                  others k j (ground (arith, other))
                  ∙ ap (parked k j) removed
                  ∙ parked-remove_other h k j p.pending (ground (arith, elsewhere))))
          ]
        ],
        fewer ∙ ap (λ m. copies h m - 1) removed,
        omega (arith, less, still_less),
        (same.max_cache_entries, same.max_pending_entries),
        ground (arith, same.cache, Map.length-remove-le h p.cache),
      )
