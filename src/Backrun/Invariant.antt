-- ===== src/Backrun/Invariant.antt =====
-- The invariant of `PendingPool` (src/backrun.rs) and its operations.
use magma_sidecar.Prelude.{
  ℕ, ◌+◌, ◌≤◌, ◌<◌, ◌≡◌, refl, ap, sym, ◌∙◌, subst, inl, inr, true, length, contains, arith,
  Bool-cases, Option-cases,
}
use magma_sidecar.Prelude.Map
use magma_sidecar.Tx.{TxApi}
use magma_sidecar.Policy.Config.{PolicyConfig}
use magma_sidecar.Backrun.Pool.{PendingPool, PendingBid, new_pool}
use magma_sidecar.Backrun.Queues.{
  insert_cache, push_pending, prune, prune_cache, prune_pending, forget,
}
use magma_sidecar.Backrun.Queues.Frames.{SamePending, SameCache, SameLimits}
use magma_sidecar.Backrun.Queues.Cache.{IsCacheValid, insert_cache-IsCacheValid}
use magma_sidecar.Backrun.Queues.Expiry.{prune_cache-IsQueued}
use magma_sidecar.Backrun.Queues.Parked.{
  Entries, total, total-remove, parked-remove, Entries-remove,
}
use magma_sidecar.Backrun.Queues.Parked.Forget.{forget-IsParkedValid}
use magma_sidecar.Backrun.Queues.Evict.{IsParkedValid, push_pending-IsParkedValid}
use magma_sidecar.Backrun.Queues.ExpireParked.{prune_pending-Drops}
use magma_sidecar.Backrun.Queues.Parked.Take.{get-total-le}
use magma_sidecar.Backrun.Observe.{observe_other, observe_backrun, observe_at}
use magma_sidecar.Backrun.Observe.Branches.{
  streamed_with, observe_other_vanilla, observe_other_target, observe_backrun_pooled,
  observe_backrun_parked,
}
use magma_sidecar.Backrun.Observe.Cases.{observe_at_cases}

pub record IsValid {Tx : Type 0} (p : PendingPool Tx) : Type 0 where
  pub cache : IsCacheValid p
  pub parked : IsParkedValid p
  pub cache_bounded : length p.cache ≤ p.max_cache_entries
  pub pending_bounded : p.pending_count ≤ p.max_pending_entries

module _ {Tx : Type 0} where
  -- A new pool satisfies the invariant, whatever its parameters, and has capacity for an entry of
  -- either kind.
  pub new_pool-IsValid :
      (policy : PolicyConfig) (fallback ttl max_cache max_pending : ℕ)
      → let p = new_pool {Tx = Tx} policy fallback ttl max_cache max_pending in
        IsValid p × (0 < p.max_cache_entries) × (0 < p.max_pending_entries)
  unfolding new_pool
  new_pool-IsValid policy fallback ttl max_cache max_pending = (
    record {
      cache = record {
        queued = λ h c. absurd (ground arith);
        streamed = λ h c. absurd (ground arith);
      };
      parked = record { distinct = tt; entries = tt; counted = refl; waiting = λ t h. omega arith };
      cache_bounded = omega arith;
      pending_bounded = omega arith;
    },
    omega arith,
    omega arith,
  )

  -- The parked half of the invariant reads only the parked bids, and the cached half the rest.
  pub move-IsParked : (p r : PendingPool Tx) → SamePending p r → IsParkedValid p → IsParkedValid r
  move-IsParked p r same v = record {
    distinct = subst Map.Distinct (sym same.pending) v.distinct;
    entries = subst Entries (sym same.pending) v.entries;
    counted = same.pending_count ∙ v.counted ∙ ap total (sym same.pending);
    waiting = λ t h. rw (same.pending, same.pending_order) (v.waiting t h);
  }

  move-IsQueued : (p r : PendingPool Tx) → SameCache p r → IsCacheValid p → IsCacheValid r
  move-IsQueued p r same v = record {
    queued = λ h. rw (same.cache, same.cache_order) (v.queued h);
    streamed = λ h. rw (same.cache, same.streamed_targets) (v.streamed h);
  }

  -- From a valid pool, pruning at any time gives a valid pool, and the number that it returns is
  -- the number of parked bids that the count went down by.
  pub prune-IsValid :
      (now : ℕ) (p : PendingPool Tx)
      → IsValid p
      → IsValid (prune now p).0
        × ((prune now p).0.pending_count + (prune now p).1 ≡ p.pending_count)
  unfolding prune
  prune-IsValid now p v =
      let q = prune_cache now p.cache_order p in
      let (cached, same, fewer) = prune_cache-IsQueued now p.cache_order p v.cache in
      let d = prune_pending-Drops now q.pending_order 0 q (move-IsParked p q same v.parked) in
      let r = (prune_pending now q.pending_order 0 q).0 in
      (
        record {
          cache = move-IsQueued q r d.same cached;
          parked = d.valid;
          cache_bounded = ground (arith, d.same, same, v.cache_bounded, fewer);
          pending_bounded = ground (arith, d.same, same, d.counted, v.pending_bounded);
        },
        omega (arith, d.counted, same.pending_count),
      )

  -- Pruning leaves the parameters alone.
  pub prune-SameLimits : (now : ℕ) (p : PendingPool Tx) → IsValid p → SameLimits p (prune now p).0
  unfolding prune
  prune-SameLimits now p v =
      let q = prune_cache now p.cache_order p in
      let (cached, same, fewer) = prune_cache-IsQueued now p.cache_order p v.cache in
      let d = prune_pending-Drops now q.pending_order 0 q (move-IsParked p q same v.parked) in
      record {
        policy = d.same.policy ∙ same.policy;
        fallback = d.same.fallback ∙ same.fallback;
        ttl = d.same.ttl ∙ same.ttl;
        max_cache_entries = d.same.max_cache_entries ∙ same.max_cache_entries;
        max_pending_entries = d.same.max_pending_entries ∙ same.max_pending_entries;
      }

  -- Forgetting keeps the invariant.
  pub forget-IsValid : (h : ℕ) (p : PendingPool Tx) → IsValid p → IsValid (forget h p)
  forget-IsValid h p v =
      let (cached, parked, _, _, _, _, _, less, capacities, fewer) =
        forget-IsParkedValid h p v.cache v.parked in
      record {
        cache = cached;
        parked = parked;
        cache_bounded = omega (arith, fewer, v.cache_bounded, capacities.0);
        pending_bounded = omega (arith, less, v.pending_bounded, capacities.1);
      }

  streamed_with_cached :
      (t h : ℕ) (p : PendingPool Tx)
      → IsCacheValid p
      → contains h (streamed_with t p) ≡ true
      → Map.contains_key h p.cache ≡ true
  unfolding streamed_with
  streamed_with_cached t h p v s = elim (Option-cases (Map.get t p.cache)) [
    | inl gone ↦ ground (arith, gone, v.streamed h)
    | inr (cached, held) ↦
        ground (arith, held, v.streamed h, Map.contains_key_of_get t cached p.cache held)
  ]

  observe_other-IsValid : (h : ℕ) (p : PendingPool Tx) → IsValid p → IsValid (observe_other h p).0
  observe_other-IsValid h p v = elim (Option-cases (Map.get h p.pending)) [
    | inl gone ↦ rw (observe_other_vanilla h p gone) v
    | inr (bids, held) ↦
        let few = get-total-le h bids p.pending held in
        rw (observe_other_target h bids p held (omega (arith, v.parked.counted, few))) (record {
          cache = record {
            queued = v.cache.queued;
            streamed = λ k s. streamed_with_cached h k p v.cache s;
          };
          parked = record {
            distinct = Map.remove-Distinct h p.pending v.parked.distinct;
            entries = Entries-remove h p.pending v.parked.entries;
            counted =
                omega
                  (arith, v.parked.counted, total-remove h bids p.pending v.parked.distinct held);
            waiting = λ k j. ground (arith, v.parked.waiting k j, parked-remove h j k p.pending);
          };
          cache_bounded = v.cache_bounded;
          pending_bounded = omega (arith, v.pending_bounded);
        })
  ]

  push_pending-IsValid :
      (bid : PendingBid Tx) (p : PendingPool Tx) → IsValid p → IsValid (push_pending bid p).0
  push_pending-IsValid bid p v =
      let (parked, room, counted, same) = push_pending-IsParkedValid bid p v.parked in
      record {
        cache = move-IsQueued p (push_pending bid p).0 same v.cache;
        parked = parked;
        cache_bounded = rw (same.cache, same.max_cache_entries) v.cache_bounded;
        pending_bounded = omega (arith, room, same.max_pending_entries);
      }

  observe_backrun-IsValid :
      (hash : ℕ) (tx : Tx) (target scalar now : ℕ) (p : PendingPool Tx)
      → IsValid p
      → IsValid (observe_backrun hash tx target scalar now p).0
  observe_backrun-IsValid hash tx target scalar now p v =
      elim (Bool-cases (Map.contains_key target p.cache)) [
        | inl pooled ↦ rw (observe_backrun_pooled hash tx target scalar now p pooled) (record {
          cache = record {
            queued = v.cache.queued;
            streamed = λ k s. streamed_with_cached target k p v.cache s;
          };
          parked = record {
            distinct = v.parked.distinct;
            entries = v.parked.entries;
            counted = v.parked.counted;
            waiting = v.parked.waiting;
          };
          cache_bounded = v.cache_bounded;
          pending_bounded = v.pending_bounded;
        })
        | inr gone ↦ rw (observe_backrun_parked hash tx target scalar now p gone) (
            push_pending-IsValid
              (record { hash = hash; tx = tx; scalar = scalar; target = target; seen_at = now }) p
              v)
      ]

  pub insert_cache-IsValid :
      (hash : ℕ) (tx : Tx) (now : ℕ) (p : PendingPool Tx)
      → IsValid p
      → IsValid (insert_cache hash tx now p)
  insert_cache-IsValid hash tx now p v =
      let (cached, room, same) = insert_cache-IsCacheValid hash tx now p v.cache in
      record {
        cache = cached;
        parked = move-IsParked p (insert_cache hash tx now p) same v.parked;
        cache_bounded = omega (arith, room, same.max_cache_entries);
        pending_bounded =
            omega (arith, same.pending_count, same.max_pending_entries, v.pending_bounded);
      }

  -- From a valid pool, observing an inserted transaction gives a valid pool on every branch: the
  -- count of parked bids is right, every parked bid and cached transaction is queued for
  -- eviction, every streamed target is cached, and both capacities hold.
  pub observe_at-IsValid :
      (api : TxApi Tx) (hash : ℕ) (tx : Tx) (now : ℕ) (p : PendingPool Tx)
      → IsValid p
      → IsValid (observe_at api hash tx now p).0
  observe_at-IsValid api hash tx now p v =
      let cached = insert_cache-IsValid hash tx now p v in
      observe_at_cases api hash tx now p (λ r. IsValid r.0)
        (λ away. observe_other-IsValid hash (insert_cache hash tx now p) cached) (λ bound. cached)
        (λ call bound decoded lead. cached)
        (λ call bound decoded follows.
          observe_backrun-IsValid hash tx call.target_tx_hash _ now (insert_cache hash tx now p)
            cached)
