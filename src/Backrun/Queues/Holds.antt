-- ===== src/Backrun/Queues/Holds.antt =====
-- Properties of single cached transactions and single parked bids, through caching, parking, pruning
-- and forgetting (src/backrun.rs).
use magma_sidecar.Prelude.{
  ℕ, ◌≡◌, inl, inr, not, some, List, [], ◌∷◌, Bool-cases, Option-cases, All, All-append,
  All-remove_at, position, remove_at, ◌==◌,
}
use magma_sidecar.Prelude.Map
use magma_sidecar.Prelude.Map.{HashMap}
use magma_sidecar.Policy.Config.{PolicyConfig}
use magma_sidecar.Backrun.Pool.{PendingPool, PendingBid, CachedTx}
use magma_sidecar.Backrun.Queues.{
  insert_cache, is_empty, find_parked, take_parked, park, push_pending, prune, prune_cache,
  forget_bid, forget_target, forget_parked, forget,
}
use magma_sidecar.Backrun.Queues.Cache.{uncache}
use magma_sidecar.Backrun.Queues.Induction.{
  insert_cache_keeps, prune_cache_keeps_all, evict_pending_keeps, prune_pending_keeps,
}
use magma_sidecar.Backrun.Queues.Parked.Bid.{forget_bid_found, forget_bid_next}
use magma_sidecar.Backrun.Queues.Parked.Take.{find_parked-split}

-- A pool with this policy and fallback, in which `C` holds of each cached transaction at its hash, and
-- `B` of each parked bid at its target.
pub record Holds {Tx : Type 0} (policy : PolicyConfig) (fallback : ℕ) (C : ℕ → CachedTx Tx → Type 0)
    (B : ℕ → PendingBid Tx → Type 0) (p : PendingPool Tx) : Type 0 where
  pub policy_kept : p.policy ≡ policy
  pub fallback_kept : p.fallback ≡ fallback
  pub cached : Map.Every C p.cache
  pub parked : Map.Every (λ t bids. All (B t) bids) p.pending

module _ {Tx : Type 0} (policy : PolicyConfig) (fallback : ℕ) (C : ℕ → CachedTx Tx → Type 0)
    (B : ℕ → PendingBid Tx → Type 0) where
  abbrev Good : PendingPool Tx → Type 0
  Good p = Holds policy fallback C B p

  abbrev Bids : ℕ → List (PendingBid Tx) → Type 0
  Bids t bids = All (B t) bids

  requeue-Holds : (q : List ℕ) (p : PendingPool Tx) → Good p → Good (record p { cache_order = q })
  requeue-Holds q p f = record {
    policy_kept = f.policy_kept;
    fallback_kept = f.fallback_kept;
    cached = f.cached;
    parked = f.parked;
  }

  reorder-Holds :
      (q : List (ℕ × ℕ)) (p : PendingPool Tx) → Good p → Good (record p { pending_order = q })
  reorder-Holds q p f = record {
    policy_kept = f.policy_kept;
    fallback_kept = f.fallback_kept;
    cached = f.cached;
    parked = f.parked;
  }

  uncache-Holds : (h : ℕ) (p : PendingPool Tx) → Good p → Good (uncache h p)
  uncache-Holds h p f = record {
    policy_kept = f.policy_kept;
    fallback_kept = f.fallback_kept;
    cached = Map.Every-remove _ h p.cache f.cached;
    parked = f.parked;
  }

  pub insert_cache-Holds :
      (hash : ℕ) (tx : Tx) (now : ℕ) (p : PendingPool Tx)
      → C hash (record { tx = tx; seen_at = now })
      → Good p
      → Good (insert_cache hash tx now p)
  insert_cache-Holds hash tx now p a f =
      insert_cache_keeps Good requeue-Holds uncache-Holds hash tx now p (record {
        policy_kept = f.policy_kept;
        fallback_kept = f.fallback_kept;
        cached = Map.Every-insert _ hash _ p.cache a f.cached;
        parked = f.parked;
      })

  take_parked-Holds :
      (t h pos : ℕ) (bid : PendingBid Tx) (bids : List (PendingBid Tx)) (p : PendingPool Tx)
      → find_parked t h p.pending ≡ some (pos, bid, bids)
      → Good p
      → Good (take_parked t pos bids p)
  unfolding take_parked
  take_parked-Holds t h pos bid bids p found f =
      let (_, _, held, _, _, _) = find_parked-split t h p.pending pos bid bids found in
      let left = All-remove_at _ pos bids (Map.Every-get Bids t bids p.pending f.parked held) in
      record {
        policy_kept = f.policy_kept;
        fallback_kept = f.fallback_kept;
        cached = f.cached;
        parked = elim (Bool-cases (is_empty (remove_at pos bids))) [
          | inl bare ↦ rw bare (Map.Every-remove Bids t p.pending f.parked)
          | inr full ↦
              rw full (Map.Every-insert Bids t (remove_at pos bids) p.pending left f.parked)
        ];
      }

  park-Holds :
      (bid : PendingBid Tx) (p : PendingPool Tx) → B bid.target bid → Good p → Good (park bid p)
  unfolding park
  park-Holds bid p good f = record {
    policy_kept = f.policy_kept;
    fallback_kept = f.fallback_kept;
    cached = f.cached;
    parked = elim (Option-cases (Map.get bid.target p.pending)) [
      | inl gone ↦
          rw gone (Map.Every-insert Bids bid.target (bid ∷ []) p.pending (good, tt) f.parked)
      | inr (bids, held) ↦
          let more =
            All-append _ bids (bid ∷ [])
              (Map.Every-get Bids bid.target bids p.pending f.parked held) (good, tt) in
          rw held (Map.Every-insert Bids bid.target _ p.pending more f.parked)
    ];
  }

  pub push_pending-Holds :
      (bid : PendingBid Tx) (p : PendingPool Tx)
      → B bid.target bid
      → Good p
      → Good (push_pending bid p).0
  unfolding push_pending
  push_pending-Holds bid p good f =
      evict_pending_keeps Good reorder-Holds take_parked-Holds (park bid p).pending_order 0
        (park bid p) (park-Holds bid p good f)

  pub prune-Holds : (now : ℕ) (p : PendingPool Tx) → Good p → Good (prune now p).0
  unfolding prune
  prune-Holds now p f =
      let pruned = prune_cache now p.cache_order p in
      prune_pending_keeps Good reorder-Holds take_parked-Holds now pruned.pending_order 0 pruned
        (prune_cache_keeps_all Good requeue-Holds uncache-Holds now p.cache_order p f)

  forget_bid-Every :
      (h : ℕ) (m : HashMap (List (PendingBid Tx)))
      → Map.Every Bids m
      → Map.Every Bids (forget_bid h m).0
  unfolding forget_bid
  forget_bid-Every h [] e = tt
  forget_bid-Every h ((t, bids) ∷ m) e =
      elim (Option-cases (position (λ (b : PendingBid Tx). b.hash == h) bids)) [
        | inl missing ↦ rw (forget_bid_next h t bids m missing) (e.0, forget_bid-Every h m e.1)
        | inr ((pos, b), found) ↦
            rw (forget_bid_found h t pos b bids m found) (All-remove_at _ pos bids e.0, e.1)
      ]

  forget_target-Holds : (h : ℕ) (p : PendingPool Tx) → Good p → Good (forget_target h p)
  unfolding forget_target
  forget_target-Holds h p f = elim (Option-cases (Map.get h p.pending)) [
    | inl gone ↦ rw (gone, forget_target) f
    | inr (bids, held) ↦
        rw (held, forget_target)
          (record {
            policy_kept = f.policy_kept;
            fallback_kept = f.fallback_kept;
            cached = f.cached;
            parked = Map.Every-remove Bids h p.pending f.parked;
          })
  ]

  pub forget-Holds : (h : ℕ) (p : PendingPool Tx) → Good p → Good (forget h p)
  unfolding forget forget_parked
  forget-Holds h p f =
      let left = forget_target-Holds h (uncache h p) (uncache-Holds h p f) in
      record {
        policy_kept = left.policy_kept;
        fallback_kept = left.fallback_kept;
        cached = left.cached;
        parked =
            Map.Every-retain Bids (λ e. not (is_empty e.1)) _ (forget_bid-Every h _ left.parked);
      }
