-- ===== src/Backrun/Timely.antt =====
-- The parked bids of src/backrun.rs through any inserts, prunings and removals, and which of them a
-- pruning then drops.
use magma_sidecar.Prelude.{
  ℕ, ◌≤◌, ◌≡◌, inl, inr, List, [], ◌∷◌, All-map, arith, Bool-cases, Option-cases,
}
use magma_sidecar.Prelude.Map
use magma_sidecar.Prelude.Map.{HashMap}
use magma_sidecar.Tx.{TxApi}
use magma_sidecar.Backrun.Pool.{PendingPool, PendingBid}
use magma_sidecar.Backrun.Queues.{insert_cache, prune, prune_cache}
use magma_sidecar.Backrun.Queues.Frames.{SamePending}
use magma_sidecar.Backrun.Queues.Cache.{insert_cache-IsCacheValid}
use magma_sidecar.Backrun.Queues.Expiry.{prune_cache-IsQueued}
use magma_sidecar.Backrun.Queues.Parked.{queued}
use magma_sidecar.Backrun.Queues.Parked.Take.{get-total-le}
use magma_sidecar.Backrun.Queues.Search.{parked_at, parked_at-none, waiting}
use magma_sidecar.Backrun.Queues.Overdue.{unexpired}
use magma_sidecar.Backrun.Queues.Orderly.{IsOrderly, Orderly-Shrinks, prune_pending-IsOrderly}
use magma_sidecar.Backrun.Queues.Orderly.Park.{push_pending-IsOrderly}
use magma_sidecar.Backrun.Queues.Orderly.Forget.{remove-Shrinks, forget-IsOrderly}
use magma_sidecar.Backrun.Observe.{observe_at, observe_other, observe_backrun}
use magma_sidecar.Backrun.Observe.Branches.{
  observe_other_vanilla, observe_other_target, observe_backrun_pooled, observe_backrun_parked,
}
use magma_sidecar.Backrun.Observe.Cases.{observe_at_cases}
use magma_sidecar.Backrun.Invariant.{IsValid, insert_cache-IsValid}
use magma_sidecar.Backrun.Streamed.{
  PoolStep, observed, pruned, forgotten, step, steps, step-IsValid,
}
use magma_sidecar.Backrun.Expire.{prune_expires}

module _ {Tx : Type 0} where
  -- No bid with the hash stands in the queue, not even one that is no longer parked.
  abbrev pub Unqueued : ℕ → PendingPool Tx → Type 0
  Unqueued hash p = (t : ℕ) → queued t hash p.pending_order ≡ 0

  later-IsOrderly :
      (now later : ℕ) (p : PendingPool Tx) → now ≤ later → IsOrderly now p → IsOrderly later p
  later-IsOrderly now later p h o = record {
    once = o.once;
    ascending = o.ascending;
    past =
        All-map (λ (b : PendingBid Tx). b.seen_at ≤ now) (λ (b : PendingBid Tx). b.seen_at ≤ later)
          (waiting p.pending_order p.pending) (λ b k. omega (arith, k, h)) o.past;
  }

  same-IsOrderly :
      (now : ℕ) (p r : PendingPool Tx) → SamePending p r → IsOrderly now p → IsOrderly now r
  same-IsOrderly now p r same o = rw (same.pending_order, same.pending) o

  prune-IsOrderly :
      (now time : ℕ) (p : PendingPool Tx)
      → IsValid p
      → IsOrderly now p
      → IsOrderly now (prune time p).0
  unfolding prune
  prune-IsOrderly now time p v o =
      let q = prune_cache time p.cache_order p in
      let (_, same, _) = prune_cache-IsQueued time p.cache_order p v.cache in
      prune_pending-IsOrderly now time q.pending_order 0 q (same-IsOrderly now p q same o)

  observe_other-IsOrderly :
      (now hash : ℕ) (p : PendingPool Tx)
      → IsValid p
      → IsOrderly now p
      → IsOrderly now (observe_other hash p).0
  observe_other-IsOrderly now hash p v o = elim (Option-cases (Map.get hash p.pending)) [
    | inl gone ↦ rw (observe_other_vanilla hash p gone) o
    | inr (bids, held) ↦
        rw
          (observe_other_target hash bids p held
            (omega (arith, v.parked.counted, get-total-le hash bids p.pending held)))
          (Orderly-Shrinks now p.pending_order p.pending (Map.remove hash p.pending)
            (remove-Shrinks hash p.pending) o)
  ]

  observe_backrun-IsOrderly :
      (now hash : ℕ) (tx : Tx) (target scalar time : ℕ) (p : PendingPool Tx)
      → IsValid p
      → IsOrderly now p
      → now ≤ time
      → Unqueued hash p
      → IsOrderly time (observe_backrun hash tx target scalar time p).0
  observe_backrun-IsOrderly now hash tx target scalar time p v o later new =
      elim (Bool-cases (Map.contains_key target p.cache)) [
        | inl pooled ↦
            rw (observe_backrun_pooled hash tx target scalar time p pooled)
              (later-IsOrderly now time p later o)
        | inr gone ↦
            let bid : PendingBid Tx = record {
              hash = hash;
              tx = tx;
              scalar = scalar;
              target = target;
              seen_at = time;
            } in
            let unparked =
              parked_at-none target hash p.pending
                (omega (arith, v.parked.waiting target hash, new target)) in
            rw (observe_backrun_parked hash tx target scalar time p gone)
              (push_pending-IsOrderly now bid p o later (new target) unparked)
      ]

module _ {Tx : Type 0} (api : TxApi Tx) where
  observe_at-IsOrderly :
      (now hash : ℕ) (tx : Tx) (time : ℕ) (p : PendingPool Tx)
      → IsValid p
      → IsOrderly now p
      → now ≤ time
      → Unqueued hash p
      → IsOrderly time (observe_at api hash tx time p).0
  observe_at-IsOrderly now hash tx time p v o later new =
      let q = insert_cache hash tx time p in
      let (_, _, same) = insert_cache-IsCacheValid hash tx time p v.cache in
      let w = insert_cache-IsValid hash tx time p v in
      let new' : Unqueued hash q = rw same.pending_order new in
      let o' = same-IsOrderly now p q same o in
      let kept = later-IsOrderly now time q later o' in
      observe_at_cases api hash tx time p (λ r. IsOrderly time r.0)
        (λ away. observe_other-IsOrderly time hash q w kept) (λ bound. kept)
        (λ call bound decoded lead. kept)
        (λ call bound decoded follows.
          observe_backrun-IsOrderly now hash tx call.target_tx_hash _ time q w o' later new')

  -- The inserts come at times that never decrease, from `now` on, and no insert has the hash of a bid
  -- that stands in the queue. The prunings may come at any times.
  unfoldable pub Timely : ℕ → List (PoolStep Tx) → PendingPool Tx → Type 0
  Timely now [] p = Unit
  Timely now (observed hash tx time ∷ ss) p =
      (now ≤ time) × Unqueued hash p × Timely time ss (step api (observed hash tx time) p)
  Timely now (pruned time ∷ ss) p = Timely now ss (step api (pruned time) p)
  Timely now (forgotten hash ∷ ss) p = Timely now ss (step api (forgotten hash) p)

  steps-IsOrderly :
      (now : ℕ) (ss : List (PoolStep Tx)) (p : PendingPool Tx)
      → IsValid p
      → IsOrderly now p
      → Timely now ss p
      → (clock : ℕ) × IsValid (steps api ss p) × IsOrderly clock (steps api ss p)
  unfolding steps step Timely
  steps-IsOrderly now [] p v o timely = (now, v, o)
  steps-IsOrderly now (observed hash tx time ∷ ss) p v o (later, new, rest) =
      steps-IsOrderly time ss _ (step-IsValid api 0 (observed hash tx time) p v)
        (observe_at-IsOrderly now hash tx time p v o later new) rest
  steps-IsOrderly now (pruned time ∷ ss) p v o rest =
      steps-IsOrderly now ss _ (step-IsValid api 0 (pruned time) p v)
        (prune-IsOrderly now time p v o) rest
  steps-IsOrderly now (forgotten hash ∷ ss) p v o rest =
      steps-IsOrderly now ss _ (step-IsValid api 0 (forgotten hash) p v)
        (forget-IsOrderly now hash p v.parked o) rest

  -- From a valid pool without parked bids and with an empty queue of them, through any inserts,
  -- prunings and removals, where the inserts come in the order of their times and none has the hash of
  -- a bid that stands in the queue: a pruning at any time then drops exactly the expired bids. Whatever
  -- target and hash are asked for after it, the bid found is the one found before, if its age is below
  -- the time to live, and none otherwise.
  pub steps-prune_expires :
      (ss : List (PoolStep Tx)) (p : PendingPool Tx) (now time t h : ℕ)
      → IsValid p
      → p.pending_order ≡ []
      → Timely now ss p
      → let q = steps api ss p in
        parked_at t h (prune time q).0.pending ≡ unexpired time q.ttl (parked_at t h q.pending)
  steps-prune_expires ss p now time t h v empty timely =
      let start : IsOrderly now p = rw empty (record { once = tt; ascending = tt; past = tt }) in
      let (clock, w, o) = steps-IsOrderly now ss p v start timely in
      prune_expires time (steps api ss p) t h w o.once o.ascending
