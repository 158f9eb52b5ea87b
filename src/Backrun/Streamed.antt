-- ===== src/Backrun/Streamed.antt =====
-- How long src/backrun.rs remembers that a target was streamed.
use magma_sidecar.Prelude.{
  ℕ, ◌≡◌, refl, inl, inr, true, List, [], ◌∷◌, contains, arith, Bool-cases, Option-cases,
}
use magma_sidecar.Prelude.Map
use magma_sidecar.Prelude.Set
use magma_sidecar.Tx.{TxApi}
use magma_sidecar.Backrun.Pool.{PendingPool, PendingBid, ObserveResult}
use magma_sidecar.Backrun.Queues.{
  insert_cache, prune, prune_cache, take_parked, forget, forget_parked,
}
use magma_sidecar.Backrun.Queues.Cache.{uncache}
use magma_sidecar.Backrun.Queues.Evict.{push_pending-IsParkedValid}
use magma_sidecar.Backrun.Queues.Induction.{
  insert_cache_keeps, prune_cache_keeps_all, prune_pending_keeps,
}
use magma_sidecar.Backrun.Queues.Parked.Forget.{forget_target-SameCache}
use magma_sidecar.Backrun.Queues.Parked.Take.{get-total-le}
use magma_sidecar.Backrun.Invariant.{
  IsValid, insert_cache-IsValid, observe_at-IsValid, prune-IsValid, forget-IsValid,
}
use magma_sidecar.Backrun.Observe.{
  observe_at, observe_other, observe_backrun, emit_opportunity_once,
}
use magma_sidecar.Backrun.Observe.Branches.{
  streamed_with, observe_other_vanilla, observe_other_target, observe_backrun_pooled,
  observe_backrun_parked,
}
use magma_sidecar.Backrun.Observe.Cases.{observe_at_cases}

-- What the loop does to the pool.
pub data PoolStep (Tx : Type 0) : Type 0 where
  observed : ℕ → Tx → ℕ → PoolStep Tx
  pruned : ℕ → PoolStep Tx
  forgotten : ℕ → PoolStep Tx

module _ {Tx : Type 0} (api : TxApi Tx) where
  unfoldable pub step : PoolStep Tx → PendingPool Tx → PendingPool Tx
  step (observed hash tx now) p = (observe_at api hash tx now p).0
  step (pruned now) p = (prune now p).0
  step (forgotten hash) p = forget hash p

  unfoldable pub steps : List (PoolStep Tx) → PendingPool Tx → PendingPool Tx
  steps [] p = p
  steps (s ∷ ss) p = steps ss (step s p)

  -- The target is cached after each step.
  unfoldable pub StaysCached : ℕ → List (PoolStep Tx) → PendingPool Tx → Type 0
  StaysCached t [] p = Unit
  StaysCached t (s ∷ ss) p =
      (Map.contains_key t (step s p).cache ≡ true) × StaysCached t ss (step s p)

module _ {Tx : Type 0} (t : ℕ) where
  -- The target, if it is cached, is marked as streamed.
  abbrev Marked : PendingPool Tx → Type 0
  Marked p = Map.contains_key t p.cache ≡ true → contains t p.streamed_targets ≡ true

  uncache-Marked : (h : ℕ) (p : PendingPool Tx) → Marked p → Marked (uncache h p)
  uncache-Marked h p m held = ground (
    arith,
    m,
    held,
    Map.contains_key-remove h t p.cache,
    Set.contains-remove h t p.streamed_targets,
  )

  insert_cache-Marked :
      (hash : ℕ) (tx : Tx) (now : ℕ) (p : PendingPool Tx)
      → contains t p.streamed_targets ≡ true
      → Marked (insert_cache hash tx now p)
  insert_cache-Marked hash tx now p marked =
      insert_cache_keeps Marked (λ q p m. m) uncache-Marked hash tx now p (λ held. marked)

  prune-Marked : (now : ℕ) (p : PendingPool Tx) → Marked p → Marked (prune now p).0
  unfolding prune take_parked
  prune-Marked now p m =
      let q = prune_cache now p.cache_order p in
      prune_pending_keeps Marked (λ q p m. m) (λ u h pos bid bids p found m. m) now q.pending_order
        0 q (prune_cache_keeps_all Marked (λ q p m. m) uncache-Marked now p.cache_order p m)

  forget-Marked : (h : ℕ) (p : PendingPool Tx) → Marked p → Marked (forget h p)
  unfolding forget forget_parked
  forget-Marked h p m held =
      let (same, _) = forget_target-SameCache h (uncache h p) in
      rw same.streamed_targets (uncache-Marked h p m (rw same.cache at held))

  streamed_with_keeps :
      (h : ℕ) (p : PendingPool Tx)
      → contains t p.streamed_targets ≡ true
      → contains t (streamed_with h p) ≡ true
  unfolding streamed_with
  streamed_with_keeps h p marked = elim (Bool-cases (contains h p.streamed_targets)) [
    | inl again ↦ rw (again, streamed_with) marked
    | inr first ↦ elim (Option-cases (Map.get h p.cache)) [
      | inl gone ↦ rw (first, gone, streamed_with) marked
      | inr (cached, held) ↦ rw (first, held, streamed_with) (ground (arith, first, marked))
    ]
  ]

  observe_other-Marked :
      (h : ℕ) (p : PendingPool Tx) → IsValid p → Marked p → Marked (observe_other h p).0
  observe_other-Marked h p v m = elim (Option-cases (Map.get h p.pending)) [
    | inl gone ↦ rw (observe_other_vanilla h p gone) m
    | inr (bids, held) ↦
        rw
          (observe_other_target h bids p held
            (omega (arith, v.parked.counted, get-total-le h bids p.pending held)))
          (λ here. streamed_with_keeps h p (m here))
  ]

  observe_backrun-Marked :
      (hash : ℕ) (tx : Tx) (target scalar now : ℕ) (p : PendingPool Tx)
      → IsValid p
      → Marked p
      → Marked (observe_backrun hash tx target scalar now p).0
  observe_backrun-Marked hash tx target scalar now p v m =
      elim (Bool-cases (Map.contains_key target p.cache)) [
        | inl pooled ↦
            rw (observe_backrun_pooled hash tx target scalar now p pooled)
              (λ here. streamed_with_keeps target p (m here))
        | inr gone ↦
            let bid : PendingBid Tx = record {
              hash = hash;
              tx = tx;
              scalar = scalar;
              target = target;
              seen_at = now;
            } in
            let (_, _, _, same) = push_pending-IsParkedValid bid p v.parked in
            rw (observe_backrun_parked hash tx target scalar now p gone)
              (λ here. rw same.streamed_targets (m (rw same.cache at here)))
      ]

module _ {Tx : Type 0} (api : TxApi Tx) (t : ℕ) where
  step-Marked :
      (s : PoolStep Tx) (p : PendingPool Tx)
      → IsValid p
      → contains t p.streamed_targets ≡ true
      → Map.contains_key t (step api s p).cache ≡ true
      → contains t (step api s p).streamed_targets ≡ true
  unfolding step
  step-Marked (observed hash tx now) p v marked =
      let q = insert_cache hash tx now p in
      let w = insert_cache-IsValid hash tx now p v in
      let m = insert_cache-Marked t hash tx now p marked in
      observe_at_cases api hash tx now p (λ r. Marked t r.0)
        (λ away. observe_other-Marked t hash q w m) (λ bound. m) (λ call bound decoded lead. m)
        (λ call bound decoded follows.
          observe_backrun-Marked t hash tx call.target_tx_hash _ now q w m)
  step-Marked (pruned now) p v marked = prune-Marked t now p (λ held. marked)
  step-Marked (forgotten hash) p v marked = forget-Marked t hash p (λ held. marked)

  pub step-IsValid : (s : PoolStep Tx) (p : PendingPool Tx) → IsValid p → IsValid (step api s p)
  unfolding step
  step-IsValid (observed hash tx now) p v = observe_at-IsValid api hash tx now p v
  step-IsValid (pruned now) p v = (prune-IsValid now p v).0
  step-IsValid (forgotten hash) p v = forget-IsValid hash p v

  -- From a valid pool in which a target is marked as streamed, through any inserts, prunings and
  -- removals after each of which the target is still cached: it is still marked, so that asking for
  -- it again changes nothing and sends nothing.
  pub steps_stay_streamed :
      (ss : List (PoolStep Tx)) (p : PendingPool Tx) (res : ObserveResult Tx)
      → IsValid p
      → contains t p.streamed_targets ≡ true
      → StaysCached api t ss p
      → (contains t (steps api ss p).streamed_targets ≡ true)
        × (emit_opportunity_once t (steps api ss p) res ≡ (steps api ss p, res))
  unfolding steps StaysCached emit_opportunity_once
  steps_stay_streamed [] p res v marked stays = (marked, rw marked refl)
  steps_stay_streamed (s ∷ ss) p res v marked stays =
      steps_stay_streamed ss (step api s p) res (step-IsValid s p v)
        (step-Marked s p v marked stays.0) stays.1
