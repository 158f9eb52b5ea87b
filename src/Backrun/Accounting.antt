-- ===== src/Backrun/Accounting.antt =====
-- What an insert counts (src/backrun.rs): bids parked and evicted, against the bids that stay parked.
use magma_sidecar.Prelude.{ℕ, ◌+◌, ◌≤◌, ◌≡◌, refl, ◌∙◌, inl, inr, arith, Bool-cases, Option-cases}
use magma_sidecar.Prelude.Map
use magma_sidecar.Tx.{TxApi}
use magma_sidecar.Backrun.Pool.{PendingPool, ObserveResult}
use magma_sidecar.Backrun.Queues.{insert_cache}
use magma_sidecar.Backrun.Queues.Frames.{SamePending}
use magma_sidecar.Backrun.Queues.Cache.{insert_cache-IsCacheValid}
use magma_sidecar.Backrun.Queues.Evict.{push_pending-IsParkedValid}
use magma_sidecar.Backrun.Queues.Parked.Take.{get-total-le}
use magma_sidecar.Backrun.Invariant.{IsValid, insert_cache-IsValid}
use magma_sidecar.Backrun.Observe.{observe_other, observe_backrun, observe_tob, observe_at}
use magma_sidecar.Backrun.Observe.Branches.{
  observe_other_vanilla, observe_other_target, observe_backrun_pooled, observe_backrun_parked,
}
use magma_sidecar.Backrun.Observe.Cases.{observe_at_cases}

-- From a pool `p` to a result: the capacities stay, and the bids evicted and still parked are among
-- those that were parked before or counted as parked now.
pub record Accounts {Tx : Type 0} (p : PendingPool Tx) (r : PendingPool Tx × ObserveResult Tx)
    : Type 0 where
  pub max_cache_entries : r.0.max_cache_entries ≡ p.max_cache_entries
  pub max_pending_entries : r.0.max_pending_entries ≡ p.max_pending_entries
  pub counted : r.0.pending_count + r.1.bids_evicted ≤ p.pending_count + r.1.bids_pended

module _ {Tx : Type 0} where
  -- Nothing parked and nothing evicted.
  idle-Accounts :
      (p : PendingPool Tx) (res : ObserveResult Tx) → res.bids_evicted ≡ 0 → Accounts p (p, res)
  idle-Accounts p res e = record {
    max_cache_entries = refl;
    max_pending_entries = refl;
    counted = omega (arith, e);
  }

  observe_other-Accounts : (h : ℕ) (p : PendingPool Tx) → IsValid p → Accounts p (observe_other h p)
  observe_other-Accounts h p v = elim (Option-cases (Map.get h p.pending)) [
    | inl gone ↦ rw (observe_other_vanilla h p gone) (idle-Accounts p _ refl)
    | inr (bids, held) ↦
        let few = get-total-le h bids p.pending held in
        rw (observe_other_target h bids p held (omega (arith, v.parked.counted, few)))
          (record { max_cache_entries = refl; max_pending_entries = refl; counted = omega arith })
  ]

  observe_backrun-Accounts :
      (hash : ℕ) (tx : Tx) (target scalar now : ℕ) (p : PendingPool Tx)
      → IsValid p
      → Accounts p (observe_backrun hash tx target scalar now p)
  observe_backrun-Accounts hash tx target scalar now p v =
      elim (Bool-cases (Map.contains_key target p.cache)) [
        | inl pooled ↦
            rw (observe_backrun_pooled hash tx target scalar now p pooled) (record {
              max_cache_entries = refl;
              max_pending_entries = refl;
              counted = omega arith;
            })
        | inr gone ↦
            let (_, _, counted, same) = push_pending-IsParkedValid _ p v.parked in
            rw (observe_backrun_parked hash tx target scalar now p gone) (record {
              max_cache_entries = same.max_cache_entries;
              max_pending_entries = same.max_pending_entries;
              counted = omega (arith, counted);
            })
      ]

  -- An account that starts after caching.
  same-Accounts :
      (p q : PendingPool Tx) (r : PendingPool Tx × ObserveResult Tx)
      → SamePending p q
      → Accounts q r
      → Accounts p r
  same-Accounts p q r same a = record {
    max_cache_entries = a.max_cache_entries ∙ same.max_cache_entries;
    max_pending_entries = a.max_pending_entries ∙ same.max_pending_entries;
    counted = omega (arith, a.counted, same.pending_count);
  }

  pub observe_at-Accounts :
      (api : TxApi Tx) (hash : ℕ) (tx : Tx) (now : ℕ) (p : PendingPool Tx)
      → IsValid p
      → Accounts p (observe_at api hash tx now p)
  unfolding observe_tob
  observe_at-Accounts api hash tx now p v =
      let q = insert_cache hash tx now p in
      let w = insert_cache-IsValid hash tx now p v in
      let (_, _, same) = insert_cache-IsCacheValid hash tx now p v.cache in
      observe_at_cases api hash tx now p (Accounts p)
        (λ away. same-Accounts p q _ same (observe_other-Accounts hash q w))
        (λ bound. same-Accounts p q _ same (idle-Accounts q _ refl))
        (λ call bound decoded lead. same-Accounts p q _ same (idle-Accounts q _ refl))
        (λ call bound decoded follows.
          same-Accounts p q _ same (observe_backrun-Accounts hash tx call.target_tx_hash _ now q w))
