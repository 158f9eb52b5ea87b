-- ===== src/Examples/Expiry.antt =====
-- Parked bids that expire, and one that does not.
use magma_sidecar.Prelude.{◌≡◌, refl, none, some, List, [], ◌∷◌, arith}
use magma_sidecar.Policy.Config.{is_allowlisted_gateway}
use magma_sidecar.Policy.Score.{
  decode_gateway_call, kept_fields, is_tob, compute_priority, bid_component,
  effective_priority_fee_per_gas, gateway_bid_amount,
}
use magma_sidecar.Backrun.Pool.{new_pool}
use magma_sidecar.Backrun.Queues.{
  prune, prune_cache, prune_pending, insert_cache, add_cache, evict_cache, drop_oldest,
  push_pending, park, evict_pending, find_parked, take_parked, forget, forget_target, forget_parked,
  forget_bid, is_empty,
}
use magma_sidecar.Backrun.Queues.Search.{parked_at}
use magma_sidecar.Backrun.Queues.Overdue.{unexpired}
use magma_sidecar.Backrun.Observe.{
  is_gateway, observe_at, observe_gateway, observe_call, observe_backrun,
}
use magma_sidecar.Backrun.Invariant.{new_pool-IsValid}
use magma_sidecar.Backrun.Streamed.{PoolStep, observed, pruned, forgotten, step, steps}
use magma_sidecar.Backrun.Timely.{Timely, steps-prune_expires}
use magma_sidecar.Examples.{SampleTx, sample_api, sample_policy, sample_pool, gateway_tx}

-- Two bids on the same target, one after the other.
abbrev two_bids : List (PoolStep SampleTx)
two_bids = observed 10 (gateway_tx 7 9) 0 ∷ observed 12 (gateway_tx 8 9) 10 ∷ []

two_bids-Timely : Timely sample_api 0 two_bids sample_pool
unfolding Timely step new_pool observe_at insert_cache add_cache evict_cache is_gateway
    is_allowlisted_gateway observe_gateway observe_call observe_backrun decode_gateway_call
    kept_fields is_tob push_pending park evict_pending
two_bids-Timely = (omega arith, λ t. refl, (omega arith, λ t. ground arith, tt))

steps-prune_expires_example :
    let q = steps sample_api two_bids sample_pool in
    parked_at 9 10 (prune 2505 q).0.pending ≡ unexpired 2505 q.ttl (parked_at 9 10 q.pending)
unfolding new_pool
steps-prune_expires_example =
    steps-prune_expires sample_api two_bids sample_pool 0 2505 9 10
      (new_pool-IsValid sample_policy 0xffff 2500 4 4).0 refl two_bids-Timely

-- The first bid has expired then, and the second has not.
two_bids_expiry :
    let q = (prune 2505 (steps sample_api two_bids sample_pool)).0 in
    (parked_at 9 10 q.pending ≡ none) × (q.pending_count ≡ 1)
unfolding steps step new_pool observe_at insert_cache add_cache evict_cache is_gateway
    is_allowlisted_gateway observe_gateway observe_call observe_backrun decode_gateway_call
    kept_fields is_tob push_pending park evict_pending prune prune_cache prune_pending find_parked
    take_parked is_empty drop_oldest compute_priority bid_component effective_priority_fee_per_gas
    gateway_bid_amount
two_bids_expiry = (refl, refl)

-- The bid 11 is parked, forgotten, and parked again while its first place in the queue is left, which
-- is before that of the bid 12.
abbrev reparked : List (PoolStep SampleTx)
reparked =
    observed 10 (gateway_tx 7 9) 0
    ∷ observed 11 (gateway_tx 7 9) 1
    ∷ forgotten 11
    ∷ pruned 10
    ∷ observed 12 (gateway_tx 8 9) 10
    ∷ pruned 20
    ∷ observed 11 (gateway_tx 7 9) 20
    ∷ []

-- At the age of 2505, past the time to live, the bid 12 is still parked after a pruning.
overdue_bid_stays :
    parked_at 9 12 (prune 2515 (steps sample_api reparked sample_pool)).0.pending
    ≡ some (record { hash = 12; tx = gateway_tx 8 9; scalar = 28; target = 9; seen_at = 10 })
unfolding steps step new_pool observe_at insert_cache add_cache evict_cache is_gateway
    is_allowlisted_gateway observe_gateway observe_call observe_backrun decode_gateway_call
    kept_fields is_tob push_pending park evict_pending prune prune_cache prune_pending find_parked
    take_parked is_empty drop_oldest forget forget_target forget_parked forget_bid compute_priority
    bid_component effective_priority_fee_per_gas gateway_bid_amount
overdue_bid_stays = refl
