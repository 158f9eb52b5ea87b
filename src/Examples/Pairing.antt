-- ===== src/Examples/Pairing.antt =====
-- A sample target and a sample bid in the pool.
use magma_sidecar.Prelude.{
  ℕ, none, if◌then◌else◌, ◌==◌, map, ◌++◌, ◌+◌, ◌^◌, ◌≡◌, ◌<◌, refl, true, List, [], ◌∷◌, contains,
  arith,
}
use magma_sidecar.Prelude.Map
use magma_sidecar.Policy.Config.{is_allowlisted_gateway}
use magma_sidecar.Policy.Score.{
  decode_gateway_call, kept_fields, is_tob, compute_priority, effective_priority_fee_per_gas,
  gateway_bid_amount,
}
use magma_sidecar.Backrun.Pool.{PendingBid, PendingPool, new_pool, default_result}
use magma_sidecar.Backrun.Observe.{
  is_gateway, observe_at, observe_gateway, observe_call, observe_backrun, emit_opportunity_once,
}
use magma_sidecar.Backrun.Streamed.{
  PoolStep, observed, pruned, forgotten, step, steps, StaysCached, steps_stay_streamed,
}
use magma_sidecar.Backrun.Invariant.{IsValid, new_pool-IsValid, observe_at-IsValid}
use magma_sidecar.Backrun.Queues.{
  insert_cache, add_cache, evict_cache, prune, prune_cache, prune_pending, forget, forget_target,
  forget_parked, forget_bid, is_empty,
}
use magma_sidecar.Backrun.Flush.{observe_at_target}
use magma_sidecar.Backrun.Observe.Branches.{opportunity, flushed_bid}
use magma_sidecar.Backrun.Lead.{observe_at_lead, emit_opportunity_once_again}
use magma_sidecar.Examples.{SampleTx, sample_api, sample_policy, sample_pool, gateway_tx, plain_tx}

sample_pool-IsValid :
    IsValid sample_pool
    × (0 < sample_pool.max_cache_entries)
    × (0 < sample_pool.max_pending_entries)
sample_pool-IsValid = new_pool-IsValid sample_policy 0xffff 2500 4 4

capacity_of_zero :
    IsValid (new_pool {Tx = SampleTx} sample_policy 0xffff 2500 0 4)
    × (0 < (new_pool {Tx = SampleTx} sample_policy 0xffff 2500 0 4).max_cache_entries)
    × (0 < (new_pool {Tx = SampleTx} sample_policy 0xffff 2500 0 4).max_pending_entries)
capacity_of_zero = new_pool-IsValid sample_policy 0xffff 2500 0 4

observe_at-IsValid_example : IsValid (observe_at sample_api 11 (gateway_tx 7 9) 100 sample_pool).0
observe_at-IsValid_example =
    observe_at-IsValid sample_api 11 (gateway_tx 7 9) 100 sample_pool sample_pool-IsValid.0

observe_at_lead_example :
    let (q, res) = observe_at sample_api 12 (gateway_tx 7 0) 100 sample_pool in
    (res.reinjections ≡ record { hash = 12; tx = gateway_tx 7 0; priority = 2 ^ 255 + 27 } ∷ [])
    × (q.pending ≡ [])
    × (q.pending_count ≡ 0)
unfolding new_pool is_gateway decode_gateway_call is_tob is_allowlisted_gateway compute_priority
    effective_priority_fee_per_gas gateway_bid_amount
observe_at_lead_example =
    observe_at_lead sample_api 12 (gateway_tx 7 0) 100 sample_pool
      (record { bid_amount = 7; target_tx_hash = 0 }) sample_pool-IsValid.0 refl refl refl

target_streamed_once :
    let cached = record (sample_pool) { cache = (9, record { tx = plain_tx; seen_at = 0 }) ∷ [] } in
    let (q, sent) = emit_opportunity_once 9 cached default_result in
    (emit_opportunity_once 9 q sent ≡ (q, sent))
    × (Map.contains_key 9 cached.cache ≡ true → contains 9 q.streamed_targets ≡ true)
target_streamed_once =
    emit_opportunity_once_again 9
      (record (sample_pool) { cache = (9, record { tx = plain_tx; seen_at = 0 }) ∷ [] })
      default_result

-- A pool that holds a streamed target, through another bid on it, a pruning and a removal.
abbrev streamed_pool : PendingPool SampleTx
streamed_pool = record sample_pool {
  cache = (9, record { tx = plain_tx; seen_at = 100 }) ∷ [];
  cache_order = 9 ∷ [];
  streamed_targets = 9 ∷ [];
}

streamed_pool-IsValid : IsValid streamed_pool
unfolding new_pool
streamed_pool-IsValid = record {
  cache = record { queued = λ h c. ground arith; streamed = λ h c. ground arith };
  parked = record { distinct = tt; entries = tt; counted = refl; waiting = λ t h. omega arith };
  cache_bounded = omega arith;
  pending_bounded = omega arith;
}

abbrev later_steps : List (PoolStep SampleTx)
later_steps = observed 12 (gateway_tx 7 9) 200 ∷ pruned 300 ∷ forgotten 12 ∷ []

later_steps-StaysCached : StaysCached sample_api 9 later_steps streamed_pool
unfolding StaysCached step observe_at insert_cache add_cache evict_cache is_gateway
    is_allowlisted_gateway observe_gateway observe_call observe_backrun emit_opportunity_once
    decode_gateway_call kept_fields is_tob prune prune_cache prune_pending forget forget_target
    forget_parked forget_bid new_pool
later_steps-StaysCached = (refl, (refl, (refl, tt)))

steps_stay_streamed_example :
    let q = steps sample_api later_steps streamed_pool in
    (contains 9 q.streamed_targets ≡ true)
    × (emit_opportunity_once 9 q default_result ≡ (q, default_result))
steps_stay_streamed_example =
    steps_stay_streamed sample_api 9 later_steps streamed_pool default_result streamed_pool-IsValid
      refl later_steps-StaysCached

abbrev sample_bid : PendingBid SampleTx
sample_bid = record { hash = 11; tx = gateway_tx 7 9; scalar = 27; target = 9; seen_at = 100 }

abbrev parked_pool : PendingPool SampleTx
parked_pool = record {
  policy = sample_policy;
  fallback = 0xffff;
  ttl = 2500;
  max_cache_entries = 4;
  max_pending_entries = 4;
  cache = [];
  cache_order = [];
  pending = (9, sample_bid ∷ []) ∷ [];
  pending_order = (9, 11) ∷ [];
  pending_count = 1;
  streamed_targets = [];
}

parked_pool-IsValid : IsValid parked_pool
unfolding is_empty
parked_pool-IsValid = record {
  cache = record { queued = λ h c. absurd (ground arith); streamed = λ h c. absurd (ground arith) };
  parked = record {
    distinct = (refl, tt);
    entries = (refl, (refl, tt), tt);
    counted = refl;
    waiting = λ t h. ground arith;
  };
  cache_bounded = omega arith;
  pending_bounded = omega arith;
}

observe_at_target_example :
    let (q, res) = observe_at sample_api 9 plain_tx 200 parked_pool in
    (res.reinjections
      ≡ opportunity 9 (insert_cache 9 plain_tx 200 parked_pool)
        ++ map (flushed_bid 9) (sample_bid ∷ []))
    × (res.pairs_matched ≡ 1)
    × (q.pending_count + 1 ≡ 1)
    × ((other : ℕ)
        → Map.get other q.pending
          ≡ (if 9 == other then none else Map.get other ((9, sample_bid ∷ []) ∷ [])))
unfolding is_gateway is_allowlisted_gateway
observe_at_target_example =
    observe_at_target sample_api 9 plain_tx 200 parked_pool (sample_bid ∷ []) parked_pool-IsValid
      refl refl
