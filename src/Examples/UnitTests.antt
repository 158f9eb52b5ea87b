-- ===== src/Examples/UnitTests.antt =====
-- The unit tests of src/backrun.rs and src/txpool_ipc.rs, run on the model.
use magma_sidecar.Prelude.{ℕ, ◌≡◌, refl, true, false, some, List, [], ◌∷◌, map, max}
use magma_sidecar.Policy.Config.{PolicyConfig, is_allowlisted_gateway}
use magma_sidecar.Policy.Encoding.{
  encode_tob_priority, encode_opportunity_priority, encode_backrun_bid_priority,
}
use magma_sidecar.Policy.Score.{
  decode_gateway_call, kept_fields, is_tob, compute_priority, bid_component,
  effective_priority_fee_per_gas, gateway_bid_amount,
}
use magma_sidecar.Backrun.Pool.{PendingPool, ObserveResult, new_pool, pending_len, cache_len}
use magma_sidecar.Backrun.Queues.{
  prune, prune_cache, prune_pending, insert_cache, add_cache, evict_cache, drop_oldest,
  push_pending, park, evict_pending, find_parked, take_parked, forget, forget_target, forget_parked,
  forget_bid, is_empty,
}
use magma_sidecar.Backrun.Observe.{
  is_gateway, observe, observe_at, observe_gateway, observe_call, observe_tob, observe_backrun,
  observe_other, flush_bids, emit_opportunity_once,
}
use magma_sidecar.TxpoolIpc.Sent.{
  new_sent, was_sent, insert_sent, add_sent, compact, evict_sent, drop_sent, sent_len,
}
use magma_sidecar.Examples.{SampleTx, sample_api}

abbrev test_policy : PolicyConfig
test_policy = record { gateway = 0xbb; base_fee_floor_wei = 0 }

abbrev test_pool : ℕ → ℕ → PendingPool SampleTx
test_pool max_cache max_pending = new_pool test_policy 0xffff 2500 max_cache max_pending

-- `vanilla(OTHER)`.
abbrev vanilla : SampleTx
vanilla = record { dest = some 0xcc; data_bytes = []; gas = 21000; tip = 5; max_fee = 100 }

-- `gateway_tx_with_gas`, for a call with this bid and target.
abbrev bid_tx_with_gas : ℕ → ℕ → ℕ → ℕ → SampleTx
bid_tx_with_gas amount target fee limit = record {
  dest = some 0xbb;
  data_bytes = 0xde ∷ 0xad ∷ 0xbe ∷ 0xef ∷ amount ∷ target ∷ [];
  gas = limit;
  tip = fee;
  max_fee = max fee 100;
}

abbrev bid_tx : ℕ → ℕ → SampleTx
bid_tx amount target = bid_tx_with_gas amount target 5 21000

abbrev empty_call : SampleTx
empty_call = record { dest = some 0xbb; data_bytes = []; gas = 21000; tip = 5; max_fee = 100 }

-- The pool after some inserts, and the result of one more.
abbrev seen : List (ℕ × SampleTx) → PendingPool SampleTx → PendingPool SampleTx
seen [] p = p
seen ((hash, tx) ∷ txs) p = seen txs (observe sample_api hash tx 0 p).0

abbrev result : List (ℕ × SampleTx) → ℕ → SampleTx → PendingPool SampleTx → ObserveResult SampleTx
result txs hash tx p = (observe sample_api hash tx 0 (seen txs p)).1

abbrev priorities : ObserveResult SampleTx → List ℕ
priorities res = map (λ r. r.priority) res.reinjections

abbrev hashes : ObserveResult SampleTx → List ℕ
hashes res = map (λ r. r.hash) res.reinjections

tob_bid_is_encoded_and_streamed_immediately :
    let res = result [] 1 (bid_tx 7 0) (test_pool 1024 1024) in
    (priorities res ≡ encode_tob_priority 105007 ∷ [])
    × (res.pairs_matched ≡ 0)
    × (res.skipped_non_gateway ≡ false)
unfolding observe_at insert_cache add_cache evict_cache is_gateway is_allowlisted_gateway
    observe_gateway observe_call observe_tob decode_gateway_call kept_fields is_tob compute_priority
    bid_component effective_priority_fee_per_gas gateway_bid_amount new_pool
tob_bid_is_encoded_and_streamed_immediately = (refl, refl, refl)

untouched_traffic :
    let res = result [] 2 vanilla (test_pool 1024 1024) in
    let res' = result [] 50 empty_call (test_pool 1024 1024) in
    (hashes res ≡ [])
    × (res.skipped_non_gateway ≡ true)
    × (cache_len (seen ((2, vanilla) ∷ []) (test_pool 1024 1024)) ≡ 1)
    × (hashes res' ≡ [])
    × (res'.skipped_invalid_gateway ≡ true)
    × (res'.skipped_non_gateway ≡ false)
unfolding observe_at insert_cache add_cache evict_cache is_gateway is_allowlisted_gateway
    observe_gateway observe_other decode_gateway_call new_pool
untouched_traffic = (refl, refl, refl, refl, refl, refl)

pairing :
    let p = test_pool 1024 1024 in
    let pooled = result ((3, vanilla) ∷ []) 4 (bid_tx 9 3) p in
    let parked = result [] 6 (bid_tx 3 5) p in
    let flushed = result ((6, bid_tx 3 5) ∷ []) 5 vanilla p in
    let competing = result ((8, bid_tx 10 7) ∷ (9, bid_tx 100 7) ∷ []) 7 vanilla p in
    let again = result ((11, vanilla) ∷ (12, bid_tx 1 11) ∷ []) 13 (bid_tx 2 11) p in
    (hashes pooled ≡ 3 ∷ 4 ∷ [])
    × (priorities pooled
        ≡ encode_opportunity_priority 3 ∷ encode_backrun_bid_priority 3 105009 ∷ [])
    × (pooled.pairs_matched ≡ 1)
    × (hashes parked ≡ [])
    × (parked.bids_pended ≡ 1)
    × (pending_len (seen ((6, bid_tx 3 5) ∷ []) p) ≡ 1)
    × (hashes flushed ≡ 5 ∷ 6 ∷ [])
    × (flushed.pairs_matched ≡ 1)
    × (pending_len (seen ((6, bid_tx 3 5) ∷ (5, vanilla) ∷ []) p) ≡ 0)
    × (hashes competing ≡ 7 ∷ 8 ∷ 9 ∷ [])
    × (competing.pairs_matched ≡ 2)
    × (hashes again ≡ 13 ∷ [])
    × (again.pairs_matched ≡ 1)
unfolding observe_at insert_cache add_cache evict_cache is_gateway is_allowlisted_gateway
    observe_gateway observe_call observe_backrun observe_other flush_bids emit_opportunity_once
    push_pending park evict_pending decode_gateway_call kept_fields is_tob compute_priority
    bid_component effective_priority_fee_per_gas gateway_bid_amount new_pool
pairing = (refl, refl, refl, refl, refl, refl, refl, refl, refl, refl, refl, refl, refl)

-- The bid with more gas outranks the one with the larger amount.
total_value :
    let p = test_pool 1024 1024 in
    let first = result ((30, vanilla) ∷ []) 31 (bid_tx_with_gas 1000 30 1 21000) p in
    let second =
      result
        ((30, vanilla) ∷ (31, bid_tx_with_gas 1000 30 1 21000) ∷ [])
        32
        (bid_tx_with_gas 100 30 1000 21000)
        p in
    (priorities first ≡ encode_opportunity_priority 30 ∷ encode_backrun_bid_priority 30 22000 ∷ [])
    × (priorities second ≡ encode_backrun_bid_priority 30 21000100 ∷ [])
unfolding observe_at insert_cache add_cache evict_cache is_gateway is_allowlisted_gateway
    observe_gateway observe_call observe_backrun observe_other emit_opportunity_once
    decode_gateway_call kept_fields is_tob compute_priority bid_component
    effective_priority_fee_per_gas gateway_bid_amount new_pool
total_value = (refl, refl)

limits :
    let p = test_pool 1024 1024 in
    let one = seen ((15, bid_tx 5 14) ∷ []) p in
    let small =
      seen ((43, bid_tx 1 40) ∷ (44, bid_tx 1 41) ∷ (45, bid_tx 1 42) ∷ []) (test_pool 8 2) in
    let full = seen ((20, vanilla) ∷ (21, vanilla) ∷ (22, vanilla) ∷ []) (test_pool 2 2) in
    ((prune 100 one).1 ≡ 0)
    × (pending_len (prune 100 one).0 ≡ 1)
    × ((prune 3000 one).1 ≡ 1)
    × (pending_len (prune 3000 one).0 ≡ 0)
    × (cache_len (prune 3000 (seen ((16, vanilla) ∷ []) p)).0 ≡ 0)
    × (cache_len full ≡ 2)
    × ((observe sample_api 23 (bid_tx 1 20) 0 full).1.bids_pended ≡ 1)
    × (pending_len (forget 15 one) ≡ 0)
    × (pending_len small ≡ 2)
    × (hashes (observe sample_api 40 vanilla 0 small).1 ≡ [])
    × ((observe sample_api 40 vanilla 0 small).1.skipped_non_gateway ≡ true)
unfolding observe_at insert_cache add_cache evict_cache drop_oldest is_gateway
    is_allowlisted_gateway observe_gateway observe_call observe_backrun observe_other
    emit_opportunity_once push_pending park evict_pending find_parked take_parked is_empty prune
    prune_cache prune_pending forget forget_target forget_parked forget_bid decode_gateway_call
    kept_fields is_tob new_pool
limits = (refl, refl, refl, refl, refl, refl, refl, refl, refl, refl, refl)

sent_cache_evicts_oldest_hash :
    let one = insert_sent 1 1 (new_sent 2) in
    let two = insert_sent 2 2 one.0 in
    let three = insert_sent 3 3 two.0 in
    (one.1 ≡ 0)
    × (two.1 ≡ 0)
    × (three.1 ≡ 1)
    × (was_sent 1 three.0 ≡ false)
    × (was_sent 2 three.0 ≡ true)
    × (was_sent 3 three.0 ≡ true)
    × (sent_len three.0 ≡ 2)
unfolding insert_sent add_sent compact evict_sent drop_sent was_sent sent_len new_sent
sent_cache_evicts_oldest_hash = (refl, refl, refl, refl, refl, refl, refl)
