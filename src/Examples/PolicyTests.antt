-- ===== src/Examples/PolicyTests.antt =====
-- The unit tests of src/policy.rs, run on the model.
use magma_sidecar.Prelude.{
  ℕ, ◌*◌, ◌^◌, ◌-◌, ◌<◌, ◌≡◌, ◌≢◌, refl, inr, true, false, Option, none, some, List, [], ◌∷◌, arith,
}
use magma_sidecar.Word.{shr}
use magma_sidecar.Policy.Config.{
  PolicyConfig, mainnet, testnet, localnet, network_gateway, network_base_fee_floor_wei,
  for_network, is_allowlisted_gateway, gateway_is_unset, zero_address,
}
use magma_sidecar.Policy.Score.{
  decode_gateway_call, kept_fields, is_tob, compute_priority, bid_component,
  effective_priority_fee_per_gas, gateway_bid_amount,
}
use magma_sidecar.Policy.Encoding.{
  encode_tob_priority, encode_opportunity_priority, encode_backrun_bid_priority, backrun_id,
}
use magma_sidecar.Policy.Encoding.Slots.{tob, opportunity, backrun_bid, priority_of}
use magma_sidecar.Policy.Encoding.Order.{priority_of-lt_iff, encoded_fields}
use magma_sidecar.Examples.{SampleTx, sample_api}

-- `PolicyConfig::for_test`.
abbrev for_test : ℕ → ℕ → PolicyConfig
for_test gateway base_fee_floor_wei = record {
  gateway = gateway;
  base_fee_floor_wei = base_fee_floor_wei;
}

abbrev test_tx : Option ℕ → List ℕ → ℕ → SampleTx
test_tx dest data_bytes tip = record {
  dest = dest;
  data_bytes = data_bytes;
  gas = 21000;
  tip = tip;
  max_fee = 100;
}

-- `gateway_call_calldata_with_target`, with the two arguments that the sample decoder reads.
abbrev gateway_call_calldata_with_target : ℕ → ℕ → List ℕ
gateway_call_calldata_with_target amount target = 0xde ∷ 0xad ∷ 0xbe ∷ 0xef ∷ amount ∷ target ∷ []

-- `target(byte)`: the byte and 31 zeros.
abbrev target : ℕ → ℕ
target byte = byte * 2 ^ 248

eip1559_priority_fee_only :
    compute_priority sample_api (test_tx (some 0xaa) [] 5) (for_test 0xff 0) ≡ 105000
unfolding compute_priority effective_priority_fee_per_gas bid_component
eip1559_priority_fee_only = refl

eip1559_gateway_receive_topup_does_not_count_value_as_bid :
    compute_priority sample_api (test_tx (some 0xbb) [] 5) (for_test 0xbb 0) ≡ 105000
unfolding compute_priority effective_priority_fee_per_gas bid_component gateway_bid_amount
    decode_gateway_call
eip1559_gateway_receive_topup_does_not_count_value_as_bid = refl

gateway_call_uses_decoded_bid_amount :
    compute_priority sample_api
      (test_tx (some 0xbb) (gateway_call_calldata_with_target 7000000 0) 5)
      (for_test 0xbb 0)
    ≡ 7105000
unfolding compute_priority effective_priority_fee_per_gas bid_component gateway_bid_amount
    decode_gateway_call kept_fields
gateway_call_uses_decoded_bid_amount = refl

gateway_with_unknown_selector_gets_zero_bid :
    compute_priority sample_api
      (test_tx (some 0xbb) (0xba ∷ 0xad ∷ 0xbe ∷ 0xef ∷ 0 ∷ 0 ∷ []) 5)
      (for_test 0xbb 0)
    ≡ 105000
unfolding compute_priority effective_priority_fee_per_gas bid_component gateway_bid_amount
    decode_gateway_call
gateway_with_unknown_selector_gets_zero_bid = refl

non_gateway_recipient_excluded :
    compute_priority sample_api (test_tx (some 0xcc) [] 5) (for_test 0xbb 0) ≡ 105000
unfolding compute_priority effective_priority_fee_per_gas bid_component
non_gateway_recipient_excluded = refl

-- A legacy transaction, whose fee cap is its gas price.
legacy_tx_uses_gas_price_minus_floor :
    compute_priority sample_api
      (record { dest = some 0xaa; data_bytes = []; gas = 21000; tip = 50; max_fee = 50 })
      (for_test 0xff 10)
    ≡ 840000
unfolding compute_priority effective_priority_fee_per_gas bid_component
legacy_tx_uses_gas_price_minus_floor = refl

create_tx_has_no_value_component :
    compute_priority sample_api (test_tx none [] 7) (for_test 0xbb 0) ≡ 7 * 21000
unfolding compute_priority effective_priority_fee_per_gas bid_component
create_tx_has_no_value_component = refl

network_constants_are_well_formed :
    (network_gateway mainnet ≢ zero_address)
    × (network_gateway testnet ≢ zero_address)
    × (network_gateway localnet ≢ zero_address)
    × (network_base_fee_floor_wei mainnet ≡ 0)
    × (network_base_fee_floor_wei testnet ≡ 0)
    × (network_base_fee_floor_wei localnet ≡ 0)
    × ((for_network localnet).gateway ≡ network_gateway localnet)
    × (is_allowlisted_gateway (for_network localnet) (network_gateway localnet) ≡ true)
    × (is_allowlisted_gateway (for_network localnet) zero_address ≡ false)
unfolding network_gateway network_base_fee_floor_wei for_network is_allowlisted_gateway
network_constants_are_well_formed =
    (omega arith, omega arith, omega arith, refl, refl, refl, refl, refl, refl)

gateway_is_unset_detects_zero_address :
    (gateway_is_unset (for_test zero_address 0) ≡ true)
    × (gateway_is_unset (for_test 0xbb 0) ≡ false)
unfolding gateway_is_unset
gateway_is_unset_detects_zero_address = (refl, refl)

decode_gateway_call_extracts_bid_and_target :
    (decode_gateway_call sample_api
        (test_tx (some 0xbb) (gateway_call_calldata_with_target 42 (target 0xab)) 5)
      ≡ some (record { bid_amount = 42; target_tx_hash = target 0xab }))
    × (is_tob (record { bid_amount = 42; target_tx_hash = target 0xab }) ≡ false)
    × (decode_gateway_call sample_api
          (test_tx (some 0xbb) (gateway_call_calldata_with_target 1 0) 5)
        ≡ some (record { bid_amount = 1; target_tx_hash = 0 }))
    × (is_tob (record { bid_amount = 1; target_tx_hash = 0 }) ≡ true)
unfolding decode_gateway_call kept_fields is_tob
decode_gateway_call_extracts_bid_and_target = (refl, refl, refl, refl)

tob_outranks_every_backrun :
    (encode_opportunity_priority (2 ^ 256 - 1) < encode_tob_priority 1)
    × (encode_backrun_bid_priority (2 ^ 256 - 1) (2 ^ 128 - 1) < encode_tob_priority 1)
unfolding priority_of
tob_outranks_every_backrun = (
  (priority_of-lt_iff (opportunity (2 ^ 256 - 1)) (tob 1) (omega arith) (omega arith)).1 tt,
  (priority_of-lt_iff (backrun_bid (2 ^ 256 - 1) (2 ^ 128 - 1)) (tob 1) (omega arith, omega arith)
        (omega arith)).1
      tt,
)

opportunity_sits_just_above_its_bids :
    (encode_backrun_bid_priority (target 0x10) 1000000 < encode_opportunity_priority (target 0x10))
    × (encode_backrun_bid_priority (target 0x10) 1
        < encode_backrun_bid_priority (target 0x10) 1000000)
unfolding priority_of
opportunity_sits_just_above_its_bids = (
  (priority_of-lt_iff (backrun_bid (target 0x10) 1000000) (opportunity (target 0x10))
        (omega arith, omega arith) (omega arith)).1
      (omega arith),
  (priority_of-lt_iff (backrun_bid (target 0x10) 1) (backrun_bid (target 0x10) 1000000)
        (omega arith, omega arith) (omega arith, omega arith)).1
      (inr (refl, omega arith)),
)

same_target_shares_group_other_targets_do_not :
    (shr (encode_opportunity_priority (target 0x10)) 129
      ≡ shr (encode_backrun_bid_priority (target 0x10) 5) 129)
    × (shr (encode_opportunity_priority (target 0x10)) 129
        ≢ shr (encode_opportunity_priority (target 0x20)) 129)
unfolding backrun_id
same_target_shares_group_other_targets_do_not =
    let same = encoded_fields (target 0x10) 5 0 (omega arith) in
    let other = encoded_fields (target 0x20) 5 0 (omega arith) in
    (omega (arith, same), omega (arith, same, other))

backrun_groups_sit_above_vanilla_priorities :
    (0xffff < encode_backrun_bid_priority (target 0x01) 1)
    × (0xffff < encode_opportunity_priority (target 0x01))
unfolding backrun_id
backrun_groups_sit_above_vanilla_priorities =
    let fields = encoded_fields (target 0x01) 1 0 (omega arith) in
    (omega (arith, fields), omega (arith, fields))
