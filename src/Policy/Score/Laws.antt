-- ===== src/Policy/Score/Laws.antt =====
-- The decoding and the score of src/policy.rs on their branches.
use magma_sidecar.Prelude.{
  ℕ, ◌+◌, ◌-◌, ◌*◌, ◌^◌, ◌<◌, ◌≡◌, ◌≢◌, ◌⊎◌, inl, inr, refl, sym, ◌∙◌, ap, false, ltb, bytes_eq→eq,
  bytes_eq_refl, Option-cases, none, some, List, ◌++◌, length, take, drop, take-append, drop-append,
  take-append-drop, length-append, min, arith,
}
use magma_sidecar.Word.{u64_mod, u128_mod, u256_mod}
use magma_sidecar.Tx.{TxApi, IsTxApi, MagmaSearcherGatewayCall}
use magma_sidecar.Policy.Config.{PolicyConfig}
use magma_sidecar.Policy.Score.{
  GatewayCall, decode_gateway_call, gateway_bid_amount, effective_priority_fee_per_gas,
  compute_priority,
}

mul-lt-192 : (fee gas : ℕ) → fee < u128_mod → gas < u64_mod → fee * gas < 2 ^ 192
mul-lt-192 fee gas h k = grind arith

module _ {Tx : Type 0} (api : TxApi Tx) where
  open api use {
    to, input, gas_limit, priority_fee_or_price, max_fee_per_gas, selector, abi_decode_raw,
  }

  -- For a selector of four bytes, a transaction whose calldata is the selector followed by bytes
  -- that the ABI decoder reads as a call decodes to that call's bid amount and target hash.
  pub decode_gateway_call_complete :
      (tx : Tx) (args : List ℕ) (call : MagmaSearcherGatewayCall)
      → length selector ≡ 4
      → input tx ≡ selector ++ args
      → abi_decode_raw args ≡ some call
      → decode_gateway_call api tx
        ≡ some (record { bid_amount = call.bid_amount; target_tx_hash = call.target_tx_hash })
  unfolding decode_gateway_call
  decode_gateway_call_complete tx args call four e decoded =
      let front : take 4 (input tx) ≡ selector = rw (e, ← four) (take-append selector args) in
      let back : drop 4 (input tx) ≡ args = rw (e, ← four) (drop-append selector args) in
      let long : ltb (length (input tx)) 4 ≡ false =
        rw e (ground (arith, length-append selector args)) in
      rw (long, front, back, bytes_eq_refl selector, decoded) refl

  -- Whatever decodes is the selector followed by bytes that the ABI decoder reads as a call with
  -- the bid amount and target hash returned.
  pub decode_gateway_call_sound :
      (tx : Tx) (found : GatewayCall)
      → decode_gateway_call api tx ≡ some found
      → (args : List ℕ) × (call : MagmaSearcherGatewayCall) × (input tx ≡ selector ++ args)
        × (abi_decode_raw args ≡ some call)
        × (found.bid_amount ≡ call.bid_amount)
        × (found.target_tx_hash ≡ call.target_tx_hash)
  unfolding decode_gateway_call
  decode_gateway_call_sound tx found h = elim (Option-cases (abi_decode_raw (drop 4 (input tx)))) [
    | inl refused ↦ absurd (ground (arith, refused))
    | inr (call, decoded) ↦ (
      drop 4 (input tx),
      call,
      sym (take-append-drop 4 (input tx))
          ∙ ap (λ front. front ++ drop 4 (input tx))
              (bytes_eq→eq (take 4 (input tx)) selector (ground (arith, decoded))),
      decoded,
      ground (arith, decoded),
      ground (arith, decoded),
    )
  ]

  module _ (laws : IsTxApi api) (tx : Tx) (policy : PolicyConfig) where
    -- The fee part of a score, which never reaches 2 ^ 192.
    fee_component-lt :
        effective_priority_fee_per_gas api tx policy.base_fee_floor_wei * gas_limit tx < 2 ^ 192
    unfolding effective_priority_fee_per_gas
    fee_component-lt =
        mul-lt-192 _ _ (omega (arith, laws.priority_fee-lt tx)) (laws.gas_limit-lt tx)

    -- Where the operations return numbers of their widths: a transaction for the gateway with a bid
    -- that decodes scores its fee, at most the headroom over the base fee floor, times its gas limit,
    -- plus the bid, stopped at 2 ^ 256 - 1.
    pub compute_priority_bid :
        (call : GatewayCall)
        → to tx ≡ some policy.gateway
        → decode_gateway_call api tx ≡ some call
        → compute_priority api tx policy
          ≡ min
              (min (priority_fee_or_price tx) (max_fee_per_gas tx - policy.base_fee_floor_wei)
                  * gas_limit tx
                + call.bid_amount)
              (u256_mod - 1)
    unfolding compute_priority effective_priority_fee_per_gas gateway_bid_amount
    compute_priority_bid call dest decoded =
        let fee = fee_component-lt in ground (arith, dest, decoded, fee)

    -- Where the operations return numbers of their widths: a transaction that is for another address,
    -- or whose call does not decode, scores its fee alone, exactly and below 2 ^ 192.
    compute_priority_no_bid :
        (to tx ≢ some policy.gateway) ⊎ (decode_gateway_call api tx ≡ none)
        → (compute_priority api tx policy
            ≡ min (priority_fee_or_price tx) (max_fee_per_gas tx - policy.base_fee_floor_wei)
              * gas_limit tx)
          × (compute_priority api tx policy < 2 ^ 192)
    unfolding compute_priority effective_priority_fee_per_gas gateway_bid_amount
    compute_priority_no_bid why =
        let fee = fee_component-lt in ground (arith, fee, Option-cases (to tx))
