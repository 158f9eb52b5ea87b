-- ===== src/Policy/Score/Order.antt =====
-- The score of src/policy.rs and what a transaction pays.
use magma_sidecar.Prelude.{ℕ, ◌-◌, ◌*◌, ◌≤◌, ◌≡◌, some, min, arith}
use magma_sidecar.Tx.{TxApi, IsTxApi}
use magma_sidecar.Policy.Config.{PolicyConfig}
use magma_sidecar.Policy.Score.{GatewayCall, decode_gateway_call, compute_priority}
use magma_sidecar.Policy.Score.Laws.{compute_priority_bid}

mul_mono : (a b c d : ℕ) → a ≤ c → b ≤ d → a * b ≤ c * d
mul_mono a b c d h k = grind arith

module _ {Tx : Type 0} (api : TxApi Tx) (laws : IsTxApi api) (policy : PolicyConfig) where
  open api use {to, gas_limit, priority_fee_or_price, max_fee_per_gas}

  -- Where the operations return numbers of their widths: of two decoded calls of the gateway, the one
  -- whose fees, gas limit and bid are each at least as large scores at least as much.
  pub compute_priority_mono :
      (low high : Tx) (low_call high_call : GatewayCall)
      → to low ≡ some policy.gateway
      → to high ≡ some policy.gateway
      → decode_gateway_call api low ≡ some low_call
      → decode_gateway_call api high ≡ some high_call
      → priority_fee_or_price low ≤ priority_fee_or_price high
      → max_fee_per_gas low ≤ max_fee_per_gas high
      → gas_limit low ≤ gas_limit high
      → low_call.bid_amount ≤ high_call.bid_amount
      → compute_priority api low policy ≤ compute_priority api high policy
  compute_priority_mono low high low_call high_call dest dest' decoded decoded' tip cap gas bid =
      let fee =
        mul_mono (min (priority_fee_or_price low) (max_fee_per_gas low - policy.base_fee_floor_wei))
          (gas_limit low)
          (min (priority_fee_or_price high) (max_fee_per_gas high - policy.base_fee_floor_wei))
          (gas_limit high) (omega arith) gas in
      rw
        (
          compute_priority_bid api laws low policy low_call dest decoded,
          compute_priority_bid api laws high policy high_call dest' decoded',
        )
        (omega (arith, fee, bid))
