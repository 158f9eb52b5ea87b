-- ===== src/Policy/Score.antt =====
-- src/policy.rs, lines 182-247 and 345-354: the decoding of a gateway call, and the score
-- `effective_priority_fee * gas_limit + bid`.
use mathlib.Core.Option
pub mod Laws
pub mod Order
use magma_sidecar.Prelude.{
  ℕ, ◌+◌, ◌*◌, ◌<◌, ◌≡◌, Bool, true, false, ◌==◌, ltb, if◌then◌else◌, Option, none, some, List,
  length, take, drop, bytes_eq, min,
}
use magma_sidecar.Word.{saturating_mul, saturating_add, saturating_sub}
use magma_sidecar.Tx.{TxApi, MagmaSearcherGatewayCall}
use magma_sidecar.Policy.Config.{PolicyConfig}

pub record GatewayCall : Type 0 where
  pub bid_amount : ℕ
  pub target_tx_hash : ℕ

-- `B256::ZERO`.
abbrev zero_hash : ℕ
zero_hash = 0

unfoldable pub is_tob : GatewayCall → Bool
is_tob call = call.target_tx_hash == zero_hash

unfoldable pub kept_fields : MagmaSearcherGatewayCall → GatewayCall
kept_fields call = record { bid_amount = call.bid_amount; target_tx_hash = call.target_tx_hash }

module _ {Tx : Type 0} (api : TxApi Tx) where
  open api use {
    to, input, gas_limit, priority_fee_or_price, max_fee_per_gas, selector, abi_decode_raw,
  }

  unfoldable pub decode_gateway_call : Tx → Option GatewayCall
  unfolding kept_fields
  decode_gateway_call tx =
      if ltb (length (input tx)) 4
      then none
      else if bytes_eq (take 4 (input tx)) selector
      then Option.map kept_fields (abi_decode_raw (drop 4 (input tx)))
      else none

  unfoldable pub gateway_bid_amount : Tx → Option ℕ
  gateway_bid_amount tx = Option.map (λ call. call.bid_amount) (decode_gateway_call tx)

  unfoldable pub effective_priority_fee_per_gas : Tx → ℕ → ℕ
  effective_priority_fee_per_gas tx base_fee_floor =
      min (priority_fee_or_price tx) (saturating_sub (max_fee_per_gas tx) base_fee_floor)

  -- The `match tx.to()` of `compute_priority`.
  unfoldable pub bid_component : Tx → PolicyConfig → Option ℕ → ℕ
  bid_component tx policy none = 0
  bid_component tx policy (some addr) =
      if addr == policy.gateway then Option.get_or (gateway_bid_amount tx) 0 else 0

  unfoldable pub compute_priority : Tx → PolicyConfig → ℕ
  unfolding bid_component
  compute_priority tx policy =
      let priority_fee = effective_priority_fee_per_gas tx policy.base_fee_floor_wei in
      let fee_component = saturating_mul priority_fee (gas_limit tx) in
      saturating_add fee_component (bid_component tx policy (to tx))
