-- ===== src/Policy/Config.antt =====
-- src/policy.rs, lines 73-180: the networks, their compiled-in gateways and the policy built from
-- them.
use Prim.Native.String.{String}
use magma_sidecar.Prelude.{ℕ, Bool, ◌==◌}

pub data Network : Type 0 where
  mainnet testnet localnet : Network

-- `Network::gateway`.
unfoldable pub network_gateway : Network → ℕ
network_gateway mainnet = 0xe0232Cf5ee0c6d79118498c29a267D80881011C5
network_gateway testnet = 0x21615eDffD849eEd1C08e780032Da3bCd1003CD3
network_gateway localnet = 0xe7f1725e7734ce288f8367e1bb143e90bb3f0512

-- `Network::base_fee_floor_wei`.
unfoldable pub network_base_fee_floor_wei : Network → ℕ
network_base_fee_floor_wei mainnet = 0
network_base_fee_floor_wei testnet = 0
network_base_fee_floor_wei localnet = 0

-- `Network::as_str`.
abbrev pub as_str : Network → String
as_str mainnet = "mainnet"
as_str testnet = "testnet"
as_str localnet = "localnet"

pub record PolicyConfig : Type 0 where
  pub gateway : ℕ
  pub base_fee_floor_wei : ℕ

-- `Address::ZERO`.
abbrev pub zero_address : ℕ
zero_address = 0

unfoldable pub for_network : Network → PolicyConfig
unfolding network_gateway network_base_fee_floor_wei
for_network network = record {
  gateway = network_gateway network;
  base_fee_floor_wei = network_base_fee_floor_wei network;
}

unfoldable pub is_allowlisted_gateway : PolicyConfig → ℕ → Bool
is_allowlisted_gateway policy addr = addr == policy.gateway

unfoldable pub gateway_is_unset : PolicyConfig → Bool
gateway_is_unset policy = policy.gateway == zero_address
