-- ===== src/Startup/Guard.antt =====
-- The startup guard and the constants of src/main.rs.
use magma_sidecar.Prelude.{ℕ, ◌<◌, ◌≡◌, ◌≢◌, refl, inl, inr, some, arith, if◌then◌else◌}
use magma_sidecar.Word.{u256_mod}
use magma_sidecar.Tx.{TxApi}
use magma_sidecar.Policy.Config.{
  Network, mainnet, testnet, localnet, network_gateway, gateway_is_unset, for_network, PolicyConfig,
  zero_address,
}
use magma_sidecar.Policy.Encoding.{encode_tob_priority, encode_opportunity_priority}
use magma_sidecar.Policy.Encoding.Order.{encode_tob_priority_lem, encode_opportunity_priority_lem}
use magma_sidecar.Startup.{Config, startup, priority_mode, refusal, fallback_priority}

-- No configuration is refused: every network of this build has a gateway, and the gateway is the one
-- address that the policy allows.
pub startup_accepts : (config : Config) → startup config ≡ inr (priority_mode config)
unfolding startup gateway_is_unset for_network network_gateway
startup_accepts config = by_network config.network
  where
    by_network :
        (network : Network)
        → (if gateway_is_unset (for_network network)
            then inl (refusal config.network)
            else inr (priority_mode config))
          ≡ inr (priority_mode config)
    by_network mainnet = refl
    by_network testnet = refl
    by_network localnet = refl

module _ {Tx : Type 0} (api : TxApi Tx) (policy : PolicyConfig) where
  -- No transaction is sent to the zero address.
  abbrev pub NotToZero : ℕ → Tx → Type 0
  NotToZero hash tx = api.to tx ≢ some zero_address

-- The fallback of a lead-block bid without a score is below the encoded priority of every
-- lead-block score and of every target with a 256-bit hash.
pub fallback_below :
    (scalar target : ℕ)
    → target < u256_mod
    → (fallback_priority < encode_tob_priority scalar)
      × (fallback_priority < encode_opportunity_priority target)
fallback_below scalar target within =
    omega (arith, encode_tob_priority_lem scalar, encode_opportunity_priority_lem target within)
