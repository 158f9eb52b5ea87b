-- ===== src/Examples.antt =====
-- Sample transactions, and the properties at concrete inputs.
mod Scoring
mod Pairing
mod Arrivals
mod Expiry
mod Queues
mod Ipc
mod Runs
mod Echoes
mod Outage
mod UnitTests
mod PolicyTests
mod Startup
mod Requests
use magma_sidecar.Prelude.{
  ℕ, ◌%◌, ◌<◌, ◌≡◌, refl, ap, false, Option, none, some, List, [], ◌∷◌, ◌++◌, arith,
}
use magma_sidecar.Word.{u64_mod, u128_mod, u256_mod}
use magma_sidecar.Tx.{TxApi, IsTxApi, MagmaSearcherGatewayCall}
use magma_sidecar.Policy.Config.{PolicyConfig}
use magma_sidecar.Backrun.Pool.{PendingPool, PendingBid, new_pool}

record SampleTx : Type 0 where
  dest : Option ℕ
  data_bytes : List ℕ
  gas : ℕ
  tip : ℕ
  max_fee : ℕ

abbrev sample_call : ℕ → ℕ → MagmaSearcherGatewayCall
sample_call amount target = record {
  sender = 1;
  bid_amount = amount % u256_mod;
  target_block_number = 0;
  target_tx_hash = target % u256_mod;
  require_exclusive_slot = false;
  searcher_contract = 2;
  searcher_call_data = [];
}

-- A decoder that reads an amount and a target, one number each.
abbrev sample_decode : List ℕ → Option MagmaSearcherGatewayCall
sample_decode [] = none
sample_decode (amount ∷ []) = none
sample_decode (amount ∷ target ∷ []) = some (sample_call amount target)
sample_decode (amount ∷ target ∷ more ∷ rest) = none

abbrev sample_api : TxApi SampleTx
sample_api = record {
  to = λ tx. tx.dest;
  input = λ tx. tx.data_bytes;
  gas_limit = λ tx. tx.gas % u64_mod;
  priority_fee_or_price = λ tx. tx.tip % u128_mod;
  max_fee_per_gas = λ tx. tx.max_fee % u128_mod;
  selector = 0xde ∷ 0xad ∷ 0xbe ∷ 0xef ∷ [];
  abi_decode_raw = sample_decode;
}

sample_decode_bounds :
    (bytes : List ℕ) (call : MagmaSearcherGatewayCall)
    → sample_decode bytes ≡ some call
    → (call.bid_amount < u256_mod) × (call.target_tx_hash < u256_mod)
sample_decode_bounds [] call e = absurd (ground (arith, e))
sample_decode_bounds (amount ∷ []) call e = absurd (ground (arith, e))
sample_decode_bounds (amount ∷ target ∷ []) call e = ground (arith, e)
sample_decode_bounds (amount ∷ target ∷ more ∷ rest) call e = absurd (ground (arith, e))

sample_api-IsTxApi : IsTxApi sample_api
sample_api-IsTxApi = record {
  gas_limit-lt = λ tx. omega arith;
  priority_fee-lt = λ tx. omega arith;
  max_fee-lt = λ tx. omega arith;
  bid_amount-lt = λ bytes call e. (sample_decode_bounds bytes call e).0;
  target-lt = λ bytes call e. (sample_decode_bounds bytes call e).1;
}

abbrev sample_policy : PolicyConfig
sample_policy = record { gateway = 500; base_fee_floor_wei = 3 }

-- A call of the gateway, and a transaction for somebody else.
abbrev gateway_tx : ℕ → ℕ → SampleTx
gateway_tx amount target = record {
  dest = some 500;
  data_bytes = 0xde ∷ 0xad ∷ 0xbe ∷ 0xef ∷ amount ∷ target ∷ [];
  gas = 10;
  tip = 2;
  max_fee = 9;
}

abbrev plain_tx : SampleTx
plain_tx = record { dest = some 8; data_bytes = []; gas = 21; tip = 2; max_fee = 9 }

-- A call of the gateway that does not decode, and pays nothing.
abbrev garbled_tx : SampleTx
garbled_tx = record { dest = some 500; data_bytes = 1 ∷ []; gas = 21; tip = 0; max_fee = 9 }

abbrev sample_pool : PendingPool SampleTx
sample_pool = new_pool sample_policy 0xffff 2500 4 4
