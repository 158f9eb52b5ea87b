-- ===== src/Tx.antt =====
-- What the code takes from alloy: the accessors of `TxEnvelope` (alloy-consensus) and what the
-- `sol!` block of src/policy.rs generates for `magmaSearcherGatewayCall` (alloy-sol-types).
-- Addresses and hashes are the numbers that their big-endian bytes stand for.
use magma_sidecar.Prelude.{ℕ, ◌<◌, ◌≡◌, Bool, Option, some, List}
use magma_sidecar.Word.{u64_mod, u128_mod, u256_mod}

-- The arguments of `magmaSearcherGatewayCall`.
pub record MagmaSearcherGatewayCall : Type 0 where
  pub sender : ℕ
  pub bid_amount : ℕ
  pub target_block_number : ℕ
  pub target_tx_hash : ℕ
  pub require_exclusive_slot : Bool
  pub searcher_contract : ℕ
  pub searcher_call_data : List ℕ

-- The operations on a transaction type `Tx` that the sidecar calls.
pub record TxApi (Tx : Type 0) : Type 0 where
  pub to : Tx → Option ℕ
  pub input : Tx → List ℕ
  pub gas_limit : Tx → ℕ
  pub priority_fee_or_price : Tx → ℕ
  pub max_fee_per_gas : Tx → ℕ
  pub selector : List ℕ
  pub abi_decode_raw : List ℕ → Option MagmaSearcherGatewayCall

-- The widths of what these operations return.
pub record IsTxApi {Tx : Type 0} (api : TxApi Tx) : Type 0 where
  pub gas_limit-lt : (tx : Tx) → api.gas_limit tx < u64_mod
  pub priority_fee-lt : (tx : Tx) → api.priority_fee_or_price tx < u128_mod
  pub max_fee-lt : (tx : Tx) → api.max_fee_per_gas tx < u128_mod
  pub bid_amount-lt :
      (bytes : List ℕ) (call : MagmaSearcherGatewayCall)
      → api.abi_decode_raw bytes ≡ some call
      → call.bid_amount < u256_mod
  pub target-lt :
      (bytes : List ℕ) (call : MagmaSearcherGatewayCall)
      → api.abi_decode_raw bytes ≡ some call
      → call.target_tx_hash < u256_mod
