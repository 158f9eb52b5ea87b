-- ===== src/Backrun/Origin.antt =====
-- Where the transactions that src/backrun.rs holds and re-injects come from.
pub mod Observe
use magma_sidecar.Prelude.{ℕ, ◌≡◌, ◌==◌, true, false, some, List, All, if◌then◌else◌}
use magma_sidecar.Prelude.Map
use magma_sidecar.Tx.{TxApi}
use magma_sidecar.Policy.Config.{PolicyConfig}
use magma_sidecar.Policy.Encoding.{
  encode_tob_priority, encode_opportunity_priority, encode_backrun_bid_priority,
}
use magma_sidecar.Policy.Score.{GatewayCall, is_tob, decode_gateway_call, compute_priority}
use magma_sidecar.Backrun.Pool.{PendingPool, PendingBid, CachedTx, Reinjection}
use magma_sidecar.Backrun.Queues.Holds.{Holds}
use magma_sidecar.Backrun.Observe.{is_gateway}

module _ {Tx : Type 0} (api : TxApi Tx) (policy : PolicyConfig) where
  -- A call of the gateway that bids to follow `target`.
  pub record BidsOn (target : ℕ) (tx : Tx) : Type 0 where
    pub call : GatewayCall
    pub bound : is_gateway api tx policy ≡ true
    pub decoded : decode_gateway_call api tx ≡ some call
    pub follows : is_tob call ≡ false
    pub aims : call.target_tx_hash ≡ target

  -- A parked bid, under its target. `Announced` says which transactions, with which hashes, the node
  -- announced by an insert.
  pub record IsBid (Announced : ℕ → Tx → Type 0) (target : ℕ) (b : PendingBid Tx) : Type 0 where
    pub announced : Announced b.hash b.tx
    pub bids : BidsOn target b.tx
    pub scored : b.scalar ≡ compute_priority api b.tx policy

module _ {Tx : Type 0} (api : TxApi Tx) (policy : PolicyConfig) (fallback : ℕ)
    (Announced : ℕ → Tx → Type 0) where
  -- A pool that holds announced transactions only, and parks bids only.
  abbrev pub FromNode : PendingPool Tx → Type 0
  FromNode p = Holds policy fallback (λ h c. Announced h c.tx) (IsBid api policy Announced) p

  -- Why a transaction is re-injected, and that its priority is the one for that: it is a lead-block
  -- bid, or somebody bids on it, or it is a bid on an announced target.
  pub data Justified (r : Reinjection Tx) : Type 0 where
    lead :
        (call : GatewayCall)
        → Announced r.hash r.tx
        → is_gateway api r.tx policy ≡ true
        → decode_gateway_call api r.tx ≡ some call
        → is_tob call ≡ true
        → r.priority ≡ (
            if compute_priority api r.tx policy == 0
            then fallback
            else encode_tob_priority (compute_priority api r.tx policy))
        → Justified r
    opportunity :
        (bid_hash : ℕ) (bid_tx : Tx)
        → Announced r.hash r.tx
        → Announced bid_hash bid_tx
        → BidsOn api policy r.hash bid_tx
        → r.priority ≡ encode_opportunity_priority r.hash
        → Justified r
    backrun :
        (target : ℕ) (target_tx : Tx)
        → Announced r.hash r.tx
        → Announced target target_tx
        → BidsOn api policy target r.tx
        → r.priority ≡ encode_backrun_bid_priority target (compute_priority api r.tx policy)
        → Justified r
