-- ===== src/TxpoolIpc/Loop/Ranked.antt =====
-- How the priorities of the frames that src/txpool_ipc.rs sends compare with one another.
use magma_sidecar.Prelude.{
  ℕ, ◌<◌, ◌≡◌, ◌↔◌, ◌⊎◌, inl, inr, true, ◌==◌, some, List, All, All-map, Bool-cases, arith,
}
use magma_sidecar.Word.{u256_mod, u128_mod}
use magma_sidecar.Tx.{TxApi}
use magma_sidecar.Policy.Config.{PolicyConfig}
use magma_sidecar.Policy.Score.{GatewayCall, is_tob, decode_gateway_call, compute_priority}
use magma_sidecar.Policy.Encoding.Slots.{
  Slot, tob, opportunity, backrun_bid, priority_of, Fits, Below,
}
use magma_sidecar.Policy.Encoding.Order.{priority_of-lt_iff}
use magma_sidecar.Backrun.Observe.{is_gateway}
use magma_sidecar.Backrun.Origin.{BidsOn, Justified}
use magma_sidecar.Metrics.{Metrics}
use magma_sidecar.TxpoolIpc.Event.{EthTxPoolIpcTx}
use magma_sidecar.TxpoolIpc.Loop.{PriorityMode, Attempt, run_attempts, start}
use magma_sidecar.TxpoolIpc.Loop.Delivery.{Delivers}
use magma_sidecar.TxpoolIpc.Loop.Origin.{JustifiedFrame, run_attempts-Justified}

module _ {Tx : Type 0} (api : TxApi Tx) (policy : PolicyConfig) where
  -- A call of the gateway that names no target.
  pub record IsLead (tx : Tx) : Type 0 where
    pub call : GatewayCall
    pub bound : is_gateway api tx policy ≡ true
    pub decoded : decode_gateway_call api tx ≡ some call
    pub leads : is_tob call ≡ true

  -- The slot that a frame has by its transaction: the score of a lead-block bid, the hash that some
  -- bid follows, or the target and the score of a backrun bid.
  pub data HasSlot (f : ℕ × EthTxPoolIpcTx Tx) : Slot → Type 0 where
    lead_slot : IsLead f.1.tx → HasSlot f (tob (compute_priority api f.1.tx policy))
    target_slot : (bid : Tx) → BidsOn api policy f.0 bid → HasSlot f (opportunity f.0)
    bid_slot :
        (target : ℕ)
        → BidsOn api policy target f.1.tx
        → HasSlot f (backrun_bid target (compute_priority api f.1.tx policy))

module _ {Tx : Type 0} (api : TxApi Tx) (policy : PolicyConfig) (fallback : ℕ)
    (Announced : ℕ → Tx → Type 0) where
  -- Announced hashes have 256 bits, and announced transactions score below 2 ^ 128.
  abbrev pub Sized : Type 0
  Sized =
      (hash : ℕ) (tx : Tx)
      → Announced hash tx
      → (hash < u256_mod) × (compute_priority api tx policy < u128_mod)

  -- A lead-block bid without a score, which has the fallback.
  abbrev pub Unscored : ℕ × EthTxPoolIpcTx Tx → Type 0
  Unscored f =
      IsLead api policy f.1.tx
      × (compute_priority api f.1.tx policy ≡ 0)
      × (f.1.priority ≡ fallback)

  -- A frame with its slot and the priority of it.
  record Placed (f : ℕ × EthTxPoolIpcTx Tx) : Type 0 where
    slot : Slot
    has : HasSlot api policy f slot
    fits : Fits slot
    encoded : f.1.priority ≡ priority_of slot

  frame-Placed :
      Sized
      → (f : ℕ × EthTxPoolIpcTx Tx) → JustifiedFrame api policy fallback Announced f
      → Unscored f ⊎ Placed f
  unfolding priority_of
  frame-Placed sized f (Justified.lead call announced bound decoded leads e, plain) =
      let lead : IsLead api policy f.1.tx = record {
        call = call;
        bound = bound;
        decoded = decoded;
        leads = leads;
      } in
      elim (Bool-cases (compute_priority api f.1.tx policy == 0)) [
        | inl zero_score ↦ inl (lead, ground (arith, zero_score), rw zero_score at e)
        | inr scored ↦ inr (record {
          slot = tob (compute_priority api f.1.tx policy);
          has = lead_slot lead;
          fits = (sized f.0 f.1.tx announced).1;
          encoded = rw scored at e;
        })
      ]
  frame-Placed sized f (Justified.opportunity h bid announced bidden bids e, plain) = inr (record {
    slot = opportunity f.0;
    has = target_slot bid bids;
    fits = (sized f.0 f.1.tx announced).0;
    encoded = e;
  })
  frame-Placed sized f (Justified.backrun t tx announced there bids e, plain) = inr (record {
    slot = backrun_bid t (compute_priority api f.1.tx policy);
    has = bid_slot t bids;
    fits = ((sized t tx there).0, (sized f.0 f.1.tx announced).1);
    encoded = e;
  })

  -- Two frames, each with the priority of its slot, whose priorities compare as the slots do.
  pub record Compared (f g : ℕ × EthTxPoolIpcTx Tx) : Type 0 where
    pub slot : Slot
    pub other : Slot
    pub has : HasSlot api policy f slot
    pub other_has : HasSlot api policy g other
    pub encoded : f.1.priority ≡ priority_of slot
    pub other_encoded : g.1.priority ≡ priority_of other
    pub ordered : (f.1.priority < g.1.priority) ↔ Below slot other

  -- Two frames compare so, unless one of them is a lead-block bid without a score.
  abbrev pub Ranked : ℕ × EthTxPoolIpcTx Tx → ℕ × EthTxPoolIpcTx Tx → Type 0
  Ranked f g = Unscored f ⊎ (Unscored g ⊎ Compared f g)

  Placed-Ranked :
      (f g : ℕ × EthTxPoolIpcTx Tx) → Unscored f ⊎ Placed f → Unscored g ⊎ Placed g → Ranked f g
  Placed-Ranked f g (inl u) k = inl u
  Placed-Ranked f g (inr a) (inl u) = inr (inl u)
  Placed-Ranked f g (inr a) (inr b) = inr (
      inr (record {
        slot = a.slot;
        other = b.slot;
        has = a.has;
        other_has = b.has;
        encoded = a.encoded;
        other_encoded = b.encoded;
        ordered = rw (a.encoded, b.encoded) (priority_of-lt_iff a.slot b.slot a.fits b.fits);
      }))

-- Started in any mode and with any metrics, over any connections whose inserts all satisfy
-- `Announced`, where announced hashes have 256 bits and announced transactions score below 2 ^ 128:
-- take any two frames on the wire of which neither is a lead-block bid with a score of zero, which has
-- the fallback. Their priorities then compare as intended, by what the transactions are: a lead-block
-- bid by its score and above everything else, the groups of different keys apart from each other, a
-- target above the bids on it, and the bids of one group by their scores.
pub run_attempts-Ranked :
    {Tx : Type 0} (api : TxApi Tx) (Announced : ℕ → Tx → Type 0) (mode : PriorityMode)
    (metrics : Metrics) (attempts : List (Attempt Tx))
    → Sized api mode.policy mode.fallback Announced
    → Delivers Announced attempts
    → let wire = (run_attempts api attempts (start api mode metrics)).0.wire in
      All (λ f. All (Ranked api mode.policy mode.fallback Announced f) wire) wire
run_attempts-Ranked api Announced mode metrics attempts sized delivered =
    let wire = (run_attempts api attempts (start api mode metrics)).0.wire in
    let placed =
      All-map _ _ wire (frame-Placed api mode.policy mode.fallback Announced sized)
        (run_attempts-Justified api Announced mode metrics attempts delivered) in
    All-map _ _ wire (λ f a. All-map _ _ wire (λ g b. Placed-Ranked _ _ _ _ f g a b) placed) placed
