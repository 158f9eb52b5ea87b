-- ===== src/Policy/Encoding/Slots.antt =====
-- The three kinds of priority, and the order in which the comment of src/policy.rs (lines 257 to
-- 267) wants them, without bits.
use magma_sidecar.Prelude.{ℕ, ◌<◌, ◌≤◌, ◌≡◌, ◌⊎◌}
use magma_sidecar.Word.{u256_mod, u128_mod}
use magma_sidecar.Policy.Encoding.{
  encode_tob_priority, encode_opportunity_priority, encode_backrun_bid_priority, backrun_id,
}

pub data Slot : Type 0 where
  tob : ℕ → Slot
  opportunity : ℕ → Slot
  backrun_bid : ℕ → ℕ → Slot

-- The priority that a slot is encoded to.
unfoldable pub priority_of : Slot → ℕ
priority_of (tob scalar) = encode_tob_priority scalar
priority_of (opportunity target) = encode_opportunity_priority target
priority_of (backrun_bid target scalar) = encode_backrun_bid_priority target scalar

-- Hashes are 256-bit, and a score fits the 128 bits that the layout gives it.
abbrev pub Fits : Slot → Type 0
Fits (tob scalar) = scalar < u128_mod
Fits (opportunity target) = target < u256_mod
Fits (backrun_bid target scalar) = (target < u256_mod) × (scalar < u128_mod)

-- The intended order. Lead-block bids stand above all groups, by score. Groups stand apart from
-- one another; in a group the target stands above the bids, and these go by score.
abbrev pub Below : Slot → Slot → Type 0
Below (tob s) (tob s') = s < s'
Below (tob s) (opportunity t') = ⊥
Below (tob s) (backrun_bid t' s') = ⊥
Below (opportunity t) (tob s') = Unit {0}
Below (opportunity t) (opportunity t') = backrun_id t < backrun_id t'
Below (opportunity t) (backrun_bid t' s') = backrun_id t < backrun_id t'
Below (backrun_bid t s) (tob s') = Unit {0}
Below (backrun_bid t s) (opportunity t') = backrun_id t ≤ backrun_id t'
Below (backrun_bid t s) (backrun_bid t' s') =
    (backrun_id t < backrun_id t') ⊎ ((backrun_id t ≡ backrun_id t') × (s < s'))
