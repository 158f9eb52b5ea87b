-- ===== src/Policy/Encoding/Order.antt =====
-- The encoded priorities of src/policy.rs as sums of their fields, and their order.
use magma_sidecar.Prelude.{ℕ, ◌+◌, ◌*◌, ◌%◌, ◌^◌, ◌<◌, ◌≡◌, ◌↔◌, inl, inr, arith}
use magma_sidecar.Prelude.Bits.{bit_or_join, bit_and_low_bits}
use magma_sidecar.Word.{u256_mod, u128_mod, shr}
use magma_sidecar.Policy.Encoding.{
  encode_tob_priority, encode_opportunity_priority, encode_backrun_bid_priority, backrun_id,
}
use magma_sidecar.Policy.Encoding.Slots.{
  Slot, tob, opportunity, backrun_bid, priority_of, Fits, Below,
}

backrun_id-lt : (target : ℕ) → target < u256_mod → backrun_id target < 2 ^ 126
unfolding backrun_id
backrun_id-lt target h = omega arith

pub encode_tob_priority_lem : (scalar : ℕ) → encode_tob_priority scalar ≡ 2 ^ 255 + scalar % 2 ^ 128
unfolding encode_tob_priority
encode_tob_priority_lem scalar =
    rw (bit_and_low_bits 128 scalar) (bit_or_join 255 1 (scalar % 2 ^ 128) (omega arith))

module _ (target : ℕ) (within : target < u256_mod) where
  pub encode_opportunity_priority_lem :
      encode_opportunity_priority target ≡ backrun_id target * 2 ^ 129 + 2 ^ 128
  unfolding encode_opportunity_priority
  encode_opportunity_priority_lem =
      let fits : shr target 130 * 2 ^ 129 % u256_mod ≡ shr target 130 * 2 ^ 129 = omega arith in
      rw fits (bit_or_join 129 (shr target 130) (2 ^ 128) (omega arith))

  encode_backrun_bid_priority_lem :
      (scalar : ℕ)
      → encode_backrun_bid_priority target scalar ≡ backrun_id target * 2 ^ 129 + scalar % 2 ^ 128
  unfolding encode_backrun_bid_priority
  encode_backrun_bid_priority_lem scalar =
      let fits : shr target 130 * 2 ^ 129 % u256_mod ≡ shr target 130 * 2 ^ 129 = omega arith in
      rw (fits, bit_and_low_bits 128 scalar)
        (bit_or_join 129 (shr target 130) (scalar % 2 ^ 128) (omega arith))

-- What an encoded slot is worth.
abbrev worth : Slot → ℕ
worth (tob s) = 2 ^ 255 + s
worth (opportunity t) = backrun_id t * 2 ^ 129 + 2 ^ 128
worth (backrun_bid t s) = backrun_id t * 2 ^ 129 + s

priority_of-worth : (a : Slot) → Fits a → priority_of a ≡ worth a
unfolding priority_of
priority_of-worth (tob s) h = omega (arith, encode_tob_priority_lem s)
priority_of-worth (opportunity t) h = encode_opportunity_priority_lem t h
priority_of-worth (backrun_bid t s) h = omega (arith, encode_backrun_bid_priority_lem t h.0 s)

worth-lt : (a b : Slot) → Fits a → Fits b → Below a b → worth a < worth b
worth-lt (tob s) (tob s') h k l = omega arith
worth-lt (tob s) (opportunity t') h k l = absurd l
worth-lt (tob s) (backrun_bid t' s') h k l = absurd l
worth-lt (opportunity t) (tob s') h k l = omega (arith, backrun_id-lt t h)
worth-lt (opportunity t) (opportunity t') h k l = omega arith
worth-lt (opportunity t) (backrun_bid t' s') h k l = omega arith
worth-lt (backrun_bid t s) (tob s') h k l = omega (arith, backrun_id-lt t h.0)
worth-lt (backrun_bid t s) (opportunity t') h k l = omega arith
worth-lt (backrun_bid t s) (backrun_bid t' s') h k (inl l) = omega arith
worth-lt (backrun_bid t s) (backrun_bid t' s') h k (inr l) = omega arith

Below-of_worth : (a b : Slot) → Fits a → Fits b → worth a < worth b → Below a b
Below-of_worth (tob s) (tob s') h k l = omega arith
Below-of_worth (tob s) (opportunity t') h k l = omega (arith, backrun_id-lt t' k)
Below-of_worth (tob s) (backrun_bid t' s') h k l = omega (arith, backrun_id-lt t' k.0)
Below-of_worth (opportunity t) (tob s') h k l = tt
Below-of_worth (opportunity t) (opportunity t') h k l = omega arith
Below-of_worth (opportunity t) (backrun_bid t' s') h k l = omega arith
Below-of_worth (backrun_bid t s) (tob s') h k l = tt
Below-of_worth (backrun_bid t s) (opportunity t') h k l = omega arith
Below-of_worth (backrun_bid t s) (backrun_bid t' s') h k l = grind arith

-- For hashes of 256 bits and scores below 2 ^ 128, one encoded priority is below another exactly
-- when the intended order puts its slot below the other's: a lead-block bid is above every target
-- and backrun bid, the groups of different keys do not interleave, a target is above every bid of
-- its group, and bids of one group, like lead-block bids, are ordered by score.
pub priority_of-lt_iff :
    (a b : Slot) → Fits a → Fits b → (priority_of a < priority_of b) ↔ Below a b
priority_of-lt_iff a b h k =
    rw (priority_of-worth a h, priority_of-worth b k) (Below-of_worth a b h k, worth-lt a b h k)

-- For a target hash of 256 bits and any two scores, the target's priority and its bid's priority
-- both carry the target's key in bits 129 and up, bit 255 is set in a lead-block priority and
-- clear in the other two, bit 128 is set for the target and clear for the bid, and the low 128
-- bits of a bid and of a lead-block priority are the score modulo 2 ^ 128.
pub encoded_fields :
    (target scalar scalar' : ℕ)
    → target < u256_mod
    → (shr (encode_opportunity_priority target) 129 ≡ backrun_id target)
      × (shr (encode_backrun_bid_priority target scalar) 129 ≡ backrun_id target)
      × (shr (encode_tob_priority scalar') 255 ≡ 1)
      × (shr (encode_opportunity_priority target) 255 ≡ 0)
      × (shr (encode_backrun_bid_priority target scalar) 255 ≡ 0)
      × (shr (encode_opportunity_priority target) 128 % 2 ≡ 1)
      × (shr (encode_backrun_bid_priority target scalar) 128 % 2 ≡ 0)
      × (encode_tob_priority scalar' % 2 ^ 128 ≡ scalar' % 2 ^ 128)
      × (encode_backrun_bid_priority target scalar % 2 ^ 128 ≡ scalar % 2 ^ 128)
encoded_fields target scalar scalar' within =
    let opp = encode_opportunity_priority_lem target within in
    let bid = encode_backrun_bid_priority_lem target within scalar in
    let lead = encode_tob_priority_lem scalar' in
    let small = backrun_id-lt target within in omega arith

-- A score that is a positive multiple of 2 ^ 128 is larger than every score from 1 to 2 ^ 128 - 1,
-- and yet its lead-block priority is below theirs, and so is its priority as a backrun bid on the
-- same 256-bit target: the mask drops the high bits of a score and does not clamp it.
pub wide_score_ranks_last :
    (target wraps scalar : ℕ)
    → target < u256_mod
    → 0 < wraps
    → 0 < scalar
    → scalar < u128_mod
    → (scalar < wraps * 2 ^ 128)
      × (encode_tob_priority (wraps * 2 ^ 128) < encode_tob_priority scalar)
      × (encode_backrun_bid_priority target (wraps * 2 ^ 128)
          < encode_backrun_bid_priority target scalar)
wide_score_ranks_last target wraps scalar within h k l = omega (
  arith,
  encode_tob_priority_lem (wraps * 2 ^ 128),
  encode_tob_priority_lem scalar,
  encode_backrun_bid_priority_lem target within (wraps * 2 ^ 128),
  encode_backrun_bid_priority_lem target within scalar,
)
