-- ===== src/Policy/Encoding.antt =====
-- src/policy.rs, lines 249-322: the layout of the 256-bit priority.
use Prim.Native.Nat.{bit_and, bit_or}
pub mod Slots
pub mod Order
pub mod Seat
use magma_sidecar.Prelude.{ℕ, ◌-◌}
use magma_sidecar.Word.{shl, shr}

abbrev tob_marker_bit : ℕ
tob_marker_bit = 255

abbrev opportunity_marker_bit : ℕ
opportunity_marker_bit = 128

abbrev group_key_shift : ℕ
group_key_shift = 129

abbrev backrun_id_bits : ℕ
backrun_id_bits = 126

low_128_mask : ℕ
low_128_mask = shl 1 128 - 1

pub encode_tob_priority : ℕ → ℕ
unfolding low_128_mask
encode_tob_priority scalar = bit_or (shl 1 tob_marker_bit) (bit_and scalar low_128_mask)

unfoldable pub backrun_id : ℕ → ℕ
backrun_id target = shr target (256 - backrun_id_bits)

pub encode_opportunity_priority : ℕ → ℕ
unfolding backrun_id
encode_opportunity_priority target =
    bit_or (shl (backrun_id target) group_key_shift) (shl 1 opportunity_marker_bit)

pub encode_backrun_bid_priority : ℕ → ℕ → ℕ
unfolding backrun_id low_128_mask
encode_backrun_bid_priority target scalar =
    bit_or (shl (backrun_id target) group_key_shift) (bit_and scalar low_128_mask)
