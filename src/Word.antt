-- ===== src/Word.antt =====
-- The machine integers of the code as native numbers: `U256` (alloy-primitives), `u128`, `u64` and
-- `usize`. A shift drops what leaves 256 bits; a saturating operation stops at the largest value.
use magma_sidecar.Prelude.{ℕ, ◌+◌, ◌-◌, ◌*◌, ◌/◌, ◌%◌, ◌^◌, min, leb, if◌then◌else◌}

abbrev pub u64_mod : ℕ
u64_mod = 2 ^ 64

abbrev pub u128_mod : ℕ
u128_mod = 2 ^ 128

abbrev pub u256_mod : ℕ
u256_mod = 2 ^ 256

-- `<<` and `>>` on `U256`.
abbrev pub shl : ℕ → ℕ → ℕ
shl x n = x * 2 ^ n % u256_mod

abbrev pub shr : ℕ → ℕ → ℕ
shr x n = x / 2 ^ n

-- `U256::saturating_mul` and `U256::saturating_add`.
abbrev pub saturating_mul : ℕ → ℕ → ℕ
saturating_mul a b = min (a * b) (u256_mod - 1)

abbrev pub saturating_add : ℕ → ℕ → ℕ
saturating_add a b = min (a + b) (u256_mod - 1)

-- `u128::saturating_sub`: subtraction on ℕ stops at 0 as well.
abbrev pub saturating_sub : ℕ → ℕ → ℕ
saturating_sub a b = a - b

-- `-=` on `usize`, as a release build runs it: below zero it wraps.
abbrev pub wrapping_sub_usize : ℕ → ℕ → ℕ
wrapping_sub_usize a b = if leb b a then a - b else a + u64_mod - b

-- `usize::saturating_mul`.
abbrev pub saturating_mul_usize : ℕ → ℕ → ℕ
saturating_mul_usize a b = min (a * b) (u64_mod - 1)
