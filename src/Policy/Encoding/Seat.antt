-- ===== src/Policy/Encoding/Seat.antt =====
-- What the layout of src/policy.rs lets stand between a target and a bid on it.
use magma_sidecar.Prelude.{ℕ, ◌<◌, ◌≡◌, inl, inr, sym, arith}
use magma_sidecar.Word.{u256_mod, u128_mod}
use magma_sidecar.Policy.Encoding.{backrun_id}
use magma_sidecar.Policy.Encoding.Slots.{
  Slot, tob, opportunity, backrun_bid, priority_of, Fits, Below,
}
use magma_sidecar.Policy.Encoding.Order.{priority_of-lt_iff}

-- A bid of the group of `target` with a score above `scalar`.
pub data Outbids (target scalar : ℕ) : Slot → Type 0 where
  better_bid :
      (target' scalar' : ℕ)
      → backrun_id target' ≡ backrun_id target
      → scalar < scalar'
      → Outbids target scalar (backrun_bid target' scalar')

between-Outbids :
    (target scalar : ℕ) (a : Slot)
    → Below (backrun_bid target scalar) a
    → Below a (opportunity target)
    → Outbids target scalar a
between-Outbids target scalar (tob s) above below = absurd below
between-Outbids target scalar (opportunity t) above below = absurd (omega (arith, above, below))
between-Outbids target scalar (backrun_bid t s) (inl apart) below =
    absurd (omega (arith, apart, below))
between-Outbids target scalar (backrun_bid t s) (inr (same, more)) below =
    better_bid t s (sym same) more

-- For a 256-bit target and scores below 2 ^ 128, every priority strictly between that of a bid and
-- that of its target is the priority of a bid of the same group with a larger score: no lead-block
-- bid, no other target and no bid of another group comes between them.
pub priority_of-Outbids :
    (target scalar : ℕ) (a : Slot)
    → target < u256_mod
    → scalar < u128_mod
    → Fits a
    → priority_of (backrun_bid target scalar) < priority_of a
    → priority_of a < priority_of (opportunity target)
    → Outbids target scalar a
priority_of-Outbids target scalar a within fits h above below =
    between-Outbids target scalar a
      ((priority_of-lt_iff (backrun_bid target scalar) a (within, fits) h).0 above)
      ((priority_of-lt_iff a (opportunity target) h within).0 below)
