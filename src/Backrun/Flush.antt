-- ===== src/Backrun/Flush.antt =====
-- `observe_at` (src/backrun.rs) of a target that parked bids wait for.
use magma_sidecar.Prelude.{
  ℕ, ◌+◌, ◌≤◌, ◌≡◌, ap, ◌∙◌, false, none, some, List, ◌++◌, length, map, arith, if◌then◌else◌, ◌==◌,
}
use magma_sidecar.Prelude.Map
use magma_sidecar.Tx.{TxApi}
use magma_sidecar.Backrun.Pool.{PendingPool, PendingBid}
use magma_sidecar.Backrun.Queues.{insert_cache}
use magma_sidecar.Backrun.Queues.Cache.{insert_cache-IsCacheValid}
use magma_sidecar.Backrun.Queues.Parked.Take.{get-total-le}
use magma_sidecar.Backrun.Invariant.{IsValid}
use magma_sidecar.Backrun.Observe.{is_gateway, observe_at}
use magma_sidecar.Backrun.Observe.Branches.{opportunity, flushed_bid, observe_other_target}
use magma_sidecar.Backrun.Observe.Cases.{observe_at_other}

-- In a valid pool, a transaction that is not for the gateway and for which bids are parked: it goes
-- out first, if it is cached and was not streamed before, and then every bid parked for it, in the
-- order in which they were parked, each with its own score in the target's group. Each bid counts as
-- a pair, the bids are no longer parked and no longer counted, and those for other targets stay.
pub observe_at_target :
    {Tx : Type 0} (api : TxApi Tx) (hash : ℕ) (tx : Tx) (now : ℕ) (p : PendingPool Tx)
    (bids : List (PendingBid Tx))
    → IsValid p
    → is_gateway api tx p.policy ≡ false
    → Map.get hash p.pending ≡ some bids
    → let (q, res) = observe_at api hash tx now p in
      (res.reinjections
        ≡ opportunity hash (insert_cache hash tx now p) ++ map (flushed_bid hash) bids)
      × (res.pairs_matched ≡ length bids)
      × (q.pending_count + length bids ≡ p.pending_count)
      × ((other : ℕ)
          → Map.get other q.pending ≡ (if hash == other then none else Map.get other p.pending))
observe_at_target api hash tx now p bids v away held =
    let (_, _, same) = insert_cache-IsCacheValid hash tx now p v.cache in
    let cached = insert_cache hash tx now p in
    let room : length bids ≤ p.pending_count =
      omega (arith, v.parked.counted, get-total-le hash bids p.pending held) in
    let e =
      observe_at_other api hash tx now p (rw same.policy away)
      ∙ observe_other_target hash bids cached (rw same.pending held)
          (omega (arith, same.pending_count, room)) in
    (
      ap (λ r. r.1.reinjections) e,
      ap (λ r. r.1.pairs_matched) e,
      ap (λ r. r.0.pending_count + length bids) e ∙ omega (arith, same.pending_count, room),
      λ other.
          ap (λ r. Map.get other r.0.pending) e
          ∙ Map.get-remove hash other cached.pending
          ∙ ap (λ m. if hash == other then none else Map.get other m) same.pending,
    )
