-- ===== src/Backrun/Expire.antt =====
-- Which parked bids survive `prune` (src/backrun.rs).
use magma_sidecar.Prelude.{ℕ, ◌≡◌, subst, sym, ◌∙◌}
use magma_sidecar.Backrun.Pool.{PendingPool}
use magma_sidecar.Backrun.Queues.{prune, prune_cache}
use magma_sidecar.Backrun.Queues.Expiry.{prune_cache-IsQueued}
use magma_sidecar.Backrun.Queues.Search.{parked_at, waiting}
use magma_sidecar.Backrun.Queues.Overdue.{Once, Ascending, unexpired, prune_pending_lem}
use magma_sidecar.Backrun.Invariant.{IsValid, move-IsParked}

-- From a valid pool in whose queue of parked bids no pair of target and bid stands twice, and in which
-- the bids of that queue that are still parked stand in the order of their times: pruning drops exactly
-- the expired bids. Whatever target and hash are asked for after it, the bid found is the one found
-- before, if its age is below the time to live, and none otherwise.
pub prune_expires :
    {Tx : Type 0} (now : ℕ) (p : PendingPool Tx) (t h : ℕ)
    → IsValid p
    → Once p.pending_order
    → Ascending (waiting p.pending_order p.pending)
    → parked_at t h (prune now p).0.pending ≡ unexpired now p.ttl (parked_at t h p.pending)
unfolding prune
prune_expires now p t h v once asc =
    let q = prune_cache now p.cache_order p in
    let (cached, same, fewer) = prune_cache-IsQueued now p.cache_order p v.cache in
    prune_pending_lem now q.pending_order 0 q t h (move-IsParked p q same v.parked)
      (subst Once (sym same.pending_order) once) (rw (same.pending_order, same.pending) asc)
    ∙ (λ i. unexpired now (same.ttl i) (parked_at t h (same.pending i)))
