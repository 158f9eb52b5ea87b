-- ===== src/Examples/Queues.antt =====
-- The queues of the pool, from sample bids.
use magma_sidecar.Prelude.{ℕ, ◌+◌, ◌-◌, ◌≡◌, ◌⊎◌, ◌≤◌, false, none, length, contains}
use magma_sidecar.Prelude.Map
use magma_sidecar.Backrun.Pool.{PendingPool, PendingBid}
use magma_sidecar.Backrun.Queues.{push_pending, prune, forget}
use magma_sidecar.Backrun.Queues.Frames.{SameCache}
use magma_sidecar.Backrun.Queues.Cache.{IsCacheValid}
use magma_sidecar.Backrun.Queues.Parked.{IsParked, parked}
use magma_sidecar.Backrun.Queues.Parked.Bid.{copies}
use magma_sidecar.Backrun.Queues.Parked.Forget.{forget-IsParkedValid}
use magma_sidecar.Backrun.Queues.Evict.{IsParkedValid, push_pending-IsParkedValid}
use magma_sidecar.Backrun.Observe.{observe_at}
use magma_sidecar.Backrun.Invariant.{IsValid, new_pool-IsValid, observe_at-IsValid, prune-IsValid}
use magma_sidecar.Examples.{SampleTx, sample_api, sample_policy, sample_pool, gateway_tx}

empty-IsValid : IsValid sample_pool
empty-IsValid = (new_pool-IsValid sample_policy 0xffff 2500 4 4).0

-- A bid parked twice, for two targets.
abbrev once : PendingPool SampleTx
once = (observe_at sample_api 11 (gateway_tx 7 9) 100 sample_pool).0

abbrev twice : PendingPool SampleTx
twice = (observe_at sample_api 11 (gateway_tx 7 10) 200 once).0

twice-IsValid : IsValid twice
twice-IsValid =
    observe_at-IsValid sample_api 11 (gateway_tx 7 10) 200 once
      (observe_at-IsValid sample_api 11 (gateway_tx 7 9) 100 sample_pool empty-IsValid)

-- The same bid is the target of another one.
abbrev thrice : PendingPool SampleTx
thrice = (observe_at sample_api 12 (gateway_tx 3 11) 300 twice).0

thrice-IsValid : IsValid thrice
thrice-IsValid = observe_at-IsValid sample_api 12 (gateway_tx 3 11) 300 twice twice-IsValid

forget-IsParkedValid_example :
    IsCacheValid (forget 11 thrice)
    × IsParked (forget 11 thrice).pending_order (forget 11 thrice)
    × (Map.contains_key 11 (forget 11 thrice).cache ≡ false)
    × (contains 11 (forget 11 thrice).streamed_targets ≡ false)
    × (Map.get 11 (forget 11 thrice).pending ≡ none)
    × ((k j : ℕ)
        → (k ≡ 11)
          ⊎ ((j ≡ 11) ⊎ (parked k j (forget 11 thrice).pending ≡ parked k j thrice.pending)))
    × (copies 11 (forget 11 thrice).pending ≡ copies 11 (Map.remove 11 thrice.pending) - 1)
    × ((forget 11 thrice).pending_count ≤ thrice.pending_count)
    × (((forget 11 thrice).max_cache_entries ≡ thrice.max_cache_entries)
        × ((forget 11 thrice).max_pending_entries ≡ thrice.max_pending_entries))
    × (length (forget 11 thrice).cache ≤ length thrice.cache)
forget-IsParkedValid_example =
    forget-IsParkedValid 11 thrice thrice-IsValid.cache thrice-IsValid.parked

prune-IsValid_example :
    IsValid (prune 9000 twice).0
    × ((prune 9000 twice).0.pending_count + (prune 9000 twice).1 ≡ twice.pending_count)
prune-IsValid_example = prune-IsValid 9000 twice twice-IsValid

abbrev third_bid : PendingBid SampleTx
third_bid = record { hash = 12; tx = gateway_tx 3 9; scalar = 23; target = 9; seen_at = 300 }

push_pending-IsParkedValid_example :
    IsParkedValid (push_pending third_bid twice).0
    × ((push_pending third_bid twice).0.pending_count ≤ twice.max_pending_entries)
    × ((push_pending third_bid twice).0.pending_count + (push_pending third_bid twice).1
        ≡ twice.pending_count + 1)
    × SameCache twice (push_pending third_bid twice).0
push_pending-IsParkedValid_example = push_pending-IsParkedValid third_bid twice twice-IsValid.parked
