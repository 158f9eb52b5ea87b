-- ===== src/Examples/Arrivals.antt =====
-- A target among three bids on it.
use magma_sidecar.Prelude.{ℕ, ◌≡◌, refl, [], ◌∷◌, map, arith}
use magma_sidecar.Policy.Config.{is_allowlisted_gateway}
use magma_sidecar.Policy.Score.{decode_gateway_call, is_tob}
use magma_sidecar.Backrun.Pool.{new_pool}
use magma_sidecar.Backrun.Invariant.{new_pool-IsValid}
use magma_sidecar.Backrun.Origin.{BidsOn}
use magma_sidecar.Backrun.Observe.{is_gateway}
use magma_sidecar.Backrun.Arrival.{Arrival, observe_all, bid_frame, target_frame}
use magma_sidecar.Backrun.Arrival.Order.{target_arrival, observe_all_in_any_order}
use magma_sidecar.Examples.{SampleTx, sample_api, sample_policy, sample_pool, gateway_tx, plain_tx}

abbrev sample_bid : ℕ → ℕ → ℕ → Arrival SampleTx
sample_bid hash amount now = record { hash = hash; tx = gateway_tx amount 9; now = now }

sample-BidsOn-7 : BidsOn sample_api sample_policy 9 (gateway_tx 7 9)
unfolding is_gateway decode_gateway_call is_tob is_allowlisted_gateway
sample-BidsOn-7 = record {
  call = record { bid_amount = 7; target_tx_hash = 9 };
  bound = refl;
  decoded = refl;
  follows = refl;
  aims = refl;
}

sample-BidsOn-8 : BidsOn sample_api sample_policy 9 (gateway_tx 8 9)
unfolding is_gateway decode_gateway_call is_tob is_allowlisted_gateway
sample-BidsOn-8 = record {
  call = record { bid_amount = 8; target_tx_hash = 9 };
  bound = refl;
  decoded = refl;
  follows = refl;
  aims = refl;
}

-- Two bids before the target, and one after it.
observe_all_in_any_order_example :
    let (q, sent, pairs) =
      observe_all sample_api
        (sample_bid 11 7 100
          ∷ sample_bid 12 8 110
          ∷ target_arrival sample_api sample_policy 9 plain_tx 120
          ∷ sample_bid 13 7 130
          ∷ [])
        sample_pool in
    (sent
      ≡ target_frame 9 plain_tx
        ∷ map
            (bid_frame sample_api sample_policy 9)
            (sample_bid 11 7 100 ∷ sample_bid 12 8 110 ∷ sample_bid 13 7 130 ∷ []))
    × (pairs ≡ 3)
    × (q.pending_count ≡ 0)
unfolding new_pool is_gateway is_allowlisted_gateway
observe_all_in_any_order_example =
    observe_all_in_any_order sample_api sample_policy 9 plain_tx
      (sample_bid 11 7 100 ∷ sample_bid 12 8 110 ∷ []) (sample_bid 13 7 130 ∷ []) 120 sample_pool
      (new_pool-IsValid sample_policy 0xffff 2500 4 4).0 refl refl
      ((sample-BidsOn-7, omega arith), ((sample-BidsOn-8, omega arith), tt))
      ((sample-BidsOn-7, omega arith), tt) refl refl (omega arith) (omega arith)
