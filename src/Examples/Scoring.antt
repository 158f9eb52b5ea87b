-- ===== src/Examples/Scoring.antt =====
-- Scores and priorities of sample transactions.
use magma_sidecar.Prelude.{
  ◌≤◌, ℕ, ◌*◌, ◌^◌, ◌<◌, ◌≡◌, ◌%◌, ◌↔◌, refl, inr, some, List, [], ◌∷◌, ◌++◌, arith,
}
use magma_sidecar.Word.{shr}
use magma_sidecar.Tx.{MagmaSearcherGatewayCall}
use magma_sidecar.Policy.Score.{decode_gateway_call, compute_priority}
use magma_sidecar.Policy.Score.Laws.{
  decode_gateway_call_complete, decode_gateway_call_sound, compute_priority_bid,
}
use magma_sidecar.Policy.Score.Order.{compute_priority_mono}
use magma_sidecar.Policy.Encoding.{
  encode_tob_priority, encode_opportunity_priority, encode_backrun_bid_priority, backrun_id,
}
use magma_sidecar.Policy.Encoding.Slots.{opportunity, backrun_bid, priority_of, Below}
use magma_sidecar.Policy.Encoding.Seat.{Outbids, priority_of-Outbids}
use magma_sidecar.Policy.Encoding.Order.{priority_of-lt_iff, encoded_fields, wide_score_ranks_last}
use magma_sidecar.Examples.{sample_api, sample_api-IsTxApi, sample_policy, sample_call, gateway_tx}

decode_gateway_call_complete_example :
    decode_gateway_call sample_api (gateway_tx 7 (2 ^ 200))
    ≡ some (record { bid_amount = 7; target_tx_hash = 2 ^ 200 })
decode_gateway_call_complete_example =
    decode_gateway_call_complete sample_api (gateway_tx 7 (2 ^ 200)) (7 ∷ 2 ^ 200 ∷ [])
      (sample_call 7 (2 ^ 200)) refl refl refl

decode_gateway_call_sound_example :
    (args : List ℕ) × (call : MagmaSearcherGatewayCall) × ((gateway_tx 7 9).data_bytes
      ≡ (0xde ∷ 0xad ∷ 0xbe ∷ 0xef ∷ []) ++ args)
    × (sample_api.abi_decode_raw args ≡ some call)
    × (7 ≡ call.bid_amount)
    × (9 ≡ call.target_tx_hash)
unfolding decode_gateway_call
decode_gateway_call_sound_example =
    decode_gateway_call_sound sample_api (gateway_tx 7 9)
      (record { bid_amount = 7; target_tx_hash = 9 }) refl

compute_priority_bid_example : compute_priority sample_api (gateway_tx 7 9) sample_policy ≡ 27
unfolding decode_gateway_call
compute_priority_bid_example =
    compute_priority_bid sample_api sample_api-IsTxApi (gateway_tx 7 9) sample_policy
      (record { bid_amount = 7; target_tx_hash = 9 }) refl refl

priority_of-lt_iff_example :
    (priority_of (backrun_bid (2 ^ 255) 5) < priority_of (opportunity (2 ^ 255)))
    ↔ Below (backrun_bid (2 ^ 255) 5) (opportunity (2 ^ 255))
priority_of-lt_iff_example =
    priority_of-lt_iff (backrun_bid (2 ^ 255) 5) (opportunity (2 ^ 255)) (omega arith, omega arith)
      (omega arith)

encoded_fields_example :
    (shr (encode_opportunity_priority (2 ^ 255)) 129 ≡ backrun_id (2 ^ 255))
    × (shr (encode_backrun_bid_priority (2 ^ 255) 6) 129 ≡ backrun_id (2 ^ 255))
    × (shr (encode_tob_priority 7) 255 ≡ 1)
    × (shr (encode_opportunity_priority (2 ^ 255)) 255 ≡ 0)
    × (shr (encode_backrun_bid_priority (2 ^ 255) 6) 255 ≡ 0)
    × (shr (encode_opportunity_priority (2 ^ 255)) 128 % 2 ≡ 1)
    × (shr (encode_backrun_bid_priority (2 ^ 255) 6) 128 % 2 ≡ 0)
    × (encode_tob_priority 7 % 2 ^ 128 ≡ 7)
    × (encode_backrun_bid_priority (2 ^ 255) 6 % 2 ^ 128 ≡ 6)
encoded_fields_example = encoded_fields (2 ^ 255) 6 7 (omega arith)

wide_score_ranks_last_example :
    (1 < 1 * 2 ^ 128)
    × (encode_tob_priority (1 * 2 ^ 128) < encode_tob_priority 1)
    × (encode_backrun_bid_priority 9 (1 * 2 ^ 128) < encode_backrun_bid_priority 9 1)
wide_score_ranks_last_example =
    wide_score_ranks_last 9 1 1 (omega arith) (omega arith) (omega arith) (omega arith)

priority_of-Outbids_example : Outbids 9 1 (backrun_bid 9 5)
priority_of-Outbids_example =
    priority_of-Outbids 9 1 (backrun_bid 9 5) (omega arith) (omega arith) (omega arith, omega arith)
      ((priority_of-lt_iff (backrun_bid 9 1) (backrun_bid 9 5) (omega arith, omega arith)
          (omega arith, omega arith)).1
        (inr (refl, omega arith)))
      ((priority_of-lt_iff (backrun_bid 9 5) (opportunity 9) (omega arith, omega arith)
          (omega arith)).1
        (omega arith))

compute_priority_mono_example :
    compute_priority sample_api (gateway_tx 7 9) sample_policy
    ≤ compute_priority sample_api (gateway_tx 8 10) sample_policy
unfolding decode_gateway_call
compute_priority_mono_example =
    compute_priority_mono sample_api sample_api-IsTxApi sample_policy (gateway_tx 7 9)
      (gateway_tx 8 10) (record { bid_amount = 7; target_tx_hash = 9 })
      (record { bid_amount = 8; target_tx_hash = 10 }) refl refl refl refl (omega arith)
      (omega arith) (omega arith) (omega arith)
