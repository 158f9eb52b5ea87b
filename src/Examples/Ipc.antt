-- ===== src/Examples/Ipc.antt =====
-- The dedup cache and the loop on sample events.
use magma_sidecar.Prelude.{
  map, ◌^◌, ℕ, ◌+◌, ◌≡◌, refl, inr, true, false, some, List, [], ◌∷◌, length, contains, arith,
}
use magma_sidecar.Policy.Config.{is_allowlisted_gateway}
use magma_sidecar.Policy.Score.{
  decode_gateway_call, kept_fields, is_tob, compute_priority, effective_priority_fee_per_gas,
  gateway_bid_amount,
}
use magma_sidecar.Backrun.Pool.{Reinjection, ObserveResult, new_pool}
use magma_sidecar.Backrun.Queues.{
  prune, prune_cache, prune_pending, insert_cache, add_cache, evict_cache,
}
use magma_sidecar.Backrun.Invariant.{IsValid, new_pool-IsValid}
use magma_sidecar.Prelude.Map
use magma_sidecar.Backrun.Observe.{is_gateway, emit_opportunity_once}
use magma_sidecar.Metrics.{new_metrics}
use magma_sidecar.TxpoolIpc.Sent.{SentCache, new_sent, was_sent, insert_sent, sent_len}
use magma_sidecar.TxpoolIpc.Sent.Bounds.{IsSentValid, new_sent-IsSentValid, insert_sent-IsSentValid}
use magma_sidecar.TxpoolIpc.Sent.Stale.{insert_sent_stale}
use magma_sidecar.TxpoolIpc.Sent.Churn.{churn, churn_grows}
use magma_sidecar.TxpoolIpc.Sent.Remember.{insert_sent_remembers}
use magma_sidecar.TxpoolIpc.Event.Lost.{handle_insert_lost}
use magma_sidecar.TxpoolIpc.Sent.Refines.{SentStep, recorded, removed, apply_all, apply_all_lem}
use magma_sidecar.TxpoolIpc.Event.{LoopState, World, sent_at, failed, send_all, handle_insert}
use magma_sidecar.TxpoolIpc.Event.Dedup.{frame}
use magma_sidecar.TxpoolIpc.Event.Complete.{AllFresh, send_all_complete}
use magma_sidecar.TxpoolIpc.Event.Lead.{handle_insert_lead}
use magma_sidecar.TxpoolIpc.Event.Safety.{handle_insert-Unscored}
use magma_sidecar.Examples.{
  SampleTx, sample_api, sample_policy, sample_pool, gateway_tx, plain_tx, garbled_tx,
}

insert_sent-IsSentValid_example :
    IsSentValid (insert_sent 7 1 (new_sent 1)).0
    × ((insert_sent 7 1 (new_sent 1)).0.max_entries ≡ (new_sent 1).max_entries)
    × (sent_len (insert_sent 7 1 (new_sent 1)).0 + (insert_sent 7 1 (new_sent 1)).1 ≡ 1)
unfolding sent_len was_sent new_sent
insert_sent-IsSentValid_example =
    insert_sent-IsSentValid 7 1 (new_sent 1) (new_sent-IsSentValid 1).0

-- A full cache of two, whose queue still holds the removed hash 7.
abbrev stale_cache : SentCache
stale_cache = record { priorities = (8, 1) ∷ (9, 1) ∷ []; order = 7 ∷ 8 ∷ 9 ∷ []; max_entries = 2 }

stale_cache_valid : IsSentValid stale_cache
stale_cache_valid = record {
  sent = record { distinct = (refl, (refl, tt)); queued = λ h c. ground arith };
  bounded = omega arith;
}

insert_sent_stale_example :
    (was_sent 7 (insert_sent 7 1 stale_cache).0 ≡ false) × ((insert_sent 7 1 stale_cache).1 ≡ 1)
unfolding was_sent sent_len
insert_sent_stale_example =
    insert_sent_stale 7 1 (8 ∷ 9 ∷ []) stale_cache stale_cache_valid refl refl refl (omega arith)

insert_sent_remembers_example : was_sent 10 (insert_sent 10 1 stale_cache).0 ≡ true
insert_sent_remembers_example =
    insert_sent_remembers 10 1 stale_cache stale_cache_valid (omega arith) refl

churn_grows_example :
    (sent_len (churn 5 7 1 (new_sent 1)) ≡ 0) × (length (churn 5 7 1 (new_sent 1)).order ≡ 5)
churn_grows_example = churn_grows 5 7 1 1

abbrev pub sample_world : World
sample_world = record {
  clock = some 1000;
  prune_now = 100;
  observe_now = 101;
  sends = λ i. sent_at (some 1001);
}

abbrev sample_state : LoopState SampleTx
sample_state = record { pool = sample_pool; sent = stale_cache; metrics = new_metrics; wire = [] }

abbrev sample_reinjections : List (Reinjection SampleTx)
sample_reinjections =
    record { hash = 8; tx = plain_tx; priority = 5 }
    ∷ record { hash = 11; tx = gateway_tx 7 9; priority = 4 }
    ∷ []

handle_insert-Unscored_example :
    let (after, broken) = handle_insert sample_api 30 garbled_tx sample_world sample_state in
    (after.wire ≡ [])
    × (after.sent ≡ stale_cache)
    × (broken ≡ false)
    × (after.pool ≡ insert_cache 30 garbled_tx 101 (prune 100 sample_pool).0)
unfolding was_sent is_gateway is_allowlisted_gateway decode_gateway_call new_pool
handle_insert-Unscored_example =
    handle_insert-Unscored sample_api 30 garbled_tx sample_world sample_state
      (new_pool-IsValid sample_policy 0xffff 2500 4 4).0 refl (inr (refl, refl))

abbrev fresh_reinjections : List (Reinjection SampleTx)
fresh_reinjections =
    record { hash = 10; tx = plain_tx; priority = 5 }
    ∷ record { hash = 11; tx = gateway_tx 7 9; priority = 4 }
    ∷ []

fresh_reinjections-AllFresh : AllFresh fresh_reinjections stale_cache
unfolding was_sent
fresh_reinjections-AllFresh = (refl, (omega arith, tt), (refl, tt, tt))

send_all_complete_example :
    ((send_all sample_world.sends 0 fresh_reinjections sample_state).0.wire
      ≡ map frame fresh_reinjections)
    × ((send_all sample_world.sends 0 fresh_reinjections sample_state).1 ≡ false)
send_all_complete_example =
    send_all_complete sample_world.sends 0 fresh_reinjections sample_state (λ j. (some 1001, refl))
      fresh_reinjections-AllFresh

handle_insert_lead_example :
    let (after, broken) = handle_insert sample_api 12 (gateway_tx 7 0) sample_world sample_state in
    (after.wire ≡ frame (record { hash = 12; tx = gateway_tx 7 0; priority = 2 ^ 255 + 27 }) ∷ [])
    × (broken ≡ false)
unfolding was_sent is_gateway is_allowlisted_gateway decode_gateway_call new_pool is_tob
    compute_priority effective_priority_fee_per_gas gateway_bid_amount
handle_insert_lead_example =
    handle_insert_lead sample_api 12 (gateway_tx 7 0) sample_world
      (record { bid_amount = 7; target_tx_hash = 0 }) sample_state
      (new_pool-IsValid sample_policy 0xffff 2500 4 4).0 refl (λ j. (some 1001, refl)) refl refl
      refl

-- A pool that holds a target, and a node that takes nothing.
abbrev target_state : LoopState SampleTx
target_state = record sample_state {
  pool = record sample_pool {
    cache = (9, record { tx = plain_tx; seen_at = 100 }) ∷ [];
    cache_order = 9 ∷ [];
  };
  sent = new_sent 4;
}

target_state-IsValid : IsValid target_state.pool
unfolding new_pool
target_state-IsValid = record {
  cache = record { queued = λ h c. ground arith; streamed = λ h c. absurd (ground arith) };
  parked = record { distinct = tt; entries = tt; counted = refl; waiting = λ t h. omega arith };
  cache_bounded = omega arith;
  pending_bounded = omega arith;
}

abbrev deaf_world : World
deaf_world = record sample_world { sends = λ i. failed }

handle_insert_lost_example :
    let (after, broken) = handle_insert sample_api 11 (gateway_tx 7 9) deaf_world target_state in
    (after.wire ≡ [])
    × (after.sent ≡ new_sent 4)
    × (broken ≡ true)
    × (Map.get 9 after.pool.cache ≡ some (record { tx = plain_tx; seen_at = 100 }))
    × ((res : ObserveResult SampleTx) → emit_opportunity_once 9 after.pool res ≡ (after.pool, res))
unfolding prune prune_cache prune_pending insert_cache add_cache evict_cache is_gateway
    is_allowlisted_gateway decode_gateway_call kept_fields is_tob new_pool new_sent was_sent
handle_insert_lost_example =
    handle_insert_lost sample_api 11 (gateway_tx 7 9) deaf_world
      (record { bid_amount = 7; target_tx_hash = 9 }) (record { tx = plain_tx; seen_at = 100 })
      target_state target_state-IsValid refl refl refl refl refl refl refl refl

-- Two hashes are recorded, one is removed and recorded again.
abbrev sent_steps : List SentStep
sent_steps = recorded 7 1 ∷ recorded 8 2 ∷ removed 7 ∷ recorded 7 3 ∷ []

apply_all_lem_example :
    ((hash : ℕ) → was_sent hash (apply_all sent_steps (new_sent 2)) ≡ contains hash (7 ∷ 8 ∷ []))
    × (sent_len (apply_all sent_steps (new_sent 2)) ≡ 2)
apply_all_lem_example =
    apply_all_lem 2 sent_steps (omega arith, (omega arith, (omega arith, (omega arith, tt))))
