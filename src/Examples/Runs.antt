-- ===== src/Examples/Runs.antt =====
-- Whole runs of the loop on sample connections.
use magma_sidecar.Prelude.{
  ℕ, ◌≡◌, refl, ◌⊎◌, inl, inr, true, false, none, some, List, [], ◌∷◌, ◌++◌, map, All, arith,
}
use magma_sidecar.Policy.Config.{is_allowlisted_gateway}
use magma_sidecar.Policy.Score.{
  decode_gateway_call, kept_fields, is_tob, compute_priority, effective_priority_fee_per_gas,
  bid_component, gateway_bid_amount,
}
use magma_sidecar.Backrun.Pool.{new_pool}
use magma_sidecar.Backrun.Queues.{
  prune, prune_cache, prune_pending, insert_cache, add_cache, evict_cache, drop_oldest,
  push_pending, park, evict_pending,
}
use magma_sidecar.Backrun.Observe.{
  is_gateway, observe_at, observe_gateway, observe_call, observe_backrun, observe_other,
  emit_opportunity_once,
}
use magma_sidecar.Metrics.{new_metrics, gauge, disabled}
use magma_sidecar.TxpoolIpc.Sent.{new_sent, was_sent, insert_sent, add_sent, compact, evict_sent}
use magma_sidecar.TxpoolIpc.Event.{
  insert, note_sent, send_all, observe_insert, handle_insert, handle_action, handle_event,
  handle_batch,
}
use magma_sidecar.TxpoolIpc.Loop.{
  PriorityMode, Input, Attempt, returned, batch, stream_ended, shutdown_changed, run_connection,
  run_attempts, start,
}
use magma_sidecar.Metrics.Health.{snapshot}
use magma_sidecar.TxpoolIpc.Loop.Mirror.{Consistent, run_attempts-Consistent}
use magma_sidecar.TxpoolIpc.Loop.Run.{IsStopped, run_attempts_lem}
use magma_sidecar.TxpoolIpc.Loop.Origin.{JustifiedFrame, run_attempts-Justified}
use magma_sidecar.TxpoolIpc.Loop.Ranked.{Sized, Ranked, run_attempts-Ranked}
use magma_sidecar.TxpoolIpc.Loop.Accounting.{IsAccounted, run_attempts-IsAccounted}
use magma_sidecar.TxpoolIpc.Loop.Return.{Stops, flagged, onward, later, ended, run_attempts_returns}
use magma_sidecar.TxpoolIpc.Loop.Reconnect.{SameCore}
use magma_sidecar.TxpoolIpc.Loop.Resume.{live, outage, run_attempts_resume}
use magma_sidecar.Examples.{SampleTx, sample_api, sample_policy, gateway_tx, plain_tx}
use magma_sidecar.Examples.Ipc.{sample_world}

abbrev pub sample_mode : PriorityMode
sample_mode = record {
  policy = sample_policy;
  fallback = 0xffff;
  ttl = 2500;
  max_cache_entries = 4;
  max_pending_entries = 4;
  sent_cache_max = 4;
}

-- A connection that brings a target and a bid and then breaks, and one that is shut down.
abbrev pub sample_attempts : List (Attempt SampleTx)
sample_attempts =
    record {
      shutdown = false;
      connection = some (
          batch (
            (record { tx_hash = 9; action = insert plain_tx }, sample_world)
            ∷ (record { tx_hash = 11; action = insert (gateway_tx 7 9) }, sample_world)
            ∷ [])
          ∷ stream_ended
          ∷ []);
    }
    ∷ record { shutdown = false; connection = some (shutdown_changed true ∷ []) }
    ∷ []

run_attempts_lem_example :
    IsStopped 0 (run_attempts sample_api sample_attempts (start sample_api sample_mode new_metrics))
run_attempts_lem_example = run_attempts_lem sample_api sample_mode sample_attempts

-- The node announced a target and a bid on it.
abbrev Announced : ℕ → SampleTx → Type 0
Announced h tx = ((h ≡ 9) × (tx ≡ plain_tx)) ⊎ ((h ≡ 11) × (tx ≡ gateway_tx 7 9))

run_attempts-Justified_example :
    All
      (JustifiedFrame sample_api sample_policy 0xffff Announced)
      (run_attempts sample_api sample_attempts (start sample_api sample_mode new_metrics)).0.wire
run_attempts-Justified_example =
    run_attempts-Justified sample_api Announced sample_mode new_metrics sample_attempts
      (((inl (refl, refl), (inr (refl, refl), tt)), (tt, tt)), ((tt, tt), tt))

sample_scores :
    (compute_priority sample_api plain_tx sample_policy ≡ 42)
    × (compute_priority sample_api (gateway_tx 7 9) sample_policy ≡ 27)
unfolding compute_priority effective_priority_fee_per_gas bid_component gateway_bid_amount
    decode_gateway_call kept_fields
sample_scores = (refl, refl)

-- Their hashes and scores are small.
sample-Sized : Sized sample_api sample_policy 0xffff Announced
sample-Sized hash tx (inl (h, e)) = rw (h, e, sample_scores.0) (omega arith, omega arith)
sample-Sized hash tx (inr (h, e)) = rw (h, e, sample_scores.1) (omega arith, omega arith)

run_attempts-Ranked_example :
    let wire =
      (run_attempts sample_api sample_attempts (start sample_api sample_mode new_metrics)).0.wire in
    All (λ f. All (Ranked sample_api sample_policy 0xffff Announced f) wire) wire
run_attempts-Ranked_example =
    run_attempts-Ranked sample_api Announced sample_mode new_metrics sample_attempts sample-Sized
      (((inl (refl, refl), (inr (refl, refl), tt)), (tt, tt)), ((tt, tt), tt))

run_attempts-IsAccounted_example :
    IsAccounted 4 4
      (run_attempts sample_api sample_attempts (start sample_api sample_mode new_metrics)).0
run_attempts-IsAccounted_example = run_attempts-IsAccounted sample_api sample_mode sample_attempts

-- The run evaluated: the target goes out, then its bid.
sample_run :
    let (s, outcome) =
      run_attempts sample_api sample_attempts (start sample_api sample_mode new_metrics) in
    (map (λ f. f.0) s.wire ≡ 9 ∷ 11 ∷ []) × (outcome ≡ returned)
unfolding run_attempts run_connection start handle_batch handle_event handle_action handle_insert
    observe_insert prune prune_cache prune_pending insert_cache add_cache evict_cache drop_oldest
    observe_at observe_gateway observe_call observe_backrun observe_other is_gateway
    is_allowlisted_gateway decode_gateway_call kept_fields is_tob emit_opportunity_once push_pending
    park evict_pending new_pool new_sent send_all note_sent insert_sent add_sent compact evict_sent
    was_sent
sample_run = (refl, refl)

-- A connection that breaks, one that the node refuses, and then the shutdown.
abbrev stopped_attempts : List (Attempt SampleTx)
stopped_attempts =
    record {
      shutdown = false;
      connection = some (
          batch ((record { tx_hash = 9; action = insert plain_tx }, sample_world) ∷ [])
          ∷ stream_ended
          ∷ []);
    }
    ∷ record { shutdown = false; connection = none }
    ∷ record { shutdown = true; connection = none }
    ∷ []

stopped_attempts-Stops : Stops stopped_attempts
stopped_attempts-Stops = onward _ (later _ ended) (onward _ tt (flagged _ refl))

run_attempts_returns_example :
    let (after, outcome) =
      run_attempts sample_api stopped_attempts (start sample_api sample_mode new_metrics) in
    (outcome ≡ returned)
    × (after.metrics.ipc_state ≡ gauge disabled)
    × (run_attempts sample_api
          (stopped_attempts ++ sample_attempts)
          (start sample_api sample_mode new_metrics)
        ≡ (after, outcome))
run_attempts_returns_example =
    run_attempts_returns sample_api stopped_attempts sample_attempts
      (start sample_api sample_mode new_metrics) stopped_attempts-Stops

-- The target before the connection is lost, and the bid after.
abbrev before_loss : List (Input SampleTx)
before_loss = batch ((record { tx_hash = 9; action = insert plain_tx }, sample_world) ∷ []) ∷ []

abbrev after_loss : List (Input SampleTx)
after_loss =
    batch ((record { tx_hash = 11; action = insert (gateway_tx 7 9) }, sample_world) ∷ []) ∷ []

run_attempts_resume_example :
    SameCore
      (run_attempts sample_api
        (live (before_loss ++ stream_ended ∷ []) ∷ outage 3 (live after_loss ∷ []))
        (start sample_api sample_mode new_metrics))
      (run_attempts sample_api
        (live (before_loss ++ after_loss) ∷ [])
        (start sample_api sample_mode new_metrics))
unfolding run_connection start handle_batch handle_event handle_action handle_insert observe_insert
    prune prune_cache prune_pending insert_cache add_cache evict_cache observe_at observe_other
    is_gateway is_allowlisted_gateway new_pool new_sent send_all was_sent
run_attempts_resume_example =
    run_attempts_resume sample_api before_loss after_loss 3 []
      (start sample_api sample_mode new_metrics) refl

run_attempts-Consistent_example :
    let m =
      (run_attempts sample_api sample_attempts
        (start sample_api sample_mode new_metrics)).0.metrics in
    Consistent m (snapshot m)
run_attempts-Consistent_example = run_attempts-Consistent sample_api sample_mode sample_attempts
