-- ===== src/Examples/Requests.antt =====
-- Requests between the events of a batch.
use magma_sidecar.Prelude.{◌≡◌, refl, false, List, [], ◌∷◌, map}
use magma_sidecar.Policy.Config.{is_allowlisted_gateway}
use magma_sidecar.Policy.Score.{decode_gateway_call, kept_fields, is_tob}
use magma_sidecar.Backrun.Pool.{new_pool}
use magma_sidecar.Backrun.Queues.{
  prune, prune_cache, prune_pending, insert_cache, add_cache, evict_cache, drop_oldest,
}
use magma_sidecar.Backrun.Observe.{
  is_gateway, observe_at, observe_gateway, observe_call, observe_backrun, observe_other,
  emit_opportunity_once,
}
use magma_sidecar.Metrics.{
  new_metrics, record_event, record_insert, record_prioritized, record_http, set_ipc_state,
  set_sent_cache, add_sent_cache_evictions, status_class, set_backrun_cache, set_backrun_pending,
  add_backrun_evicted, add_backrun_pended, add_backrun_pairs, record_skipped_non_gateway,
}
use magma_sidecar.Metrics.Health.{snapshot}
use magma_sidecar.TxpoolIpc.Sent.{
  new_sent, was_sent, insert_sent, add_sent, compact, evict_sent, sent_len,
}
use magma_sidecar.TxpoolIpc.Event.{
  insert, handle_event, handle_action, handle_insert, observe_insert, note_observed, send_all,
  note_sent,
}
use magma_sidecar.TxpoolIpc.Loop.{start}
use magma_sidecar.Routes.{get_health, get_metrics, answer, metrics_endpoint, render_prometheus}
use magma_sidecar.Routes.Turns.{
  Turn, event, request, hits, healths, run_turns, serve, Apart, run_turns-Apart,
}
use magma_sidecar.Examples.{SampleTx, sample_api, gateway_tx, plain_tx}
use magma_sidecar.Examples.Ipc.{sample_world}
use magma_sidecar.Examples.Runs.{sample_mode}
use magma_sidecar.Examples.Startup.{failing_prometheus}

-- A target, a request for each path, the bid, and one more request.
abbrev sample_turns : List (Turn SampleTx)
sample_turns =
    event (record { tx_hash = 9; action = insert plain_tx }) sample_world
    ∷ request get_health
    ∷ request get_metrics
    ∷ event (record { tx_hash = 11; action = insert (gateway_tx 7 9) }) sample_world
    ∷ request get_health
    ∷ []

run_turns-Apart_example :
    let s = start sample_api sample_mode new_metrics in
    Apart sample_api failing_prometheus sample_turns s.metrics.http_requests_total s
      (run_turns sample_api failing_prometheus sample_turns s)
run_turns-Apart_example =
    run_turns-Apart sample_api failing_prometheus sample_turns
      (start sample_api sample_mode new_metrics)

-- The run evaluated: both frames go out, and `/health` shows two of them at the end.
sample_turns_run :
    let ((s, broken), replies) =
      run_turns sample_api failing_prometheus sample_turns
        (start sample_api sample_mode new_metrics) in
    (map (λ f. f.0) s.wire ≡ 9 ∷ 11 ∷ [])
    × (broken ≡ false)
    × (map (λ h. h.tx_prioritized) (healths replies) ≡ 0 ∷ 2 ∷ [])
    × (hits "/metrics" "5xx" replies ≡ 1)
unfolding run_turns serve answer metrics_endpoint render_prometheus start handle_event handle_action
    handle_insert observe_insert prune prune_cache prune_pending insert_cache add_cache evict_cache
    drop_oldest observe_at observe_gateway observe_call observe_backrun observe_other is_gateway
    is_allowlisted_gateway decode_gateway_call kept_fields is_tob emit_opportunity_once new_pool
    new_sent send_all note_sent insert_sent add_sent compact evict_sent was_sent sent_len
    note_observed record_event record_insert record_prioritized record_http set_ipc_state
    set_sent_cache add_sent_cache_evictions new_metrics snapshot status_class set_backrun_cache
    set_backrun_pending add_backrun_evicted add_backrun_pended add_backrun_pairs
    record_skipped_non_gateway
sample_turns_run = (refl, refl, refl, refl)
