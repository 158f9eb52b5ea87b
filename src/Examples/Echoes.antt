-- ===== src/Examples/Echoes.antt =====
-- What the dedup cache keeps from being sent again, on sample connections.
use magma_sidecar.Prelude.{ℕ, ◌≡◌, refl, true, List, [], ◌∷◌, All}
use magma_sidecar.Policy.Config.{is_allowlisted_gateway}
use magma_sidecar.Policy.Score.{decode_gateway_call, kept_fields, is_tob}
use magma_sidecar.Backrun.Pool.{new_pool}
use magma_sidecar.Backrun.Queues.{
  prune, prune_cache, prune_pending, insert_cache, add_cache, evict_cache, drop_oldest,
  push_pending, park, evict_pending,
}
use magma_sidecar.Backrun.Observe.{
  is_gateway, observe_at, observe_gateway, observe_call, observe_backrun, observe_other,
  emit_opportunity_once,
}
use magma_sidecar.Metrics.{
  new_metrics, record_event, count_event, record_insert, record_prioritized,
  record_skipped_non_gateway, record_skipped_invalid_gateway, add_backrun_pairs, add_backrun_pended,
  add_backrun_expired, add_backrun_evicted, set_backrun_pending, set_backrun_cache,
  add_sent_cache_evictions, set_sent_cache, set_ipc_state, record_reconnect,
}
use magma_sidecar.TxpoolIpc.Sent.{
  new_sent, was_sent, insert_sent, add_sent, compact, evict_sent, sent_len,
}
use magma_sidecar.TxpoolIpc.Event.{
  EthTxPoolIpcTx, World, kind_of, note_sent, send_all, note_observed, observe_insert, handle_insert,
  handle_action, handle_event, handle_batch,
}
use magma_sidecar.TxpoolIpc.Loop.{run_connection, run_attempts, start}
use magma_sidecar.TxpoolIpc.Loop.Once.{Unrepeated, run_attempts-Unrepeated}
use magma_sidecar.Examples.{SampleTx, sample_api, gateway_tx, plain_tx}
use magma_sidecar.Examples.Ipc.{sample_world}
use magma_sidecar.Examples.Runs.{sample_mode, sample_attempts}

run_attempts-Unrepeated_example :
    let s =
      (run_attempts sample_api sample_attempts (start sample_api sample_mode new_metrics)).0 in
    All (λ (f : ℕ × EthTxPoolIpcTx SampleTx). was_sent f.0 s.sent ≡ true) s.wire × Unrepeated s.wire
unfolding run_attempts run_connection start handle_batch handle_event handle_action handle_insert
    observe_insert prune prune_cache prune_pending insert_cache add_cache evict_cache drop_oldest
    observe_at observe_gateway observe_call observe_backrun observe_other is_gateway
    is_allowlisted_gateway decode_gateway_call kept_fields is_tob emit_opportunity_once push_pending
    park evict_pending new_pool new_sent send_all note_sent insert_sent add_sent compact evict_sent
    was_sent sent_len note_observed record_event count_event record_insert record_prioritized
    record_skipped_non_gateway record_skipped_invalid_gateway add_backrun_pairs add_backrun_pended
    add_backrun_expired add_backrun_evicted set_backrun_pending set_backrun_cache
    add_sent_cache_evictions set_sent_cache set_ipc_state record_reconnect new_metrics kind_of
run_attempts-Unrepeated_example =
    run_attempts-Unrepeated sample_api sample_mode new_metrics sample_attempts refl refl

-- The echoes of both frames.
abbrev sample_echoes : List (ℕ × SampleTx × World)
sample_echoes = (9, plain_tx, sample_world) ∷ (11, gateway_tx 7 9, sample_world) ∷ []
