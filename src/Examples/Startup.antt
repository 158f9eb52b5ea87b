-- ===== src/Examples/Startup.antt =====
-- The process, its metrics and its HTTP handlers on sample inputs.
use magma_sidecar.Prelude.{ℕ, ◌≡◌, refl, inr, inl, true, false, none, some, List, [], ◌∷◌}
use magma_sidecar.Policy.Config.{testnet, gateway_is_unset, for_network, network_gateway}
use magma_sidecar.Metrics.{
  connected, new_metrics, set_ipc_state, status_class, record_http, ipc_state_str,
}
use magma_sidecar.Metrics.Health.{snapshot}
use magma_sidecar.Metrics.Mirror.{snapshot-set_ipc_state}
use magma_sidecar.Routes.{PrometheusApi, get_metrics, render_prometheus, metrics_endpoint, answer}
use magma_sidecar.TxpoolIpc.Loop.{
  PriorityMode, run_attempts, run_connection, start, run_txpool_priority_loop, Attempt, returned,
  shutdown_changed,
}
use magma_sidecar.Startup.{
  Surroundings, Config, default_config, priority_mode, ipc_task, startup, main,
}
use magma_sidecar.Examples.Runs.{sample_mode}
use magma_sidecar.Examples.{SampleTx, sample_api}

abbrev sample_config : Config
sample_config = record (default_config) {
  txpool_socket = some "/run/mempool.sock";
  network = testnet;
}

abbrev one_attempt : List (Attempt SampleTx)
one_attempt = record { shutdown = false; connection = some (shutdown_changed true ∷ []) } ∷ []

abbrev sample_surroundings : Surroundings SampleTx
sample_surroundings = record {
  bind_error = none;
  serve_error = some "accept failed";
  shutdown = false;
  attempts = one_attempt;
}

-- The error of the server is returned, and the loop ran until the shutdown, without a frame.
main_run :
    let task =
      ipc_task sample_api sample_config.txpool_socket
        (priority_mode sample_config)
        false
        one_attempt in
    (main sample_api sample_config sample_surroundings ≡ (some "accept failed", some task))
    × (task.1 ≡ [])
    × (task.2 ≡ returned)
unfolding gateway_is_unset for_network network_gateway main startup ipc_task run_attempts
    run_connection start run_txpool_priority_loop
main_run = (refl, refl, refl)

-- A policy whose gateway is not filled in, and the sample connections, where nothing is sent to the
-- zero address.
abbrev unset_mode : PriorityMode
unset_mode = record (sample_mode) { policy = record { gateway = 0; base_fee_floor_wei = 0 } }

connected_shown :
    ((snapshot (set_ipc_state connected new_metrics)).ipc_state ≡ "connected")
    × ((set_ipc_state connected new_metrics).txpool_ipc_state
        ≡ (set_ipc_state connected new_metrics).ipc_state)
unfolding ipc_state_str
connected_shown = snapshot-set_ipc_state connected new_metrics

-- A registry that shows one counter, and an encoder that fails.
abbrev pub failing_prometheus : PrometheusApi ℕ
failing_prometheus = record {
  gather = λ m. m.txpool_prioritized_total;
  encode = λ family. inr "io";
  from_utf8 = λ bytes. inl "";
}

-- The failure counted, evaluated.
failure_counted :
    let after = (answer failing_prometheus get_metrics (record { metrics = new_metrics })).1 in
    after.metrics.http_requests_total "/metrics" "5xx" ≡ 1
unfolding answer metrics_endpoint render_prometheus new_metrics record_http status_class
failure_counted = refl
