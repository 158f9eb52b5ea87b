-- ===== src/Startup.antt =====
-- src/config.rs, lines 19 to 43, and src/main.rs, lines 27 to 117: from the configuration to the
-- priority loop. Paths and addresses are their texts.
use Prim.Native.String.{String, ◌++◌}
pub mod Guard
use magma_sidecar.Prelude.{
  ℕ, Bool, true, false, if◌then◌else◌, Option, none, some, List, [], ◌⊎◌, inl, inr,
}
use magma_sidecar.Tx.{TxApi}
use magma_sidecar.Policy.Config.{
  Network, PolicyConfig, for_network, as_str, gateway_is_unset, mainnet,
}
use magma_sidecar.Metrics.{Metrics, new_metrics}
use magma_sidecar.TxpoolIpc.Event.{EthTxPoolIpcTx}
use magma_sidecar.TxpoolIpc.Loop.{
  PriorityMode, Attempt, Outcome, returned, run_txpool_priority_loop,
}

pub record Config : Type 0 where
  pub bind : String
  pub txpool_socket : Option String
  pub network : Network
  pub backrun_pool_ttl_ms : ℕ

-- The defaults that `Config` declares.
abbrev pub default_config : Config
default_config = record {
  bind = "127.0.0.1:8089";
  txpool_socket = none;
  network = mainnet;
  backrun_pool_ttl_ms = 2500;
}

abbrev pub fallback_priority : ℕ
fallback_priority = 0xffff

abbrev backrun_cache_max : ℕ
backrun_cache_max = 4096

abbrev backrun_pending_max : ℕ
backrun_pending_max = 4096

abbrev pub sent_cache_max : ℕ
sent_cache_max = 16384

-- The error of the startup guard.
abbrev pub refusal : Network → String
refusal network =
    "network '"
    ++ as_str network
    ++ "' has no MagmaSearcherGateway address baked into this build (resolves to the zero address); refusing to start a no-op reprioritizer. Upgrade to a release that bakes in the '"
    ++ as_str network
    ++ "' gateway, or use --network localnet for local development."

-- The mode that `main` hands to the loop.
abbrev pub priority_mode : Config → PriorityMode
priority_mode config = record {
  policy = for_network config.network;
  fallback = fallback_priority;
  ttl = config.backrun_pool_ttl_ms;
  max_cache_entries = backrun_cache_max;
  max_pending_entries = backrun_pending_max;
  sent_cache_max = sent_cache_max;
}

-- The guard: the error, or the mode.
unfoldable pub startup : Config → String ⊎ PriorityMode
startup config =
    if gateway_is_unset (for_network config.network)
    then inl (refusal config.network)
    else inr (priority_mode config)

-- What happens around the process: the error of `TcpListener::bind`, that of `axum::serve`, the shutdown
-- flag when the loop starts, and what the node's side of the socket does until the process exits.
pub record Surroundings (Tx : Type 0) : Type 0 where
  pub bind_error : Option String
  pub serve_error : Option String
  pub shutdown : Bool
  pub attempts : List (Attempt Tx)

module _ {Tx : Type 0} (api : TxApi Tx) where
  -- `ipc_task`: the loop runs only where a socket is configured. The Boolean is the shutdown flag
  -- when it starts.
  unfoldable pub ipc_task :
      Option String
      → PriorityMode
      → Bool
      → List (Attempt Tx)
      → Metrics × List (ℕ × EthTxPoolIpcTx Tx) × Outcome
  ipc_task none mode shutdown attempts = (new_metrics, [], returned)
  ipc_task (some path) mode shutdown attempts =
      run_txpool_priority_loop api mode new_metrics shutdown attempts

  -- `main`: the error that it returns, and what the loop did, if it was started. The address is bound
  -- before the loop starts; an error of the server ends the process, and the loop with it.
  unfoldable pub main :
      Config
      → Surroundings Tx
      → Option String × Option (Metrics × List (ℕ × EthTxPoolIpcTx Tx) × Outcome)
  unfolding startup
  main config world = elim (startup config) [
    | inl e ↦ (some e, none)
    | inr mode ↦ elim world.bind_error [
      | some e ↦ (some e, none)
      | none ↦ (
        world.serve_error,
        some (ipc_task config.txpool_socket mode world.shutdown world.attempts),
      )
    ]
  ]
