-- ===== src/Metrics/Mirror.antt =====
-- The gauges of src/metrics.rs and the copies that `/health` reads.
use magma_sidecar.Prelude.{◌≡◌, refl}
use magma_sidecar.Metrics.{
  IpcState, disabled, connecting, connected, gauge, ipc_state_str, Metrics, set_ipc_state,
}
use magma_sidecar.Metrics.Health.{ipc_state_from_gauge, snapshot}

-- After any state is set, the health snapshot names it, and the exported gauge and its mirror
-- agree.
pub snapshot-set_ipc_state :
    (state : IpcState) (m : Metrics)
    → ((snapshot (set_ipc_state state m)).ipc_state ≡ ipc_state_str state)
      × ((set_ipc_state state m).txpool_ipc_state ≡ (set_ipc_state state m).ipc_state)
unfolding snapshot set_ipc_state ipc_state_from_gauge gauge
snapshot-set_ipc_state disabled m = (refl, refl)
snapshot-set_ipc_state connecting m = (refl, refl)
snapshot-set_ipc_state connected m = (refl, refl)
