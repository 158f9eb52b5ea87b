-- ===== src/Examples/Outage.antt =====
-- The loop while the node is down.
use magma_sidecar.Prelude.{ℕ, ◌≡◌, refl, some, List, [], ◌∷◌, arith}
use magma_sidecar.Metrics.{new_metrics}
use magma_sidecar.TxpoolIpc.Loop.{Attempt, start}
use magma_sidecar.TxpoolIpc.Loop.Retry.{
  StopsInTime, sleep_or_shutdown, returns_at, connects, refused_rounds, refused_rounds-StopsInTime,
}
use magma_sidecar.Examples.{SampleTx, sample_api}
use magma_sidecar.Examples.Runs.{sample_mode}

-- The node is down, each connect fails after some milliseconds, and the flag goes up at 4500.
abbrev connect_times : List ℕ
connect_times = 3 ∷ 1 ∷ 40 ∷ 2 ∷ []

abbrev down_rounds : List (ℕ × Attempt SampleTx)
down_rounds = refused_rounds (some 4500) 100 connect_times

down_rounds_run : (returns_at down_rounds ≡ some 4500) × (connects down_rounds ≡ 3)
unfolding sleep_or_shutdown
down_rounds_run = (refl, refl)

refused_rounds-StopsInTime_example :
    StopsInTime sample_api 4500 40 100
      (refused_rounds (some 4500) 100 connect_times)
      (start sample_api sample_mode new_metrics)
refused_rounds-StopsInTime_example =
    refused_rounds-StopsInTime sample_api 4500 40 100 connect_times
      (start sample_api sample_mode new_metrics) (omega arith)
      (omega arith, (omega arith, (omega arith, (omega arith, tt)))) (omega arith)
