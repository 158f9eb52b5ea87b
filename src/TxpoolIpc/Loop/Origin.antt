-- ===== src/TxpoolIpc/Loop/Origin.antt =====
-- Where the frames that src/txpool_ipc.rs sends come from.
use magma_sidecar.Prelude.{ℕ, ◌≡◌, refl, Option, List, [], All, All-append}
use magma_sidecar.Tx.{TxApi}
use magma_sidecar.Policy.Config.{PolicyConfig}
use magma_sidecar.Backrun.Pool.{Reinjection, new_pool}
use magma_sidecar.Backrun.Queues.{prune}
use magma_sidecar.Backrun.Queues.Holds.{prune-Holds, forget-Holds}
use magma_sidecar.Backrun.Invariant.{
  IsValid, prune-IsValid, forget-IsValid, new_pool-IsValid, observe_at-IsValid,
}
use magma_sidecar.Backrun.Origin.{FromNode, Justified}
use magma_sidecar.Backrun.Origin.Observe.{observe_at-Sound}
use magma_sidecar.Metrics.{Metrics, record_event}
use magma_sidecar.TxpoolIpc.Event.{
  EthTxPoolIpcTx, LoopState, World, with_metrics, ipc_tx, note_sent, handle_gone, observe_insert,
}
use magma_sidecar.TxpoolIpc.Loop.{PriorityMode, Attempt, run_attempts, start}
use magma_sidecar.TxpoolIpc.Loop.Induction.{Steps, run_attempts_keeps}
use magma_sidecar.TxpoolIpc.Loop.Delivery.{Delivers}

module _ {Tx : Type 0} (api : TxApi Tx) (policy : PolicyConfig) (fallback : ℕ)
    (Announced : ℕ → Tx → Type 0) where
  -- A frame on the wire, read as the re-injection that it was sent for, and without extra data.
  abbrev pub JustifiedFrame : ℕ × EthTxPoolIpcTx Tx → Type 0
  JustifiedFrame f =
      Justified api policy fallback Announced
        (record { hash = f.0; tx = f.1.tx; priority = f.1.priority })
      × (f.1.extra_data ≡ [])

  record IsTraced (s : LoopState Tx) : Type 0 where
    valid : IsValid s.pool
    from_node : FromNode api policy fallback Announced s.pool
    frames : All JustifiedFrame s.wire

  observe_insert-IsTraced :
      (hash : ℕ) (tx : Tx) (world : World) (s : LoopState Tx)
      → Announced hash tx
      → IsTraced s
      → IsTraced (observe_insert api hash tx world s).0
        × All (Justified api policy fallback Announced) (observe_insert api hash tx world s).1
  unfolding observe_insert
  observe_insert-IsTraced hash tx world s a v =
      let p = (prune world.prune_now s.pool).0 in
      let pruned = (prune-IsValid world.prune_now s.pool v.valid).0 in
      let (kept, just) =
        observe_at-Sound api policy fallback Announced hash tx world.observe_now p pruned
          (prune-Holds _ _ _ _ world.prune_now s.pool v.from_node) a in
      (
        record {
          valid = observe_at-IsValid api hash tx world.observe_now p pruned;
          from_node = kept;
          frames = v.frames;
        },
        just,
      )

  note_sent-IsTraced :
      (r : Reinjection Tx) (clock : Option ℕ) (s : LoopState Tx)
      → Justified api policy fallback Announced r
      → IsTraced s
      → IsTraced (note_sent r clock s)
  unfolding note_sent ipc_tx
  note_sent-IsTraced r clock s j v = record {
    valid = v.valid;
    from_node = v.from_node;
    frames = All-append JustifiedFrame s.wire _ v.frames ((j, refl), tt);
  }

  handle_gone-IsTraced : (hash : ℕ) (s : LoopState Tx) → IsTraced s → IsTraced (handle_gone hash s)
  unfolding handle_gone
  handle_gone-IsTraced hash s v = record {
    valid = forget-IsValid hash s.pool v.valid;
    from_node = forget-Holds _ _ _ _ hash s.pool v.from_node;
    frames = v.frames;
  }

  metrics-IsTraced :
      (f : Metrics → Metrics) (s : LoopState Tx) → IsTraced s → IsTraced (with_metrics f s)
  metrics-IsTraced f s v = record { valid = v.valid; from_node = v.from_node; frames = v.frames }

  IsTraced-Steps : Steps api Announced (Justified api policy fallback Announced) IsTraced
  IsTraced-Steps = record {
    event = λ clock. metrics-IsTraced _;
    inserted = metrics-IsTraced _;
    observed = observe_insert-IsTraced;
    frame_sent = λ r clock s j new. note_sent-IsTraced r clock s j;
    send_failed = metrics-IsTraced _;
    gone = λ kind clock hash s other v.
        handle_gone-IsTraced hash _ (metrics-IsTraced (record_event kind clock) s v);
    state = λ st. metrics-IsTraced _;
    reconnected = metrics-IsTraced _;
  }

-- Started in any mode and with any metrics, over any connections whose inserts all satisfy
-- `Announced`: every frame on the wire carries a transaction that the node announced under the
-- frame's hash, without extra data, and for one of three reasons, each with its own priority. It is a
-- gateway call without target, with the encoding of its score, or the fallback for a score of zero;
-- or an announced gateway call names it as its target, and the priority is that of the target's
-- group; or it is itself a gateway call whose target was announced too, with its score in the
-- target's group.
pub run_attempts-Justified :
    {Tx : Type 0} (api : TxApi Tx) (Announced : ℕ → Tx → Type 0) (mode : PriorityMode)
    (metrics : Metrics) (attempts : List (Attempt Tx))
    → Delivers Announced attempts
    → All
        (JustifiedFrame api mode.policy mode.fallback Announced)
        (run_attempts api attempts (start api mode metrics)).0.wire
unfolding start new_pool
run_attempts-Justified api Announced mode metrics attempts delivered =
    (run_attempts_keeps api Announced _ _ (IsTraced-Steps api mode.policy mode.fallback Announced)
      attempts (start api mode metrics) delivered
      (record {
        valid =
            (new_pool-IsValid mode.policy mode.fallback mode.ttl mode.max_cache_entries
              mode.max_pending_entries).0;
        from_node = record { policy_kept = refl; fallback_kept = refl; cached = tt; parked = tt };
        frames = tt;
      })).frames
