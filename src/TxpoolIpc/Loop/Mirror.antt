-- ===== src/TxpoolIpc/Loop/Mirror.antt =====
-- What `/health` and `/metrics` show of a run of src/txpool_ipc.rs: src/metrics.rs keeps the state and
-- two times twice.
use Prim.Native.String.{String}
use magma_sidecar.Prelude.{
  ℕ, zero, suc, ◌≡◌, ◌∙◌, refl, ap, sym, subst, List, Option, none, some, All-any, ltb,
  if◌then◌else◌,
}
use magma_sidecar.Prelude.Int.{ℤ, pos, negsuc}
use magma_sidecar.Tx.{TxApi}
use magma_sidecar.Backrun.Pool.{PendingPool, Reinjection, ObserveResult}
use magma_sidecar.Metrics.{
  IpcState, disabled, connecting, connected, EventKind, unix_now, gauge, Metrics, ipc_state_str,
  record_event, record_insert, record_prioritized, add_backrun_expired, set_sent_cache,
  record_send_failure, set_ipc_state, record_reconnect, new_metrics,
}
use magma_sidecar.Metrics.Health.{HealthSnapshot, snapshot, ipc_state_from_gauge, nonzero}
use magma_sidecar.TxpoolIpc.Sent.{insert_sent}
use magma_sidecar.TxpoolIpc.Event.{LoopState, note_sent, note_observed, handle_gone, observe_insert}
use magma_sidecar.TxpoolIpc.Loop.{PriorityMode, Attempt, run_attempts, start}
use magma_sidecar.TxpoolIpc.Loop.Counts.{
  expired_lem, add_sent_cache_evictions_lem, note_observed_lem,
}
use magma_sidecar.TxpoolIpc.Loop.Induction.{Steps, run_attempts_keeps_always}

-- The gauges, and their copies.
abbrev gauges : Metrics → ℤ × ℤ × ℤ
gauges m = (m.txpool_ipc_state, m.last_event_unix_seconds, m.last_send_unix_seconds)

abbrev copies : Metrics → ℤ × ℤ × ℤ
copies m = (m.ipc_state, m.last_event_ts, m.last_send_ts)

-- The copies agree with the gauges, and the state is one that was set.
record IsMirrored (m : Metrics) : Type 0 where
  same : gauges m ≡ copies m
  state : IpcState
  set : m.txpool_ipc_state ≡ gauge state

keep-IsMirrored :
    (m n : Metrics) → gauges n ≡ gauges m → copies n ≡ copies m → IsMirrored m → IsMirrored n
keep-IsMirrored m n g c v = record {
  same = g ∙ v.same ∙ sym c;
  state = v.state;
  set = ap (λ x. x.0) g ∙ v.set;
}

note_sent-IsMirrored :
    {Tx : Type 0} (r : Reinjection Tx) (clock : Option ℕ) (s : LoopState Tx)
    → IsMirrored s.metrics
    → IsMirrored (note_sent r clock s).metrics
unfolding note_sent set_sent_cache record_prioritized
note_sent-IsMirrored r clock s v =
    let evicted = (insert_sent r.hash r.priority s.sent).1 in
    rw (add_sent_cache_evictions_lem evicted (record_prioritized clock s.metrics))
      (record { same = ap (λ g. (g.0, g.1, unix_now clock)) v.same; state = v.state; set = v.set })

event-IsMirrored :
    (kind : EventKind) (clock : Option ℕ) (m : Metrics)
    → IsMirrored m
    → IsMirrored (record_event kind clock m)
unfolding record_event
event-IsMirrored kind clock m v = record {
  same = ap (λ g. (g.0, unix_now clock, g.2)) v.same;
  state = v.state;
  set = v.set;
}

state-IsMirrored :
    (state : IpcState) (m : Metrics) → IsMirrored m → IsMirrored (set_ipc_state state m)
unfolding set_ipc_state
state-IsMirrored state m v = record {
  same = ap (λ g. (gauge state, g.1, g.2)) v.same;
  state = state;
  set = refl;
}

observed-IsMirrored :
    {Tx : Type 0} (res : ObserveResult Tx) (pool : PendingPool Tx) (expired : ℕ) (m : Metrics)
    → IsMirrored m
    → IsMirrored
        (note_observed res pool (if ltb 0 expired then add_backrun_expired expired m else m))
observed-IsMirrored res pool expired m v =
    rw (note_observed_lem res pool (if ltb 0 expired then add_backrun_expired expired m else m))
      (rw (expired_lem expired m) (keep-IsMirrored m _ refl refl v))

IsMirrored-Steps :
    {Tx : Type 0} (api : TxApi Tx)
    → Steps api (λ hash tx. Unit {0}) (λ r. Unit {0}) (λ (s : LoopState Tx). IsMirrored s.metrics)
unfolding observe_insert handle_gone record_insert record_send_failure record_reconnect
    set_sent_cache
IsMirrored-Steps api = record {
  event = λ clock s. event-IsMirrored _ clock s.metrics;
  inserted = λ s. keep-IsMirrored s.metrics _ refl refl;
  observed = λ hash tx world s any v. (observed-IsMirrored _ _ _ s.metrics v, All-any _);
  frame_sent = λ r clock s any new. note_sent-IsMirrored r clock s;
  send_failed = λ s. keep-IsMirrored s.metrics _ refl refl;
  gone = λ kind clock hash s other v.
      keep-IsMirrored (record_event kind clock s.metrics) _ refl refl
        (event-IsMirrored kind clock s.metrics v);
  state = λ st s. state-IsMirrored st s.metrics;
  reconnected = λ s. keep-IsMirrored s.metrics _ refl refl;
}

-- The name that stands for each value of the gauge.
pub data Names : ℤ → String → Type 0 where
  off : Names (negsuc 0) "disabled"
  trying : Names (pos 0) "connecting"
  on : Names (pos 1) "connected"

-- How a time is shown: not at all if it is zero, and as it is otherwise.
pub data Shows : ℤ → Option ℤ → Type 0 where
  never : Shows (pos 0) none
  at : (n : ℕ) → Shows (pos (suc n)) (some (pos (suc n)))
  before_epoch : (n : ℕ) → Shows (negsuc n) (some (negsuc n))

-- What `/health` shows, next to the gauges that `/metrics` renders.
pub record Consistent (m : Metrics) (health : HealthSnapshot) : Type 0 where
  pub ipc_state : Names m.txpool_ipc_state health.ipc_state
  pub last_event : Shows m.last_event_unix_seconds health.last_event_unix_seconds
  pub last_send : Shows m.last_send_unix_seconds health.last_send_unix_seconds

gauge-Names :
    (state : IpcState) → Names (gauge state) (ipc_state_str (ipc_state_from_gauge (gauge state)))
unfolding gauge ipc_state_str ipc_state_from_gauge
gauge-Names disabled = off
gauge-Names connecting = trying
gauge-Names connected = on

-- The name that a copy of the gauge is shown under.
copy-Names :
    (exported copy : ℤ) (state : IpcState)
    → exported ≡ gauge state
    → exported ≡ copy
    → Names exported (ipc_state_str (ipc_state_from_gauge copy))
copy-Names exported copy state set same =
    subst (λ c. Names exported (ipc_state_str (ipc_state_from_gauge c))) same
      (subst (λ g. Names g (ipc_state_str (ipc_state_from_gauge g))) (sym set) (gauge-Names state))

nonzero-Shows : (t : ℤ) → Shows t (nonzero t)
nonzero-Shows (pos zero) = never
nonzero-Shows (pos (suc n)) = at n
nonzero-Shows (negsuc n) = before_epoch n

copy-Shows : (exported copy : ℤ) → exported ≡ copy → Shows exported (nonzero copy)
copy-Shows exported copy same =
    subst (λ c. Shows exported (nonzero c)) same (nonzero-Shows exported)

-- Started in any mode with fresh metrics, after any inputs on any connections: the gauge of `/metrics`
-- is -1, 0 or 1 and `/health` says `disabled`, `connecting` or `connected` to it, in this order; and
-- `/health` shows the times of the last event and of the last send that the gauges have, or none for
-- zero, although it reads copies of all three.
pub run_attempts-Consistent :
    {Tx : Type 0} (api : TxApi Tx) (mode : PriorityMode) (attempts : List (Attempt Tx))
    → let m = (run_attempts api attempts (start api mode new_metrics)).0.metrics in
      Consistent m (snapshot m)
unfolding start new_metrics set_ipc_state snapshot
run_attempts-Consistent api mode attempts =
    let m = (run_attempts api attempts (start api mode new_metrics)).0.metrics in
    let v =
      run_attempts_keeps_always api _ (IsMirrored-Steps api) attempts (start api mode new_metrics)
        (record { same = refl; state = connecting; set = refl }) in
    record {
      ipc_state = copy-Names m.txpool_ipc_state m.ipc_state v.state v.set (ap (λ g. g.0) v.same);
      last_event = copy-Shows m.last_event_unix_seconds m.last_event_ts (ap (λ g. g.1) v.same);
      last_send = copy-Shows m.last_send_unix_seconds m.last_send_ts (ap (λ g. g.2) v.same);
    }
