-- ===== src/Lib.antt =====
-- magma-sidecar: a process beside a Monad node. It reads the events of the node's transaction pool over
-- a Unix socket, scores the calls of the searcher gateway, pairs backrun bids with the transactions
-- that they want to follow, and sends both back with a 256-bit priority.
--
-- The parts, and how they interact
--   Policy (src/policy.rs): the networks, the allowlisted gateway, the decoding of a gateway call, the
--     score `effective_priority_fee * gas_limit + bid`, and the layout of the priority.
--   Backrun (src/backrun.rs): the pool `PendingPool`: the cache of possible targets, the parked bids,
--     their FIFO queues, and `observe_at`, which asks Policy for the score and the priorities.
--   TxpoolIpc (src/txpool_ipc.rs): the dedup cache `SentCache` and the loop. For each event it updates
--     Metrics, and for an insert it prunes the pool, lets it observe, and sends what it answers.
--   Metrics (src/metrics.rs): counters, gauges, and the snapshot of `/health`.
--   Routes (src/routes.rs): the route table and the handlers of `/health` and `/metrics`.
--   Startup (src/config.rs, src/main.rs): the configuration, the startup guard, the constants, and the
--     start of the loop.
--
-- The files. The paths in this list are those of verification modules.
--   Prelude, Word: shared notation, lists, maps, sets, bits, and machine integers. `HashMap` is an
--     association list with distinct keys, `HashSet` a list, `VecDeque` a list with its front first. The
--     order of a map's list is the order of iteration, which the code leaves open.
--   Tx: what is taken from alloy, as the record of operations `TxApi`; `IsTxApi` has the widths of what
--     they return. Transactions are a type that every definition takes as a parameter, and addresses
--     and hashes are numbers.
--   Policy/Config, Policy/Score, Policy/Encoding: `Network`, `PolicyConfig`, `decode_gateway_call`,
--     `compute_priority`, and the `encode_` functions, under their names in the code. Encoding/Slots
--     has the intended order of priorities, Encoding/Order compares the two, and Encoding/Seat has what
--     fits between a target and a bid.
--   Backrun/Pool: the data. Backrun/Queues: `insert_cache`, `push_pending`, `prune` and `forget`; each
--     loop that pops a queue is a recursion on that queue, so it needs no fuel. Below it stand the
--     invariants: Cache and Expiry for the cache, Parked, Evict and ExpireParked for the parked bids,
--     and Room where nothing is evicted; Induction has the rules for the loops over the queues, and
--     Holds what single entries keep; Search, Overdue and Orderly follow what is found under a target
--     and a hash, and the times of the bids along their queue. Backrun/Observe: `observe_at`, split into
--     its branches, with closed forms in Branches and the case split in Cases. Backrun/Invariant,
--     Backrun/Pairing, Backrun/Arrival, Backrun/Lead, Backrun/Flush, Backrun/Accounting,
--     Backrun/Origin, Backrun/Streamed, Backrun/Expire and Backrun/Timely: what holds of the pool.
--   TxpoolIpc/Sent: the dedup cache; below it, against a set of hashes (Refines). TxpoolIpc/Event: one
--     event and a batch; below it echoes (Dedup), inserts that send nothing (Safety), sends that succeed
--     (Complete, Lead) and a send that fails (Lost). TxpoolIpc/Loop: one connection (`run_connection`),
--     all of them (`run_attempts`), and `run_txpool_priority_loop`; below it the induction over a run
--     (Delivery, Induction), and what holds of whole runs (Invariant, Run, Origin, Ranked, Accounting
--     with Counts, Once, Echo, Mirror, Return, Reconnect, Resume). Retry has the rounds without
--     a connection on a clock, with `sleep_or_shutdown`.
--     Time, the outcomes of sends, and what arrives are arguments (`World`, `Input`, `Attempt`), so a
--     run is a recursion on the list of inputs and needs no fuel. `LoopState.wire` records every frame
--     sent.
--   Metrics/Health: `snapshot`. Routes: the route table, the handlers, and `render_prometheus`.
--     Metrics/Mirror, Routes/Count, Startup/Guard: what holds of these; Routes/Turns interleaves
--     requests with the events of the loop (Apart).
--   Startup: `main`, with the errors of the bind and of the server as an argument (`Surroundings`).
--   Examples: sample transactions, the properties at concrete inputs, whole runs of the loop, and the
--     unit tests of src/policy.rs (PolicyTests), src/backrun.rs and src/txpool_ipc.rs (UnitTests) on
--     the model.
--
-- Integers. `U256` saturates or wraps at 2 ^ 256 as the code does; `pending_count` wraps at 2 ^ 64, as
--   in a release build; `Instant` and `Duration` are milliseconds, and `duration_since` is zero for an
--   instant in the future. Counters are natural numbers, without the wrap of `u64`.
--
-- Not modelled: the wire format and the client of monad-eth-txpool-ipc, the ABI decoder and signature
--   types of alloy, the registration and text encoding of Prometheus metrics (the registry and the
--   encoder are parameters of the handler), the matching of requests to routes, JSON, command-line
--   parsing, signals and logging; these are library calls or have no effect on the state modelled.
pub mod Prelude
pub mod Word
pub mod Tx
pub mod Policy
pub mod Backrun
pub mod Metrics
pub mod TxpoolIpc
pub mod Routes
pub mod Startup
pub mod Examples
