-- ===== src/Backrun.antt =====
-- src/backrun.rs: the pool that pairs backrun bids with their targets.
pub mod Pool
pub mod Queues
pub mod Observe
pub mod Invariant
pub mod Pairing
pub mod Lead
pub mod Flush
pub mod Origin
pub mod Accounting
pub mod Streamed
pub mod Arrival
pub mod Expire
pub mod Timely
