-- ===== src/TxpoolIpc.antt =====
-- src/txpool_ipc.rs: the loop that reads events from the node and sends transactions back.
pub mod Sent
pub mod Event
pub mod Loop
