-- ===== src/Durable.antt =====
-- src/fancy_flow/durable: runs whose nodes are executed one job at a time.
pub mod State
pub mod Frontier
pub mod Dispatch
pub mod Retry
pub mod Replay
pub mod Coordinator
pub mod Samples
