-- ===== src/Engine.antt =====
-- src/fancy_flow/engine: one module for each of its concerns.
pub mod Routing
pub mod Diagnostics
pub mod Inputs
pub mod Walk
pub mod Core
pub mod Turns
pub mod Resume
pub mod Worlds
pub mod Finished
pub mod Fed
pub mod Samples
