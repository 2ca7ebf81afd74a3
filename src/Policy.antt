-- ===== src/Policy.antt =====
-- src/fancy_flow/security/policy.py: what a graph from an untrusted author must satisfy.
pub mod Limits
pub mod Checks
pub mod Inspect
pub mod Values
pub mod Walked
pub mod Accepted
pub mod Kinds
pub mod Renamed
pub mod Imported
pub mod Samples
