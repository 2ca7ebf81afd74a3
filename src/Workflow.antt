-- ===== src/Workflow.antt =====
-- src/fancy_flow/workflow.py: WorkflowSchema documents and the graphs they hold.
pub mod Migration
pub mod Nodes
pub mod Reading
pub mod Writing
pub mod Metadata
pub mod RoundTrip
