-- ===== src/Registry.antt =====
-- The node kinds: src/fancy_flow/registry/kind_id.py, node_kind.py, registry.py, port_resolution.py.
pub mod KindId
pub mod NodeKind
pub mod Catalogue
pub mod Validation
pub mod Builtin
pub mod Ports
pub mod Samples
