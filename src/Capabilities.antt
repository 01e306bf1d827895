-- ===== src/Capabilities.antt =====
-- packages/capabilities/src: what is computed from canonical memory and never stored in it.
pub mod Decimal
pub mod Money
pub mod Json
pub mod Values
pub mod Canonical
pub mod Obligations
