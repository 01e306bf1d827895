-- ===== src/Registry.antt =====
-- packages/registry/src: how a release of the registry differs from the one before it.
pub mod Migration
