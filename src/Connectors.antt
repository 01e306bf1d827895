-- ===== src/Connectors.antt =====
-- packages/connectors/src: the connectors of an owner.
pub mod Grants
