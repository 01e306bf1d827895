-- ===== src/Context.antt =====
-- packages/context/src: what of the memory is put before the owner.
pub mod Briefing
