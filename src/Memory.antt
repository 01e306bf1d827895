-- ===== src/Memory.antt =====
-- packages/memory/src: beliefs over valid time and recorded time, and how they age.
pub mod Bitemporal
pub mod Slots
pub mod Overlay
pub mod Aging
