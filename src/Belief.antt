-- ===== src/Belief.antt =====
-- packages/belief/src: what a memory write may do to a belief.
pub mod Admission
pub mod Policy
pub mod Support
pub mod Assessments
pub mod Transactions
pub mod Conflicts
