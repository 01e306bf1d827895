-- ===== src/Review.antt =====
-- packages/review/src: when a question is put to the owner, and the rules learned from the answers.
pub mod Budgets
pub mod Interruption
pub mod Rules
