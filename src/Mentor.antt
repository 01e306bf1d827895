-- ===== src/Mentor.antt =====
-- packages/mentor/src: the owner's goals and their priorities.
pub mod Goals
