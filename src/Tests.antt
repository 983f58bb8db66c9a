-- ===== src/Tests.antt =====
-- Tests, by the part that they exercise.
pub mod Texts
pub mod Programs
pub mod Storage
pub mod Items
