-- ===== src/Text.antt =====
-- The routines of the runtime that walk over the bytes of a string.
pub mod Put
pub mod Name
pub mod Scan
