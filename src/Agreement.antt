-- ===== src/Agreement.antt =====
-- After a statement, the status parameter agrees with the diagnostics area.
pub mod Rules
pub mod Sessions
pub mod Statements
pub mod Cursors
pub mod Descriptors
pub mod Prepareds
pub mod Dynamic
