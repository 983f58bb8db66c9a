-- ===== src/Storage.antt =====
-- The database file of the engine: its pages, transactions and write-ahead log (vsql/*.v).
pub mod Numbers
pub mod Page
pub mod Pager
pub mod Disk
pub mod Wal
pub mod Commit
pub mod Mvcc
