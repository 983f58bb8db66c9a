-- ===== src/Tests/Storage.antt =====
-- Runs of the write-ahead log, the pager and the pages at concrete inputs.
pub mod Log
pub mod Pages
