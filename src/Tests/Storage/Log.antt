-- ===== src/Tests/Storage/Log.antt =====
-- A statement that changes two pages of a database file, and the log of it.
use vsql.Base.{◌≡◌, refl, ◌⊎◌, true, false, none, some, [], ◌∷◌, arith, take}
use vsql.Base.Bytes.{Bytes, bytes}
use vsql.Storage.Disk.{Disk, crash}
use vsql.Storage.Pager.{FilePager}
use vsql.Storage.Wal.{crc32, wal_header, next_frame, wal_read}
use vsql.Storage.Commit.{
  changed_pages, committed, wal_commit, wal_recover, wal_needs_recovery, frames,
}
use vsql.Storage.Commit.Read.{IsWritable, log_of, wal_read-log, wal_read-take}
use vsql.Storage.Commit.Crash.{committed_file, recover-crash, recover-committed, recover-finishes}

crc32_check : crc32 (bytes "123456789") ≡ 0xCBF43926
unfolding crc32
crc32_check = refl

abbrev pager : FilePager
pager = record {
  page_size = 4;
  total_pages = 3;
  dirty = (2, bytes "page") ∷ (0, bytes "root") ∷ (7, bytes "gone") ∷ [];
  root_page = 0;
  cache_size = 0;
  cache = [];
  cache_order = [];
  cache_next = 0;
}

abbrev header : Bytes
header = bytes "vsql"

changed_pages_run : changed_pages pager ≡ (0, bytes "root") ∷ (2, bytes "page") ∷ []
unfolding changed_pages
changed_pages_run = refl

pager-IsWritable : IsWritable 99 pager header
unfolding changed_pages
pager-IsWritable = record {
  salt_fits = omega arith;
  page_size_fits = omega arith;
  total_fits = omega arith;
  header_fits = omega arith;
  pages_fit = ((omega arith, omega arith), ((omega arith, omega arith), tt));
}

abbrev disk : Disk
disk = record { log = none; file = record { size = 4108; byte = λ n. 0 } }

disk_idle : wal_needs_recovery disk ≡ false
unfolding wal_needs_recovery
disk_idle = refl

wal_read-log_example : wal_read (log_of 99 pager header) ≡ some (committed pager header)
wal_read-log_example = wal_read-log 99 pager header pager-IsWritable

wal_read-take_example : wal_read (take 70 (log_of 99 pager header)) ≡ none
unfolding log_of wal_header frames changed_pages
wal_read-take_example = wal_read-take 99 pager header pager-IsWritable 70 (omega arith)

recover-crash_example :
    let r = wal_recover (crash 3 5 (wal_commit 99 pager header) disk) in
    (r.1 ≡ true)
    × ((r.0.file ≡ disk.file) ⊎ (r.0.file ≡ committed_file 99 pager header pager-IsWritable disk))
recover-crash_example = recover-crash 99 pager header pager-IsWritable disk disk_idle 3 5

recover-committed_example :
    let r = wal_recover (crash 6 2 (wal_commit 99 pager header) disk) in
    (r.1 ≡ true) × (r.0.file ≡ committed_file 99 pager header pager-IsWritable disk)
unfolding changed_pages
recover-committed_example =
    recover-committed 99 pager header pager-IsWritable disk 6 2 (omega arith)

recover-finishes_example :
    wal_needs_recovery (wal_recover (crash 3 5 (wal_commit 99 pager header) disk)).0 ≡ false
recover-finishes_example = recover-finishes 99 pager header pager-IsWritable disk disk_idle 3 5

-- The process has stopped after the log was written, before the file was changed.
abbrev stopped : Disk
stopped = record { log = some (log_of 99 pager header); file = disk.file }

stopped_recovers : (wal_recover stopped).1 ≡ true
unfolding wal_recover log_of wal_header frames changed_pages next_frame
stopped_recovers = refl
