-- ===== src/Storage/Commit.antt =====
-- What a statement does to the disk: committing it, copying it into the database file, and doing that
-- again after the process has stopped (vsql/wal.v).
pub mod Log
pub mod Read
pub mod Checkpoint
pub mod Recover
pub mod Crash
pub mod Done
use vsql.Base.{
  ℕ, zero, suc, ◌+◌, ◌-◌, ◌*◌, ◌/◌, ◌%◌, ◌^◌, Bool, true, false, not, ◌&&◌, ◌||◌, Option, none,
  some, List, [], ◌∷◌, ◌++◌, map, ltb, leb, ◌==◌, if◌then◌else◌, length, take, set,
}
use vsql.Base.Ints.{ℤ, pos, negsuc, eqz, is_negative, to_ℕ}
use vsql.Base.Bytes.{Bytes, bytes, str_eq}
use vsql.Storage.Numbers.{drop, byte_at, get_u16, to_u64}
use vsql.Storage.Pager.{PageMap, lookup, FilePager}
use vsql.Storage.Disk.{Disk, Write, append, create, write_state, write_at, truncate, perform_all}
use vsql.Storage.Wal.{
  Pages, put_page, WalCommit, wal_read, wal_header, wal_frame, wal_magic, wal_version,
  wal_header_size, wal_state_offset, wal_state_checkpointed, wal_frame_page, wal_frame_commit,
}

-- The sum of the size of the header of the file and a product, if it is not negative.
abbrev header_size : ℕ
header_size = 4096

below_header : ℕ → Option ℕ
below_header n = if leb n header_size then some (header_size - n) else none

unfoldable page_offset : ℤ → ℤ → Option ℕ
unfolding below_header
page_offset (pos size) (pos n) = some (header_size + size * n)
page_offset (negsuc size) (negsuc n) = some (header_size + suc size * suc n)
page_offset (pos size) (negsuc n) = below_header (size * suc n)
page_offset (negsuc size) (pos n) = below_header (suc size * n)

-- u64(header_size) + u64(page_size) * u64(total_pages), which is an off_t of the operating system
unfoldable file_size : ℤ → ℤ → Option ℕ
file_size size total =
    let n = (header_size + to_u64 size * to_u64 total) % 2 ^ 64 in
    if ltb n (2 ^ 63) then some n else none

-- The operations until one fails, and whether none does.
abbrev pub Writes : Type 0
Writes = List Write × Bool

abbrev first_write : Write → Writes → Writes
first_write w (ws, done) = (w ∷ ws, done)

unfoldable page_writes : ℤ → Pages → Writes → Writes
unfolding page_offset
page_writes size [] rest = rest
page_writes size ((n, page) ∷ pages) rest = elim (page_offset size n) [
  | none ↦ ([], false)
  | some start ↦ first_write (write_at start page) (page_writes size pages rest)
]

unfoldable pub wal_checkpoint : WalCommit → Writes
unfolding page_writes file_size
wal_checkpoint c = page_writes c.page_size c.pages (
    first_write (write_at 0 c.header_bytes) (elim (file_size c.page_size c.total_pages) [
      | none ↦ ([], false)
      | some n ↦ (truncate n ∷ [], true)
    ]))

-- The numbers of the changed pages, sorted.
insert_sorted : ℕ → List ℕ → List ℕ
insert_sorted n [] = n ∷ []
insert_sorted n (k ∷ ks) = if leb n k then n ∷ k ∷ ks else k ∷ insert_sorted n ks

unfoldable page_numbers : ℕ → PageMap → List ℕ
unfolding insert_sorted
page_numbers total [] = []
page_numbers total ((n, page) ∷ dirty) =
    if ltb n total then insert_sorted n (page_numbers total dirty) else page_numbers total dirty

abbrev page_or_empty : Option Bytes → Bytes
page_or_empty none = []
page_or_empty (some page) = page

-- The changed pages in the order of their numbers.
unfoldable pub changed_pages : FilePager → List (ℕ × Bytes)
unfolding page_numbers lookup
changed_pages p =
    map (λ (n : ℕ). (n, page_or_empty (lookup n p.dirty))) (page_numbers p.total_pages p.dirty)

unfoldable pub pages_of : List (ℕ × Bytes) → Pages → Pages
unfolding put_page
pages_of [] pages = pages
pages_of ((n, page) ∷ rest) pages = pages_of rest (put_page (pos n) page pages)

-- The frames of the pages, and then the frame of the commit.
unfoldable pub frames : List (ℕ × Bytes) → ℕ → Bytes → ℕ → List Bytes
unfolding wal_frame
frames [] total header checksum = (wal_frame wal_frame_commit total header checksum).0 ∷ []
frames ((n, page) ∷ rest) total header checksum =
    let (frame, next) = wal_frame wal_frame_page n page checksum in
    frame ∷ frames rest total header next

abbrev pub committed : FilePager → Bytes → WalCommit
committed p header = record {
  page_size = pos p.page_size;
  pages = pages_of (changed_pages p) [];
  header_bytes = header;
  total_pages = pos p.total_pages;
}

-- log.seek(wal_state_offset, .start)! and log.write([wal_state_checkpointed])!
abbrev pub mark_checkpointed : List Write
mark_checkpointed = write_state wal_state_offset wal_state_checkpointed ∷ []

-- The operations of wal_commit. A checkpoint that fails leaves the log as it is.
unfoldable pub wal_commit : ℕ → FilePager → Bytes → List Write
unfolding wal_header frames changed_pages pages_of wal_checkpoint
wal_commit salt p header =
    create
      ∷ map append
          (wal_header salt p.page_size ∷ frames (changed_pages p) p.total_pages header salt)
    ++ (let (ws, done) = wal_checkpoint (committed p header) in
        if done then ws ++ mark_checkpointed else ws)

-- Reading from an empty log is an error.
unfoldable pub wal_needs_recovery : Disk → Bool
wal_needs_recovery d = elim d.log [
  | none ↦ false
  | some log ↦
      length log == 0
      || not (ltb (length log) wal_header_size)
        && not (byte_at (drop wal_state_offset log) == wal_state_checkpointed)
]

-- The log was written by a newer version.
unfoldable pub is_newer : Bytes → Bool
unfolding str_eq
is_newer log =
    not (ltb (length log) wal_header_size)
    && str_eq (take 8 log) wal_magic
    && ltb wal_version (get_u16 (drop 8 log))

abbrev log_of : Disk → Bytes
log_of d = elim d.log [ none ↦ [] | some log ↦ log ]

-- The operations of wal_recover on the log of the disk.
unfoldable pub recovery : Bytes → Writes
unfolding is_newer wal_read wal_checkpoint
recovery log = if is_newer log then ([], false) else elim (wal_read log) [
  | none ↦ (mark_checkpointed, true)
  | some c ↦
      let (ws, done) = wal_checkpoint c in
      if done then (ws ++ mark_checkpointed, true) else (ws, false)
]

-- wal_recover: the disk after it, and whether it succeeds
unfoldable pub wal_recover : Disk → Disk × Bool
unfolding wal_needs_recovery recovery perform_all
wal_recover d =
    if not (wal_needs_recovery d)
    then (d, true)
    else let (ws, done) = recovery (log_of d) in (perform_all ws d, done)
