-- ===== src/Storage/Wal.antt =====
-- The write-ahead log (vsql/wal.v). The operations of wal_commit on the disk are a list, since the
-- process can stop after any of them.
pub mod Frames
use vsql.Base.{
  ℕ, zero, suc, ◌+◌, ◌-◌, ◌*◌, ◌/◌, ◌%◌, ◌^◌, Bool, true, false, not, ◌&&◌, ◌||◌, Option, none,
  some, List, [], ◌∷◌, ◌++◌, map, ltb, leb, ◌==◌, if◌then◌else◌, length, take, set,
}
use vsql.Base.Ints.{ℤ, pos, negsuc, eqz, is_negative, to_ℕ}
use vsql.Base.Bytes.{Bytes, bytes, str_eq}
use Prim.Native.Nat.{bit_xor}
use mathlib.Core.List.{foldl}
use vsql.Storage.Numbers.{drop, byte_at, put_u16, get_u16, put_u32, get_u32, to_int, to_u64}

-- hash.crc32: the CRC-32 of IEEE 802.3, bit by bit
crc_bits : ℕ → ℕ → ℕ
crc_bits zero c = c
crc_bits (suc n) c = crc_bits n (if c % 2 == 1 then bit_xor (c / 2) 0xEDB88320 else c / 2)

abbrev crc_byte : ℕ → ℕ → ℕ
crc_byte c b = crc_bits 8 (bit_xor c b)

unfoldable pub crc32 : Bytes → ℕ
unfolding crc_bits
crc32 content = bit_xor (foldl crc_byte 0xFFFFFFFF content) 0xFFFFFFFF % 2 ^ 32

abbrev pub wal_magic : Bytes
wal_magic = bytes "vsqlwal\n"

abbrev pub wal_version : ℕ
wal_version = 1

abbrev pub wal_header_size : ℕ
wal_header_size = 32

abbrev pub wal_frame_header_size : ℕ
wal_frame_header_size = 16

abbrev pub wal_state_offset : ℕ
wal_state_offset = 10

abbrev pub wal_state_committed : ℕ
wal_state_committed = 0

abbrev pub wal_state_checkpointed : ℕ
wal_state_checkpointed = 1

abbrev pub wal_frame_page : ℕ
wal_frame_page = 1

abbrev pub wal_frame_commit : ℕ
wal_frame_commit = 2

-- The header of the log without its checksum, with a state.
abbrev pub header_start : ℕ → ℕ → ℕ → Bytes
header_start state salt page_size =
    wal_magic
    ++ put_u16 wal_version
    ++ state ∷ 0 ∷ put_u32 page_size
    ++ put_u32 salt
    ++ 0 ∷ 0 ∷ 0 ∷ 0 ∷ 0 ∷ 0 ∷ 0 ∷ 0 ∷ []

unfoldable pub wal_header : ℕ → ℕ → Bytes
wal_header salt page_size =
    header_start wal_state_committed salt page_size
    ++ put_u32 (crc32 (header_start wal_state_committed salt page_size))

unfoldable pub wal_checksum : ℕ → Bytes → Bytes → ℕ
wal_checksum previous frame_header content = crc32 (put_u32 previous ++ (frame_header ++ content))

abbrev pub frame_start : ℕ → ℕ → Bytes → Bytes
frame_start kind number content = kind ∷ 0 ∷ 0 ∷ 0 ∷ put_u32 number ++ put_u32 (length content)

-- The bytes of a frame and its checksum.
unfoldable pub wal_frame : ℕ → ℕ → Bytes → ℕ → Bytes × ℕ
wal_frame kind number content previous =
    let checksum = wal_checksum previous (frame_start kind number content) content in
    (frame_start kind number content ++ (put_u32 checksum ++ content), checksum)

-- map[int][]u8, in the order in which the keys were added
abbrev pub Pages : Type 0
Pages = List (ℤ × Bytes)

unfoldable pub put_page : ℤ → Bytes → Pages → Pages
put_page n page [] = (n, page) ∷ []
put_page n page ((k, old) ∷ pages) =
    if eqz k n then (k, page) ∷ pages else (k, old) ∷ put_page n page pages

-- struct WalCommit
pub record WalCommit : Type 0 where
  pub page_size : ℤ
  pub pages : Pages
  pub header_bytes : Bytes
  pub total_pages : ℤ

pub record Frame : Type 0 where
  pub kind : ℕ
  pub number : ℤ
  pub content : Bytes
  pub checksum : ℕ
  pub rest : Bytes

-- The frame that the rest of the log starts with, unless it is cut off or has another checksum.
-- The end of the frame is an offset that an int holds.
unfoldable pub next_frame : ℕ → Bytes → Option Frame
unfolding to_int wal_checksum
next_frame checksum rest =
    if ltb (length rest) wal_frame_header_size
    then none
    else let len = to_int (get_u32 (drop 8 rest)) in
      if is_negative len || ltb (length rest) (wal_frame_header_size + to_ℕ len)
      then none
      else let content = take (to_ℕ len) (drop wal_frame_header_size rest) in
        if not (wal_checksum checksum (take 12 rest) content == get_u32 (drop 12 rest))
        then none
        else some record {
          kind = byte_at rest;
          number = to_int (get_u32 (drop 4 rest));
          content = content;
          checksum = get_u32 (drop 12 rest);
          rest = drop (to_ℕ len) (drop wal_frame_header_size rest);
        }

-- The pages and the statement that have been read, with one more frame. A frame of an unknown kind
-- ends the log.
unfoldable pub keep_frame : ℤ → Frame → Pages → Option WalCommit → Option (Pages × Option WalCommit)
unfolding put_page
keep_frame page_size f pages commit =
    if f.kind == wal_frame_page
    then some (put_page f.number f.content pages, commit)
    else if f.kind == wal_frame_commit
    then some (
      pages,
      some record {
        page_size = page_size;
        pages = pages;
        header_bytes = f.content;
        total_pages = f.number;
      },
    )
    else none

-- The loop of wal_read, over the rest of the log.
unfoldable pub wal_frames : ℕ → ℤ → ℕ → Pages → Option WalCommit → Bytes → Option WalCommit
unfolding keep_frame
wal_frames zero page_size checksum pages commit rest = commit
wal_frames (suc fuel) page_size checksum pages commit rest = elim (next_frame checksum rest) [
  | none ↦ commit
  | some f ↦ elim (keep_frame page_size f pages commit) [
    | none ↦ commit
    | some (pages', commit') ↦ wal_frames fuel page_size f.checksum pages' commit' f.rest
  ]
]

-- The log has a header with the right checksum, which does not cover the state.
unfoldable pub has_header : Bytes → Bool
unfolding crc32 str_eq
has_header content =
    not (ltb (length content) wal_header_size)
    && str_eq (take 8 content) wal_magic
    && crc32 (take 28 (set content wal_state_offset 0)) == get_u32 (drop 28 content)

unfoldable pub wal_read : Bytes → Option WalCommit
unfolding has_header to_int wal_frames
wal_read content =
    if not (has_header content)
    then none
    else wal_frames (length content) (to_int (get_u32 (drop 12 content)))
        (get_u32 (drop 16 content)) [] none (drop wal_header_size content)
