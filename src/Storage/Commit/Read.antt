-- ===== src/Storage/Commit/Read.antt =====
-- What wal_read finds in the log that wal_commit writes (vsql/wal.v).
use vsql.Base.{
  ℕ, ◌+◌, ◌-◌, ◌^◌, ◌<◌, ◌≤◌, ◌≡◌, refl, sym, ap, ◌∙◌, inl, inr, true, false, none, some, List, [],
  ◌∷◌, ◌++◌, arith, ltb, length, take, All, Bool-cases, length-append, ltb→lt, lt→ltb, ==_refl,
}
use vsql.Base.Ints.{pos}
use vsql.Base.Bytes.{Bytes}
use vsql.Storage.Numbers.{get_u32-put, to_int_lem, length-take}
use vsql.Storage.Pager.{FilePager}
use vsql.Storage.Wal.{
  crc32, header_start, wal_header, wal_frame, wal_frame_page, has_header, wal_frames, wal_read,
}
use vsql.Storage.Commit.{changed_pages, committed, frames}
use vsql.Storage.Commit.Log.{concat, Fits, frames_read, frames-take, take-append_long}

crc32-lt : (content : Bytes) → crc32 content < 2 ^ 32
unfolding crc32
crc32-lt content = omega arith

module _ (salt page_size : ℕ) (rest : Bytes) where
  has_header-header : has_header (wal_header salt page_size ++ rest) ≡ true
  unfolding has_header wal_header
  has_header-header =
      let long : ltb (length (wal_header salt page_size ++ rest)) 32 ≡ false = ground arith in
      let e = get_u32-put _ (crc32-lt (header_start 0 salt page_size)) in rw (long, e, ==_refl) refl

  wal_read-header :
      page_size < 2 ^ 31
      → salt < 2 ^ 32
      → wal_read (wal_header salt page_size ++ rest)
        ≡ wal_frames (length (wal_header salt page_size ++ rest)) (pos page_size) salt [] none rest
  unfolding wal_read wal_header
  wal_read-header p q =
      rw
        (
          has_header-header,
          get_u32-put salt q,
          get_u32-put page_size (omega arith),
          to_int_lem page_size p,
        )
        refl

length-frames :
    (list : List (ℕ × Bytes)) (total : ℕ) (header : Bytes) (previous : ℕ)
    → length list ≤ length (concat (frames list total header previous))
unfolding frames wal_frame
length-frames [] total header previous = omega arith
length-frames ((n, page) ∷ list) total header previous =
    let frame = wal_frame wal_frame_page n page previous in
    let rest = concat (frames list total header frame.1) in
    omega (arith, length-append page rest, length-frames list total header frame.1)

pub length-header : (salt page_size : ℕ) → length (wal_header salt page_size) ≡ 32
unfolding wal_header
length-header salt page_size = refl

wal_read_short : (content : Bytes) → length content < 32 → wal_read content ≡ none
unfolding wal_read has_header
wal_read_short content h = rw (lt→ltb (length content) 32 h) refl

-- The log of a statement.
unfoldable pub log_of : ℕ → FilePager → Bytes → Bytes
log_of salt p header =
    wal_header salt p.page_size ++ concat (frames (changed_pages p) p.total_pages header salt)

-- The numbers in the log fit in an int, and the salt in a u32.
pub record IsWritable (salt : ℕ) (p : FilePager) (header : Bytes) : Type 0 where
  pub salt_fits : salt < 2 ^ 32
  pub page_size_fits : p.page_size < 2 ^ 31
  pub total_fits : p.total_pages < 2 ^ 31
  pub header_fits : length header < 2 ^ 31
  pub pages_fit : All Fits (changed_pages p)

module _ (salt : ℕ) (p : FilePager) (header : Bytes) (w : IsWritable salt p header) where
  abbrev start : Bytes
  start = wal_header salt p.page_size

  abbrev body : Bytes
  body = concat (frames (changed_pages p) p.total_pages header salt)

  -- For pages, numbers and a header that fit in the frames of the log: the log that wal_commit writes is
  -- read back by wal_read as the page size, the pages, the header and the number of pages.
  pub wal_read-log : wal_read (log_of salt p header) ≡ some (committed p header)
  unfolding log_of
  wal_read-log =
      wal_read-header salt p.page_size body w.page_size_fits w.salt_fits
      ∙ frames_read (pos p.page_size) p.total_pages header w.total_fits w.header_fits
          (changed_pages p) (length (start ++ body)) salt [] w.pages_fit
          (omega (
            arith,
            length-append start body,
            length-header salt p.page_size,
            length-frames (changed_pages p) p.total_pages header salt,
          ))

  -- For pages, numbers and a header that fit in the frames of the log: a log of wal_commit that is cut
  -- off anywhere is read as one without a statement.
  pub wal_read-take :
      (m : ℕ) → m < length (log_of salt p header) → wal_read (take m (log_of salt p header)) ≡ none
  unfolding log_of
  wal_read-take m h = elim (Bool-cases (ltb m 32)) [
    | inl short ↦
        wal_read_short (take m (start ++ body))
          (omega (arith, length-take m (start ++ body) (omega arith), ltb→lt m 32 short))
    | inr long ↦
        let d = m - length start in
        let e : length start + d ≡ m = ground (arith, length-header salt p.page_size) in
        let k : d < length body = omega (arith, length-append start body, h, e) in
        ap (λ (j : ℕ). wal_read (take j (start ++ body))) (sym e)
        ∙ ap wal_read (take-append_long d start body)
        ∙ wal_read-header salt p.page_size (take d body) w.page_size_fits w.salt_fits
        ∙ frames-take (pos p.page_size) p.total_pages header w.total_fits w.header_fits
            (changed_pages p) (length (start ++ take d body)) salt [] d w.pages_fit k
  ]
