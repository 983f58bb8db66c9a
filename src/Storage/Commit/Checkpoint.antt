-- ===== src/Storage/Commit/Checkpoint.antt =====
-- The operations that copy a committed statement into the database file (vsql/wal.v).
use vsql.Base.{
  ℕ, ◌+◌, ◌*◌, ◌%◌, ◌^◌, ◌<◌, ◌≤◌, ◌≡◌, refl, sym, ap, ◌∙◌, inl, inr, true, some, List, [], ◌∷◌,
  ◌++◌, arith, All, Bool-cases,
}
use vsql.Base.Ints.{ℤ, pos, negsuc, eqz}
use vsql.Base.Bytes.{Bytes}
use native.Mathlib.Nat.{mul-le-mul}
use mathlib.Core.List.{append_assoc}
use vsql.Storage.Pager.{FilePager}
use vsql.Storage.Disk.{Write, write_at, truncate}
use vsql.Storage.Disk.Redo.{IsOnFile}
use vsql.Storage.Wal.{Pages, put_page}
use vsql.Storage.Commit.{
  Writes, page_writes, file_size, page_offset, pages_of, changed_pages, committed, wal_checkpoint,
}
use vsql.Storage.Commit.Read.{IsWritable}

abbrev IsNatural : ℤ × Bytes → Type 0
IsNatural (pos n, page) = Unit
IsNatural (negsuc n, page) = ⊥

put_page-IsNatural :
    (n : ℕ) (page : Bytes) (pages : Pages)
    → All IsNatural pages
    → All IsNatural (put_page (pos n) page pages)
unfolding put_page
put_page-IsNatural n page [] h = (tt, tt)
put_page-IsNatural n page ((pos k, old) ∷ pages) h = elim (Bool-cases (eqz (pos k) (pos n))) [
  | inl e ↦ rw e (tt, h.1)
  | inr e ↦ rw e (tt, put_page-IsNatural n page pages h.1)
]
put_page-IsNatural n page ((negsuc k, old) ∷ pages) h = absurd h.0

pages_of-IsNatural :
    (list : List (ℕ × Bytes)) (pages : Pages)
    → All IsNatural pages
    → All IsNatural (pages_of list pages)
unfolding pages_of
pages_of-IsNatural [] pages h = h
pages_of-IsNatural ((n, page) ∷ list) pages h =
    pages_of-IsNatural list (put_page (pos n) page pages) (put_page-IsNatural n page pages h)

-- The writes of the pages.
starts : ℕ → Pages → List Write
starts size [] = []
starts size ((pos n, page) ∷ pages) = write_at (4096 + size * n) page ∷ starts size pages
starts size ((negsuc n, page) ∷ pages) = starts size pages

page_writes-natural :
    (size : ℕ) (pages : Pages) (rest : Writes)
    → All IsNatural pages
    → page_writes (pos size) pages rest ≡ (starts size pages ++ rest.0, rest.1)
unfolding page_writes page_offset starts
page_writes-natural size [] rest h = refl
page_writes-natural size ((pos n, page) ∷ pages) rest h =
    rw (page_writes-natural size pages rest h.1) refl
page_writes-natural size ((negsuc n, page) ∷ pages) rest h = absurd h.0

starts-IsOnFile : (size : ℕ) (pages : Pages) → All IsOnFile (starts size pages)
unfolding starts
starts-IsOnFile size [] = tt
starts-IsOnFile size ((pos n, page) ∷ pages) = (tt, starts-IsOnFile size pages)
starts-IsOnFile size ((negsuc n, page) ∷ pages) = starts-IsOnFile size pages

IsOnFile-append : (ws us : List Write) → All IsOnFile ws → All IsOnFile us → All IsOnFile (ws ++ us)
IsOnFile-append [] us h k = k
IsOnFile-append (w ∷ ws) us h k = (h.0, IsOnFile-append ws us h.1 k)

file_size_lem :
    (size total : ℕ)
    → size < 2 ^ 31
    → total < 2 ^ 31
    → file_size (pos size) (pos total) ≡ some (4096 + size * total)
unfolding file_size
file_size_lem size total h k =
    let e : size % 2 ^ 64 ≡ size = omega arith in
    let f : total % 2 ^ 64 ≡ total = omega arith in
    let small : size * total ≤ 2 ^ 31 * 2 ^ 31 =
      mul-le-mul {n₂ = 2 ^ 31} {m₂ = 2 ^ 31} (omega arith) (omega arith) in
    rw (e, f) (ground arith)

module _ (p : FilePager) (header : Bytes) where
  -- The writes to the file before it is truncated.
  pub file_writes : List Write
  unfolding starts
  file_writes = starts p.page_size (pages_of (changed_pages p) []) ++ write_at 0 header ∷ []

  pub file_end : ℕ
  file_end = 4096 + p.page_size * p.total_pages

  abbrev pub file_operations : List Write
  file_operations = file_writes ++ truncate file_end ∷ []

  pub file_operations-IsOnFile : All IsOnFile file_operations
  unfolding file_writes
  file_operations-IsOnFile =
      let pages = starts p.page_size (pages_of (changed_pages p) []) in
      IsOnFile-append (pages ++ write_at 0 header ∷ []) (truncate file_end ∷ [])
        (IsOnFile-append pages (write_at 0 header ∷ [])
          (starts-IsOnFile p.page_size (pages_of (changed_pages p) [])) (tt, tt))
        (tt, tt)

pub wal_checkpoint-committed :
    (salt : ℕ) (p : FilePager) (header : Bytes)
    → IsWritable salt p header
    → wal_checkpoint (committed p header) ≡ (file_operations p header, true)
unfolding wal_checkpoint file_writes file_end
wal_checkpoint-committed salt p header w =
    let pages = pages_of (changed_pages p) [] in
    page_writes-natural p.page_size pages _ (pages_of-IsNatural (changed_pages p) [] tt)
    ∙ rw (file_size_lem p.page_size p.total_pages w.page_size_fits w.total_fits) (
        ap (λ (us : List Write). (us, true))
          (sym (
            append_assoc (starts p.page_size pages) (write_at 0 header ∷ [])
              (truncate (4096 + p.page_size * p.total_pages) ∷ []))))
