-- ===== src/Storage/Commit/Crash.antt =====
-- The process stops while it commits a statement, and the disk is recovered (vsql/wal.v).
use vsql.Base.{
  ℕ, zero, suc, ◌+◌, ◌-◌, ◌<◌, ◌≤◌, ◌≡◌, refl, sym, ap, ◌∙◌, ◌⊎◌, inl, inr, true, false, some, List,
  [], ◌∷◌, ◌++◌, map, arith, ltb, length, take, Bool-cases, ltb→lt, if◌then◌else◌, length-append,
}
use vsql.Base.Bytes.{Bytes}
use mathlib.Core.List.{append_assoc, append-nil}
use vsql.Storage.Disk.{File, Disk, Write, append, create, perform, perform_all, torn, crash}
use vsql.Storage.Pager.{FilePager}
use vsql.Storage.Disk.Redo.{perform_all-append, crash-after}
use vsql.Storage.Wal.{wal_header, wal_frame, wal_frame_page}
use vsql.Storage.Commit.{
  Writes, changed_pages, frames, wal_commit, wal_recover, wal_needs_recovery, mark_checkpointed,
}
use vsql.Storage.Commit.Read.{IsWritable, log_of}
use vsql.Storage.Commit.Checkpoint.{file_operations, wal_checkpoint-committed}
use vsql.Storage.Commit.Recover.{
  with_log, after, recover_none, file-mark, recover-take, recover-redo, recover-checkpoint,
}
use vsql.Storage.Commit.Done.{recover-done}
use vsql.Storage.Commit.Log.{concat, take-append_long}

take_part : (n : ℕ) (c rest : Bytes) → (m : ℕ) × (m ≤ length c) × (take n c ≡ take m (c ++ rest))
take_part zero c rest = (0, omega arith, refl)
take_part (suc n) [] rest = (0, omega arith, refl)
take_part (suc n) (b ∷ c) rest =
    let (m, l, e) = take_part n c rest in (suc m, omega arith, ap (λ (t : Bytes). b ∷ t) e)

-- The process stops while it writes the pieces of the log: some of their bytes are there.
crash_log :
    (chunks : List Bytes) (rest : List Write) (k n : ℕ) (log : Bytes) (file : File)
    → k < length chunks
    → (m : ℕ) × (m ≤ length (concat chunks))
      × (crash k n (map append chunks ++ rest) (with_log log file)
          ≡ with_log (log ++ take m (concat chunks)) file)
unfolding crash torn perform
crash_log [] rest k n log file h = absurd (omega arith)
crash_log (c ∷ chunks) rest zero n log file h =
    let (m, l, e) = take_part n c (concat chunks) in
    (
      m,
      omega (arith, length-append c (concat chunks)),
      ap (λ (t : Bytes). with_log (log ++ t) file) e,
    )
crash_log (c ∷ chunks) rest (suc k) n log file h =
    let (m, l, e) = crash_log chunks rest k n (log ++ c) file (omega arith) in
    (
      length c + m,
      omega (arith, length-append c (concat chunks)),
      e
          ∙ ap (λ (t : Bytes). with_log t file)
              (append_assoc log c (take m (concat chunks))
                ∙ ap (λ (t : Bytes). log ++ t) (sym (take-append_long m c (concat chunks)))),
    )

-- All the pieces have been written.
perform_log :
    (chunks : List Bytes) (log : Bytes) (file : File)
    → perform_all (map append chunks) (with_log log file) ≡ with_log (log ++ concat chunks) file
unfolding perform_all perform
perform_log [] log file = ap (λ (t : Bytes). with_log t file) (sym (append-nil log))
perform_log (c ∷ chunks) log file =
    perform_log chunks (log ++ c) file
    ∙ ap (λ (t : Bytes). with_log t file) (append_assoc log c (concat chunks))

length-map : (chunks : List Bytes) → length (map append chunks) ≡ length chunks
length-map [] = refl
length-map (c ∷ chunks) = ap suc (length-map chunks)

take_all : (xs : Bytes) → take (length xs) xs ≡ xs
take_all [] = refl
take_all (x ∷ xs) = ap (λ (t : Bytes). x ∷ t) (take_all xs)

length-frames :
    (list : List (ℕ × Bytes)) (total : ℕ) (header : Bytes) (previous : ℕ)
    → length (frames list total header previous) ≡ length list + 1
unfolding frames
length-frames [] total header previous = refl
length-frames ((n, page) ∷ list) total header previous =
    omega (arith, length-frames list total header (wal_frame wal_frame_page n page previous).1)

-- The pieces of the log.
abbrev chunks_of : ℕ → FilePager → Bytes → List Bytes
chunks_of salt p header =
    wal_header salt p.page_size ∷ frames (changed_pages p) p.total_pages header salt

module _ (salt : ℕ) (p : FilePager) (header : Bytes) (w : IsWritable salt p header) where
  wal_commit_lem :
      wal_commit salt p header
      ≡ create
        ∷ (map append (chunks_of salt p header) ++ (file_operations p header ++ mark_checkpointed))
  unfolding wal_commit
  wal_commit_lem =
      ap
        (λ (x : Writes).
          create
          ∷ (map append (chunks_of salt p header)
              ++ (if x.1 then x.0 ++ mark_checkpointed else x.0)))
        (wal_checkpoint-committed salt p header w)

  -- The file after a statement that is not stopped.
  abbrev pub committed_file : Disk → File
  committed_file d = (perform_all (wal_commit salt p header) d).file

  committed_file_lem : (d : Disk) → committed_file d ≡ after salt p header w d.file
  unfolding perform_all perform log_of
  committed_file_lem d =
      let ops = file_operations p header ++ mark_checkpointed in
      let logs = map append (chunks_of salt p header) in
      ap (λ (ws : List Write). (perform_all ws d).file) wal_commit_lem
      ∙ ap (λ (t : Disk). t.file) (perform_all-append logs ops (with_log [] d.file))
      ∙ ap (λ (t : Disk). (perform_all ops t).file)
          (perform_log (chunks_of salt p header) [] d.file)
      ∙ file-mark salt p header w (file_operations p header)
          (with_log (log_of salt p header) d.file)

  -- The log that the process has written a part of.
  recover-part :
      (m : ℕ) (file : File)
      → m ≤ length (log_of salt p header)
      → let d = with_log (take m (log_of salt p header)) file in
        ((wal_recover d).1 ≡ true)
        × (((wal_recover d).0.file ≡ file) ⊎ ((wal_recover d).0.file ≡ after salt p header w file))
  recover-part m file l = elim (Bool-cases (ltb m (length (log_of salt p header)))) [
    | inl cut ↦ let (r, s) = recover-take salt p header w m file (ltb→lt _ _ cut) in (r, inl s)
    | inr whole ↦
        let e : m ≡ length (log_of salt p header) = ground arith in
        let k = ap (λ (j : ℕ). take j (log_of salt p header)) e ∙ take_all (log_of salt p header) in
        let (r, s) =
          recover-redo salt p header w (with_log (take m (log_of salt p header)) file) file
            (ap (λ (t : Bytes). some t) k)
            (ap (λ (t : Bytes). (perform_all (file_operations p header) (with_log t file)).file)
              k) in
        (r, inr s)
  ]

  -- The process stops while it writes the log.
  crash-in_log :
      (k n : ℕ) (file : File)
      → k < length (chunks_of salt p header)
      → let d =
          crash k n
            (map append (chunks_of salt p header)
              ++ (file_operations p header ++ mark_checkpointed))
            (with_log [] file) in
        ((wal_recover d).1 ≡ true)
        × (((wal_recover d).0.file ≡ file) ⊎ ((wal_recover d).0.file ≡ after salt p header w file))
  unfolding log_of
  crash-in_log k n file h =
      let (m, l, e) =
        crash_log (chunks_of salt p header) (file_operations p header ++ mark_checkpointed) k n []
          file h in
      rw e (recover-part m file l)

  -- The process stops after it has written the log.
  crash-behind_log :
      (j n : ℕ) (file : File)
      → let d =
          crash
            (length (chunks_of salt p header) + j)
            n
            (map append (chunks_of salt p header)
              ++ (file_operations p header ++ mark_checkpointed))
            (with_log [] file) in
        ((wal_recover d).1 ≡ true) × ((wal_recover d).0.file ≡ after salt p header w file)
  unfolding log_of
  crash-behind_log j n file =
      let logs = map append (chunks_of salt p header) in
      let ops = file_operations p header ++ mark_checkpointed in
      let e =
        ap (λ (i : ℕ). crash (i + j) n (logs ++ ops) (with_log [] file))
          (sym (length-map (chunks_of salt p header)))
        ∙ crash-after j n logs ops (with_log [] file)
        ∙ ap (crash j n ops) (perform_log (chunks_of salt p header) [] file) in
      rw e (recover-checkpoint salt p header w j n file)

  -- After wal_commit has made the log.
  crash-created :
      (k n : ℕ) (d : Disk)
      → let r = wal_recover (crash (suc k) n (wal_commit salt p header) d) in
        (r.1 ≡ true)
        × ((r.0.file ≡ d.file) ⊎ (r.0.file ≡ committed_file d))
        × (length (chunks_of salt p header) ≤ k → r.0.file ≡ committed_file d)
  unfolding crash perform
  crash-created k n d =
      rw (wal_commit_lem, committed_file_lem d)
        (elim (Bool-cases (ltb k (length (chunks_of salt p header)))) [
          | inl before ↦
              let (r, s) = crash-in_log k n d.file (ltb→lt _ _ before) in
              (r, s, λ h. absurd (ground arith))
          | inr behind ↦
              let e : length (chunks_of salt p header) + (k - length (chunks_of salt p header))
                  ≡ k =
                ground arith in
              let (r, s) = crash-behind_log (k - length (chunks_of salt p header)) n d.file in
              rw (← e) (r, inr s, λ h. s)
        ])

  -- For pages, numbers and a header that fit in the frames of the log: if the process stops after it
  -- has written the commit frame, which stands after the header of the log and one frame for each
  -- changed page, wal_recover succeeds, and the database file is as it is after the whole of
  -- wal_commit, whatever the log was before.
  pub recover-committed :
      (d : Disk) (k n : ℕ)
      → length (changed_pages p) + 3 ≤ k
      → let r = wal_recover (crash k n (wal_commit salt p header) d) in
        (r.1 ≡ true) × (r.0.file ≡ committed_file d)
  recover-committed d zero n h = absurd (omega arith)
  recover-committed d (suc k) n h =
      let (r, s, t) = crash-created k n d in
      (r, t (omega (arith, length-frames (changed_pages p) p.total_pages header salt)))

  module _ (d : Disk) (idle : wal_needs_recovery d ≡ false) where
    -- For pages, numbers and a header that fit in the frames of the log, and a log that had nothing to
    -- recover: wherever the process stops in wal_commit, in the middle of a write too, wal_recover
    -- succeeds, and the database file is as it was before the statement, or as it is after the whole of
    -- wal_commit.
    pub recover-crash :
        (k n : ℕ)
        → let r = wal_recover (crash k n (wal_commit salt p header) d) in
          (r.1 ≡ true) × ((r.0.file ≡ d.file) ⊎ (r.0.file ≡ committed_file d))
    unfolding crash torn
    recover-crash zero n = rw (wal_commit_lem, recover_none d idle) (refl, inl refl)
    recover-crash (suc k) n = let (r, s, t) = crash-created k n d in (r, s)

    -- For pages, numbers and a header that fit in the frames of the log, and a log that had nothing to
    -- recover: wherever the process stops in wal_commit, there is nothing to recover after one
    -- wal_recover.
    pub recover-finishes :
        (k n : ℕ)
        → wal_needs_recovery (wal_recover (crash k n (wal_commit salt p header) d)).0 ≡ false
    recover-finishes k n =
        recover-done (crash k n (wal_commit salt p header) d) (recover-crash k n).0
