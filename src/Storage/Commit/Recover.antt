-- ===== src/Storage/Commit/Recover.antt =====
-- What wal_recover does with the log of a statement, whole or cut off (vsql/wal.v).
use vsql.Base.{
  ℕ, zero, suc, ◌+◌, ◌-◌, ◌<◌, ◌≤◌, ◌≡◌, refl, sym, ap, ◌∙◌, inl, inr, Bool, true, false, some,
  none, List, [], ◌++◌, arith, ltb, length, take, Bool-cases, ltb→lt, lt→ltb,
}
use vsql.Base.Bytes.{Bytes}
use vsql.Storage.Numbers.{length-take}
use vsql.Storage.Pager.{FilePager}
use vsql.Storage.Disk.{put_byte, File, Disk, Write, perform, perform_all, torn, crash}
use vsql.Storage.Disk.Redo.{
  perform_all-append, perform_all-log, crash-log, crash-append, crash-after, crash_all, file-crash,
}
use vsql.Storage.Wal.{WalCommit, wal_header, wal_read}
use vsql.Storage.Commit.{
  changed_pages, committed, frames, is_newer, recovery, mark_checkpointed, wal_needs_recovery,
  wal_recover, wal_checkpoint,
}
use vsql.Storage.Commit.Log.{concat, take-append_long}
use vsql.Storage.Commit.Read.{IsWritable, log_of, length-header, wal_read-log, wal_read-take}
use vsql.Storage.Commit.Checkpoint.{
  file_writes, file_end, file_operations, file_operations-IsOnFile, wal_checkpoint-committed,
}

abbrev pub with_log : Bytes → File → Disk
with_log log file = record { log = some log; file = file }

is_newer_short : (log : Bytes) → length log < 32 → is_newer log ≡ false
unfolding is_newer
is_newer_short log h = rw (lt→ltb (length log) 32 h) refl

is_newer-header :
    (salt page_size : ℕ) (rest : Bytes) → is_newer (wal_header salt page_size ++ rest) ≡ false
unfolding is_newer wal_header
is_newer-header salt page_size rest = ground arith

needs-header :
    (salt page_size : ℕ) (rest : Bytes) (file : File)
    → wal_needs_recovery (with_log (wal_header salt page_size ++ rest) file) ≡ true
unfolding wal_needs_recovery wal_header
needs-header salt page_size rest file = ground arith

needs-marked :
    (salt page_size : ℕ) (rest : Bytes) (file : File)
    → wal_needs_recovery (with_log (put_byte 10 1 (wal_header salt page_size ++ rest)) file) ≡ false
unfolding wal_needs_recovery wal_header
needs-marked salt page_size rest file = ground arith

-- Nothing to do, or the operations of `recovery`.
pub recover_none : (d : Disk) → wal_needs_recovery d ≡ false → wal_recover d ≡ (d, true)
unfolding wal_recover
recover_none d h = rw h refl

recover_some :
    (log : Bytes) (file : File) (ws : List Write)
    → wal_needs_recovery (with_log log file) ≡ true
    → recovery log ≡ (ws, true)
    → wal_recover (with_log log file) ≡ (perform_all ws (with_log log file), true)
unfolding wal_recover
recover_some log file ws h k = rw (h, k) refl

recovery-none :
    (log : Bytes)
    → is_newer log ≡ false
    → wal_read log ≡ none
    → recovery log ≡ (mark_checkpointed, true)
unfolding recovery
recovery-none log h k = rw (h, k) refl

recovery-some :
    (log : Bytes) (c : WalCommit) (ws : List Write)
    → is_newer log ≡ false
    → wal_read log ≡ some c
    → wal_checkpoint c ≡ (ws, true)
    → recovery log ≡ (ws ++ mark_checkpointed, true)
unfolding recovery
recovery-some log c ws h k l = rw (h, k, l) refl

module _ (salt : ℕ) (p : FilePager) (header : Bytes) (w : IsWritable salt p header) where
  -- The database file once the statement is in it.
  abbrev pub after : File → File
  after file = (perform_all (file_operations p header) (with_log (log_of salt p header) file)).file

  long_log :
      (m : ℕ)
      → 32 ≤ m
      → (rest : Bytes) × (take m (log_of salt p header) ≡ wal_header salt p.page_size ++ rest)
  unfolding log_of
  long_log m h =
      let start = wal_header salt p.page_size in
      let body = concat (frames (changed_pages p) p.total_pages header salt) in
      let e : length start + (m - 32) ≡ m = omega (arith, length-header salt p.page_size) in
      (
        take (m - 32) body,
        ap (λ (j : ℕ). take j (start ++ body)) (sym e) ∙ take-append_long (m - 32) start body,
      )

  recover-log :
      (file : File)
      → wal_recover (with_log (log_of salt p header) file) ≡ (
        perform_all
            (file_operations p header ++ mark_checkpointed)
            (with_log (log_of salt p header) file),
        true,
      )
  unfolding log_of
  recover-log file =
      recover_some (log_of salt p header) file _ (needs-header salt p.page_size _ file) (
        recovery-some (log_of salt p header) (committed p header) _
          (is_newer-header salt p.page_size _) (wal_read-log salt p header w)
          (wal_checkpoint-committed salt p header w))

  -- The mark in the log leaves the file.
  pub file-mark :
      (ws : List Write) (d : Disk)
      → (perform_all (ws ++ mark_checkpointed) d).file ≡ (perform_all ws d).file
  unfolding perform_all perform
  file-mark ws d = ap (λ (e : Disk). e.file) (perform_all-append ws mark_checkpointed d)

  -- A log in which there is no statement is marked.
  recover-nothing :
      (log : Bytes) (file : File)
      → is_newer log ≡ false
      → wal_read log ≡ none
      → ((wal_recover (with_log log file)).1 ≡ true)
        × ((wal_recover (with_log log file)).0.file ≡ file)
  unfolding perform_all
  recover-nothing log file h k = elim (Bool-cases (wal_needs_recovery (with_log log file))) [
    | inl needs ↦
        let e = recover_some log file mark_checkpointed needs (recovery-none log h k) in
        (
          ap (λ (r : Disk × Bool). r.1) e,
          ap (λ (r : Disk × Bool). r.0.file) e ∙ file-mark [] (with_log log file),
        )
    | inr idle ↦
        let e = recover_none (with_log log file) idle in
        (ap (λ (r : Disk × Bool). r.1) e, ap (λ (r : Disk × Bool). r.0.file) e)
  ]

  is_newer-take :
      (m : ℕ) → m < length (log_of salt p header) → is_newer (take m (log_of salt p header)) ≡ false
  is_newer-take m h = elim (Bool-cases (ltb m 32)) [
    | inl short ↦
        is_newer_short (take m (log_of salt p header))
          (omega (arith, length-take m (log_of salt p header) (omega arith), ltb→lt m 32 short))
    | inr long ↦
        let (rest, k) = long_log m (ground arith) in
        ap is_newer k ∙ is_newer-header salt p.page_size rest
  ]

  -- The log without its end says nothing.
  pub recover-take :
      (m : ℕ) (file : File)
      → m < length (log_of salt p header)
      → ((wal_recover (with_log (take m (log_of salt p header)) file)).1 ≡ true)
        × ((wal_recover (with_log (take m (log_of salt p header)) file)).0.file ≡ file)
  recover-take m file h =
      recover-nothing (take m (log_of salt p header)) file (is_newer-take m h)
        (wal_read-take salt p header w m h)

  -- The file is written again when the log is whole.
  pub recover-redo :
      (d : Disk) (file : File)
      → d.log ≡ some (log_of salt p header)
      → (perform_all (file_operations p header) d).file ≡ after file
      → ((wal_recover d).1 ≡ true) × ((wal_recover d).0.file ≡ after file)
  recover-redo d file h k =
      let e : with_log (log_of salt p header) d.file ≡ d =
        λ i. record { log = sym h i; file = d.file } in
      let r = ap wal_recover (sym e) ∙ recover-log d.file in
      (
        ap (λ (r : Disk × Bool). r.1) r,
        ap (λ (r : Disk × Bool). r.0.file) r
            ∙ file-mark (file_operations p header) (with_log (log_of salt p header) d.file)
            ∙ ap (λ (t : Disk). (perform_all (file_operations p header) t).file) e
            ∙ k,
      )

  recover-marked :
      (j n : ℕ) (file : File)
      → let d =
          crash
            (suc j)
            n
            mark_checkpointed
            (perform_all (file_operations p header) (with_log (log_of salt p header) file)) in
        ((wal_recover d).1 ≡ true) × ((wal_recover d).0.file ≡ after file)
  unfolding crash perform log_of
  recover-marked j n file =
      let d = perform_all (file_operations p header) (with_log (log_of salt p header) file) in
      let l =
        perform_all-log (file_operations p header) (with_log (log_of salt p header) file)
          (file_operations-IsOnFile p header) in
      let e : with_log (log_of salt p header) d.file ≡ d =
        λ i. record { log = sym l i; file = d.file } in
      let marked = with_log (put_byte 10 1 (log_of salt p header)) d.file in
      let r =
        ap (λ (t : Disk). wal_recover (crash (suc j) n mark_checkpointed t)) (sym e)
        ∙ recover_none marked (needs-marked salt p.page_size _ d.file) in
      (ap (λ (t : Disk × Bool). t.1) r, ap (λ (t : Disk × Bool). t.0.file) r)

  -- The file has been written, and the log is marked or not.
  recover-mark :
      (j n : ℕ) (file : File)
      → let d =
          crash j n mark_checkpointed
            (perform_all (file_operations p header) (with_log (log_of salt p header) file)) in
        ((wal_recover d).1 ≡ true) × ((wal_recover d).0.file ≡ after file)
  unfolding crash torn
  recover-mark zero n file =
      let ws = file_operations p header in
      let d = with_log (log_of salt p header) file in
      recover-redo (perform_all ws d) file
        (perform_all-log ws d (file_operations-IsOnFile p header))
        (ap (λ (t : Disk). (perform_all ws t).file) (sym (crash_all n ws d))
          ∙ file-crash (length ws) n (file_writes p header) (file_end p header) d)
  recover-mark (suc j) n file = recover-marked j n file

  -- The process stops while it copies the statement into the file, or marks the log.
  pub recover-checkpoint :
      (k n : ℕ) (file : File)
      → let d =
          crash k n
            (file_operations p header ++ mark_checkpointed)
            (with_log (log_of salt p header) file) in
        ((wal_recover d).1 ≡ true) × ((wal_recover d).0.file ≡ after file)
  recover-checkpoint k n file =
      let ws = file_operations p header in
      let d = with_log (log_of salt p header) file in
      elim (Bool-cases (ltb k (length ws))) [
        | inl before ↦ rw (crash-append k n ws mark_checkpointed d (ltb→lt _ _ before)) (
            recover-redo (crash k n ws d) file
              (crash-log k n ws d (file_operations-IsOnFile p header))
              (file-crash k n (file_writes p header) (file_end p header) d))
        | inr behind ↦
            let e : length ws + (k - length ws) ≡ k = ground arith in
            rw (← e, crash-after (k - length ws) n ws mark_checkpointed d)
              (recover-mark (k - length ws) n file)
      ]
