-- ===== src/Storage/Commit/Done.antt =====
-- A recovery that succeeds is the last one (vsql/wal.v).
use vsql.Base.{
  ℕ, zero, suc, ◌<◌, ◌≡◌, refl, inl, inr, Bool, true, false, Option, some, none, List, [], ◌∷◌,
  ◌++◌, arith, if◌then◌else◌, length, All, Bool-cases,
}
use vsql.Base.Ints.{ℤ}
use vsql.Base.Bytes.{Bytes}
use vsql.Storage.Numbers.{drop, byte_at}
use vsql.Storage.Disk.{put_byte, File, Disk, Write, write_at, truncate, perform, perform_all}
use vsql.Storage.Disk.Redo.{IsOnFile, perform_all-append, perform_all-log}
use vsql.Storage.Wal.{Pages, WalCommit, wal_read}
use vsql.Storage.Commit.{
  Writes, page_writes, page_offset, file_size, wal_checkpoint, is_newer, recovery,
  mark_checkpointed, wal_needs_recovery, wal_recover,
}

page_writes-IsOnFile :
    (size : ℤ) (pages : Pages) (rest : Writes)
    → All IsOnFile rest.0
    → All IsOnFile (page_writes size pages rest).0
unfolding page_writes
page_writes-IsOnFile size [] rest h = h
page_writes-IsOnFile size ((n, page) ∷ pages) rest h =
    with_offset (page_offset size n) page (page_writes size pages rest)
      (page_writes-IsOnFile size pages rest h)
  where
    with_offset :
        (o : Option ℕ) (content : Bytes) (more : Writes)
        → All IsOnFile more.0
        → All IsOnFile
            (let x : Writes = elim o [
              | none ↦ ([], false)
              | some start ↦ (write_at start content ∷ more.0, more.1)
            ] in
              x).0
    with_offset none content more k = tt
    with_offset (some start) content more k = (tt, k)

end_IsOnFile :
    (o : Option ℕ)
    → All IsOnFile
        (let x : Writes = elim o [ none ↦ ([], false) | some n ↦ (truncate n ∷ [], true) ] in x).0
end_IsOnFile none = tt
end_IsOnFile (some n) = (tt, tt)

checkpoint-IsOnFile : (c : WalCommit) → All IsOnFile (wal_checkpoint c).0
unfolding wal_checkpoint
checkpoint-IsOnFile c =
    page_writes-IsOnFile c.page_size c.pages _
      (tt, end_IsOnFile (file_size c.page_size c.total_pages))

-- The log is marked last.
abbrev EndsMarked : Writes → Type 0
EndsMarked (ws, done) =
    done ≡ true → (us : List Write) × (All IsOnFile us) × (ws ≡ us ++ mark_checkpointed)

marked_if :
    (c : Writes)
    → All IsOnFile c.0
    → EndsMarked (if c.1 then (c.0 ++ mark_checkpointed, true) else (c.0, false))
marked_if (us, true) h k = (us, h, refl)
marked_if (us, false) h k = absurd (cc)

marked_of :
    (newer : Bool) (found : Option WalCommit)
    → EndsMarked (
        if newer then ([], false) else elim found [
          | none ↦ (mark_checkpointed, true)
          | some c ↦
              let (ws, done) = wal_checkpoint c in
              if done then (ws ++ mark_checkpointed, true) else (ws, false)
        ])
marked_of true found h = absurd (cc)
marked_of false none h = ([], tt, refl)
marked_of false (some c) h = marked_if (wal_checkpoint c) (checkpoint-IsOnFile c) h

recovery-EndsMarked : (log : Bytes) → EndsMarked (recovery log)
unfolding recovery
recovery-EndsMarked log = marked_of (is_newer log) (wal_read log)

abbrev disk : Option Bytes → File → Disk
disk log file = record { log = log; file = file }

byte-put : (n v : ℕ) (log : Bytes) → byte_at (drop n (put_byte n v log)) ≡ v
byte-put zero v [] = refl
byte-put zero v (b ∷ log) = refl
byte-put (suc n) v [] = byte-put n v []
byte-put (suc n) v (b ∷ log) = byte-put n v log

length-put : (n v : ℕ) (log : Bytes) → n < length (put_byte n v log)
length-put zero v [] = omega arith
length-put zero v (b ∷ log) = omega arith
length-put (suc n) v [] = omega (arith, length-put n v [])
length-put (suc n) v (b ∷ log) = omega (arith, length-put n v log)

needs-put :
    (log : Bytes) (file : File) → wal_needs_recovery (disk (some (put_byte 10 1 log)) file) ≡ false
unfolding wal_needs_recovery
needs-put log file = rw (byte-put 10 1 log) (ground (arith, length-put 10 1 log))

needs-none : (file : File) → wal_needs_recovery (disk none file) ≡ false
unfolding wal_needs_recovery
needs-none file = refl

-- The operations of a recovery leave nothing to recover.
needs-performed :
    (log : Bytes) (file : File) (ws us : List Write)
    → All IsOnFile us
    → ws ≡ us ++ mark_checkpointed
    → wal_needs_recovery (perform_all ws (disk (some log) file)) ≡ false
unfolding perform_all perform
needs-performed log file ws us k e =
    let d = disk (some log) file in
    let l = perform_all-log us d k in
    let f = (perform_all us d).file in
    let g : perform_all us d ≡ disk (some log) f = λ i. record { log = l i; file = f } in
    rw (e, perform_all-append us mark_checkpointed d, g) (needs-put log f)

done_on :
    (log : Option Bytes) (file : File)
    → let d = disk log file in
      (wal_recover d).1 ≡ true → wal_needs_recovery (wal_recover d).0 ≡ false
unfolding wal_recover
done_on none file h = rw (needs-none file) (needs-none file)
done_on (some log) file h = elim (Bool-cases (wal_needs_recovery (disk (some log) file))) [
  | inl needs ↦
      let (us, k, e) = recovery-EndsMarked log (rw needs at h) in
      rw needs (needs-performed log file (recovery log).0 us k e)
  | inr idle ↦ rw idle idle
]

-- After a wal_recover that succeeds, there is nothing to recover.
pub recover-done :
    (d : Disk) → (wal_recover d).1 ≡ true → wal_needs_recovery (wal_recover d).0 ≡ false
recover-done d h = done_on d.log d.file h
