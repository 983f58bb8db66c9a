-- ===== src/Storage/Disk.antt =====
-- The database file and its log on the disk, and the operations on them that the process makes in
-- order. The process can stop after any of them, or in the middle of a write. The operations of the
-- operating system succeed.
pub mod Redo
use vsql.Base.{
  ℕ, zero, suc, ◌+◌, ◌-◌, Bool, true, false, ◌&&◌, Option, none, some, List, [], ◌∷◌, ◌++◌, ltb,
  leb, if◌then◌else◌, length, take, set, get_elem?,
}
use vsql.Base.Bytes.{Bytes}

-- The bytes from `size` on are zero.
pub record File : Type 0 where
  pub size : ℕ
  pub byte : ℕ → ℕ

pub record Disk : Type 0 where
  pub log : Option Bytes
  pub file : File

pub data Write : Type 0 where
  -- os.create of the log
  create : Write
  -- log.write
  append : Bytes → Write
  -- log.seek, and log.write of one byte
  write_state : ℕ → ℕ → Write
  -- file.seek, and file.write
  write_at : ℕ → Bytes → Write
  -- truncate_file
  truncate : ℕ → Write

abbrev pub element_or : ℕ → Bytes → ℕ → ℕ
element_or default [] i = default
element_or default (b ∷ bs) zero = b
element_or default (b ∷ bs) (suc i) = element_or default bs i

-- The byte at `i` once the bytes have been written from `start` on, when it was `old`.
unfoldable pub overwrite : ℕ → Bytes → ℕ → ℕ → ℕ
overwrite start content i old = if leb start i then element_or old content (i - start) else old

abbrev pub max : ℕ → ℕ → ℕ
max a b = if ltb a b then b else a

unfoldable pub write_file : ℕ → Bytes → File → File
unfolding overwrite
write_file start content f = record {
  size = max f.size (start + length content);
  byte = λ i. overwrite start content i (f.byte i);
}

unfoldable pub truncate_file : ℕ → File → File
truncate_file n f = record { size = n; byte = λ i. if ltb i n then f.byte i else 0 }

abbrev pub with_log : (Bytes → Bytes) → Disk → Disk
with_log f d = record d { log = elim d.log [ none ↦ none | some content ↦ some (f content) ] }

-- One byte at `at`, which extends the log with zeros when it is shorter
abbrev pub put_byte : ℕ → ℕ → Bytes → Bytes
put_byte zero v [] = v ∷ []
put_byte zero v (b ∷ log) = v ∷ log
put_byte (suc n) v [] = 0 ∷ put_byte n v []
put_byte (suc n) v (b ∷ log) = b ∷ put_byte n v log

unfoldable pub perform : Write → Disk → Disk
unfolding write_file truncate_file
perform create d = record d { log = some [] }
perform (append content) d = with_log (λ log. log ++ content) d
perform (write_state at state) d = with_log (put_byte at state) d
perform (write_at start content) d = record d { file = write_file start content d.file }
perform (truncate n) d = record d { file = truncate_file n d.file }

unfoldable pub perform_all : List Write → Disk → Disk
unfolding perform
perform_all [] d = d
perform_all (w ∷ ws) d = perform_all ws (perform w d)

-- The process stops in an operation, when `n` bytes of it have been written.
unfoldable pub torn : ℕ → Write → Disk → Disk
unfolding perform
torn n (append content) d = perform (append (take n content)) d
torn n (write_at start content) d = perform (write_at start (take n content)) d
torn n w d = d

-- The process stops after `k` operations, and `n` bytes of the next one.
unfoldable pub crash : ℕ → ℕ → List Write → Disk → Disk
unfolding perform torn
crash k n [] d = d
crash zero n (w ∷ ws) d = torn n w d
crash (suc k) n (w ∷ ws) d = crash k n ws (perform w d)
