-- ===== src/Storage/Disk/Redo.antt =====
-- Writes to the database file can be made again after they have stopped anywhere: each byte of the
-- file is written whatever it was, or not written at all.
use vsql.Base.{
  ℕ, zero, suc, ◌+◌, ◌-◌, ◌<◌, ◌≡◌, refl, sym, ap, ◌∙◌, ◌⊎◌, inl, inr, List, [], ◌∷◌, ◌++◌, arith,
  ltb, leb, if◌then◌else◌, length, take, All, Bool-cases,
}
use vsql.Base.Bytes.{Bytes}
use vsql.Storage.Disk.{
  File, Disk, Write, create, append, write_state, write_at, truncate, element_or, overwrite,
  perform, perform_all, torn, crash,
}

-- An operation on the database file.
abbrev pub IsOnFile : Write → Type 0
IsOnFile (write_at start content) = Unit
IsOnFile (truncate n) = Unit
IsOnFile create = ⊥
IsOnFile (append content) = ⊥
IsOnFile (write_state at state) = ⊥

-- The byte at `i` after an operation on the file, when it was `old`.
byte_after : Write → ℕ → ℕ → ℕ
unfolding overwrite
byte_after (write_at start content) i old = overwrite start content i old
byte_after (truncate n) i old = if ltb i n then old else 0
byte_after w i old = old

bytes_after : List Write → ℕ → ℕ → ℕ
bytes_after [] i old = old
bytes_after (w ∷ ws) i old = bytes_after ws i (byte_after w i old)

torn_after : ℕ → Write → ℕ → ℕ → ℕ
torn_after n (write_at start content) i old = overwrite start (take n content) i old
torn_after n w i old = old

crash_after : ℕ → ℕ → List Write → ℕ → ℕ → ℕ
crash_after k n [] i old = old
crash_after zero n (w ∷ ws) i old = torn_after n w i old
crash_after (suc k) n (w ∷ ws) i old = crash_after k n ws i (byte_after w i old)

element_or_cases :
    (content : Bytes) (n i : ℕ)
    → ((old : ℕ) → (element_or old content i ≡ old) × (element_or old (take n content) i ≡ old))
      ⊎ ((old new : ℕ) → element_or old content i ≡ element_or new content i)
element_or_cases [] zero i = inl λ old. (refl, refl)
element_or_cases [] (suc n) i = inl λ old. (refl, refl)
element_or_cases (b ∷ content) n zero = inr λ old new. refl
element_or_cases (b ∷ content) zero (suc i) = elim (element_or_cases content zero i) [
  | inl h ↦ inl λ old. ((h old).0, refl)
  | inr h ↦ inr h
]
element_or_cases (b ∷ content) (suc n) (suc i) = element_or_cases content n i

-- An operation and its beginning leave the byte, or it does not matter what the byte was.
byte_cases :
    (w : Write) (n i : ℕ)
    → ((old : ℕ) → (byte_after w i old ≡ old) × (torn_after n w i old ≡ old))
      ⊎ ((old new : ℕ) → byte_after w i old ≡ byte_after w i new)
unfolding byte_after torn_after overwrite
byte_cases (write_at start content) n i = elim (Bool-cases (leb start i)) [
  | inl h ↦ rw h (element_or_cases content n (i - start))
  | inr h ↦ rw h (inl λ old. (refl, refl))
]
byte_cases (truncate m) n i = elim (Bool-cases (ltb i m)) [
  | inl h ↦ rw h (inl λ old. (refl, refl))
  | inr h ↦ rw h (inr λ old new. refl)
]
byte_cases create n i = inl λ old. (refl, refl)
byte_cases (append content) n i = inl λ old. (refl, refl)
byte_cases (write_state at state) n i = inl λ old. (refl, refl)

bytes-crash :
    (k n : ℕ) (ws : List Write) (i old : ℕ)
    → bytes_after ws i (crash_after k n ws i old) ≡ bytes_after ws i old
unfolding bytes_after crash_after
bytes-crash k n [] i old = refl
bytes-crash zero n (w ∷ ws) i old = elim (byte_cases w n i) [
  | inl h ↦ ap (λ (b : ℕ). bytes_after ws i (byte_after w i b)) (h old).1
  | inr h ↦ ap (bytes_after ws i) (h _ old)
]
bytes-crash (suc k) n (w ∷ ws) i old = elim (byte_cases w n i) [
  | inl h ↦ ap (bytes_after ws i) ((h _).0) ∙ bytes-crash k n ws i (byte_after w i old)
  | inr h ↦ ap (bytes_after ws i) (h _ old)
]

perform-byte :
    (w : Write) (d : Disk) (i : ℕ) → (perform w d).file.byte i ≡ byte_after w i (d.file.byte i)
unfolding perform byte_after
perform-byte create d i = refl
perform-byte (append content) d i = refl
perform-byte (write_state at state) d i = refl
perform-byte (write_at start content) d i = refl
perform-byte (truncate n) d i = refl

torn-byte :
    (n : ℕ) (w : Write) (d : Disk) (i : ℕ)
    → (torn n w d).file.byte i ≡ torn_after n w i (d.file.byte i)
unfolding torn torn_after
torn-byte n create d i = refl
torn-byte n (append content) d i = refl
torn-byte n (write_state at state) d i = refl
torn-byte n (write_at start content) d i = refl
torn-byte n (truncate m) d i = refl

perform_all-byte :
    (ws : List Write) (d : Disk) (i : ℕ)
    → (perform_all ws d).file.byte i ≡ bytes_after ws i (d.file.byte i)
unfolding perform_all bytes_after
perform_all-byte [] d i = refl
perform_all-byte (w ∷ ws) d i =
    perform_all-byte ws (perform w d) i ∙ ap (bytes_after ws i) (perform-byte w d i)

crash-byte :
    (k n : ℕ) (ws : List Write) (d : Disk) (i : ℕ)
    → (crash k n ws d).file.byte i ≡ crash_after k n ws i (d.file.byte i)
unfolding crash crash_after
crash-byte k n [] d i = refl
crash-byte zero n (w ∷ ws) d i = torn-byte n w d i
crash-byte (suc k) n (w ∷ ws) d i =
    crash-byte k n ws (perform w d) i ∙ ap (crash_after k n ws i) (perform-byte w d i)

pub perform_all-append :
    (ws us : List Write) (d : Disk) → perform_all (ws ++ us) d ≡ perform_all us (perform_all ws d)
unfolding perform_all
perform_all-append [] us d = refl
perform_all-append (w ∷ ws) us d = perform_all-append ws us (perform w d)

-- The size of the file is what it is truncated to in the end.
size_lem :
    (ws : List Write) (n : ℕ) (d : Disk) → (perform_all (ws ++ truncate n ∷ []) d).file.size ≡ n
unfolding perform_all perform
size_lem [] n d = refl
size_lem (w ∷ ws) n d = size_lem ws n (perform w d)

File_eq : {f g : File} → f.size ≡ g.size → ((i : ℕ) → f.byte i ≡ g.byte i) → f ≡ g
File_eq p q = λ j. record { size = p j; byte = λ i. q i j }

-- Operations that end with a truncation make the same file after they have been stopped anywhere.
pub file-crash :
    (k n : ℕ) (ws : List Write) (size : ℕ) (d : Disk)
    → (perform_all (ws ++ truncate size ∷ []) (crash k n (ws ++ truncate size ∷ []) d)).file
      ≡ (perform_all (ws ++ truncate size ∷ []) d).file
file-crash k n ws size d =
    let us = ws ++ truncate size ∷ [] in
    File_eq (size_lem ws size (crash k n us d) ∙ sym (size_lem ws size d)) λ i.
      perform_all-byte us (crash k n us d) i
      ∙ ap (bytes_after us i) (crash-byte k n us d i)
      ∙ bytes-crash k n us i (d.file.byte i)
      ∙ sym (perform_all-byte us d i)

-- Operations on the file leave the log.
perform-log : (w : Write) (d : Disk) → IsOnFile w → (perform w d).log ≡ d.log
unfolding perform
perform-log (write_at start content) d h = refl
perform-log (truncate n) d h = refl
perform-log create d h = absurd h
perform-log (append content) d h = absurd h
perform-log (write_state at state) d h = absurd h

torn-log : (n : ℕ) (w : Write) (d : Disk) → IsOnFile w → (torn n w d).log ≡ d.log
unfolding torn
torn-log n (write_at start content) d h = refl
torn-log n (truncate m) d h = refl
torn-log n create d h = absurd h
torn-log n (append content) d h = absurd h
torn-log n (write_state at state) d h = absurd h

pub perform_all-log :
    (ws : List Write) (d : Disk) → All IsOnFile ws → (perform_all ws d).log ≡ d.log
unfolding perform_all
perform_all-log [] d h = refl
perform_all-log (w ∷ ws) d h = perform_all-log ws (perform w d) h.1 ∙ perform-log w d h.0

pub crash-log :
    (k n : ℕ) (ws : List Write) (d : Disk) → All IsOnFile ws → (crash k n ws d).log ≡ d.log
unfolding crash
crash-log k n [] d h = refl
crash-log zero n (w ∷ ws) d h = torn-log n w d h.0
crash-log (suc k) n (w ∷ ws) d h = crash-log k n ws (perform w d) h.1 ∙ perform-log w d h.0

-- The process stops before the end of the first operations, or after them.
pub crash-append :
    (k n : ℕ) (ws us : List Write) (d : Disk)
    → k < length ws
    → crash k n (ws ++ us) d ≡ crash k n ws d
unfolding crash
crash-append k n [] us d h = absurd (omega arith)
crash-append zero n (w ∷ ws) us d h = refl
crash-append (suc k) n (w ∷ ws) us d h = crash-append k n ws us (perform w d) (omega arith)

pub crash-after :
    (j n : ℕ) (ws us : List Write) (d : Disk)
    → crash (length ws + j) n (ws ++ us) d ≡ crash j n us (perform_all ws d)
unfolding crash perform_all
crash-after j n [] us d = let e : 0 + j ≡ j = omega arith in ap (λ (k : ℕ). crash k n us d) e
crash-after j n (w ∷ ws) us d =
    let e : suc (length ws) + j ≡ suc (length ws + j) = omega arith in
    ap (λ (k : ℕ). crash k n (w ∷ (ws ++ us)) d) e ∙ crash-after j n ws us (perform w d)

pub crash_all : (n : ℕ) (ws : List Write) (d : Disk) → crash (length ws) n ws d ≡ perform_all ws d
unfolding crash perform_all
crash_all n [] d = refl
crash_all n (w ∷ ws) d = crash_all n ws (perform w d)
