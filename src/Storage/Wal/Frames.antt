-- ===== src/Storage/Wal/Frames.antt =====
-- Reading the frames of a log, whole or cut off (vsql/wal.v).
use vsql.Base.{
  ℕ, suc, ◌+◌, ◌-◌, ◌^◌, ◌<◌, ◌≤◌, ◌≡◌, refl, sym, ap, ◌∙◌, inl, inr, false, none, some, ◌++◌,
  arith, ltb, length, take, Bool-cases, length-append, lt→ltb, ltb→lt, ==_refl,
}
use vsql.Base.Ints.{pos}
use vsql.Base.Bytes.{Bytes}
use vsql.Storage.Numbers.{
  drop, byte_at, put_u32, get_u32, to_int, get_u32-put, to_int_lem, take-append, drop-append,
  length-take,
}
use vsql.Storage.Wal.{crc32, wal_checksum, wal_frame, frame_start, next_frame}

wal_checksum-lt :
    (previous : ℕ) (head content : Bytes) → wal_checksum previous head content < 2 ^ 32
unfolding wal_checksum crc32
wal_checksum-lt previous head content = omega arith

module _ (checksum : ℕ) (rest : Bytes) where
  pub next_frame_short : length rest < 16 → next_frame checksum rest ≡ none
  unfolding next_frame
  next_frame_short h = rw (lt→ltb _ _ h)

  module _ (len : ℕ) (long : 16 ≤ length rest) (e : to_int (get_u32 (drop 8 rest)) ≡ pos len) where
    not_short : ltb (length rest) 16 ≡ false
    not_short = ground arith

    next_frame_cut : length rest < 16 + len → next_frame checksum rest ≡ none
    unfolding next_frame
    next_frame_cut h = rw (not_short, e, lt→ltb (length rest) (16 + len) h)

    next_frame_whole :
        16 + len ≤ length rest
        → wal_checksum checksum (take 12 rest) (take len (drop 16 rest)) ≡ get_u32 (drop 12 rest)
        → next_frame checksum rest
          ≡ some record {
            kind = byte_at rest;
            number = to_int (get_u32 (drop 4 rest));
            content = take len (drop 16 rest);
            checksum = get_u32 (drop 12 rest);
            rest = drop len (drop 16 rest);
          }
    unfolding next_frame
    next_frame_whole h k =
        let whole : ltb (length rest) (16 + len) ≡ false = ground arith in
        rw (not_short, e, whole, k, ==_refl) refl

abbrev sixteen_more : ℕ → ℕ
sixteen_more j =
    suc (suc (suc (suc (suc (suc (suc (suc (suc (suc (suc (suc (suc (suc (suc (suc j)))))))))))))))

-- The frame that is written for some content, with more of the log behind it.
module _ (kind number previous : ℕ) (content : Bytes) where
  abbrev pub written : Bytes
  written = (wal_frame kind number content previous).0

  abbrev pub next_checksum : ℕ
  next_checksum = (wal_frame kind number content previous).1

  module _ (n : number < 2 ^ 31) (l : length content < 2 ^ 31) where
    read_length : to_int (get_u32 (put_u32 (length content))) ≡ pos (length content)
    read_length = ap to_int (get_u32-put (length content) (omega arith)) ∙ to_int_lem _ l

    read_number : to_int (get_u32 (put_u32 number)) ≡ pos number
    read_number = ap to_int (get_u32-put number (omega arith)) ∙ to_int_lem _ n

    read_checksum : get_u32 (put_u32 next_checksum) ≡ next_checksum
    unfolding wal_frame
    read_checksum = get_u32-put next_checksum (wal_checksum-lt previous _ content)

    pub next_frame-frame :
        (rest : Bytes)
        → next_frame previous (written ++ rest)
          ≡ some record {
            kind = kind;
            number = pos number;
            content = content;
            checksum = next_checksum;
            rest = rest;
          }
    unfolding wal_frame
    next_frame-frame rest =
        next_frame_whole previous (written ++ rest) (length content) (omega arith) read_length
          (omega (arith, length-append content rest))
          (ap (λ (t : Bytes). wal_checksum previous (frame_start kind number content) t)
              (take-append content rest)
            ∙ sym read_checksum)
        ∙ (λ i. some record {
          kind = kind;
          number = read_number i;
          content = take-append content rest i;
          checksum = read_checksum i;
          rest = drop-append content rest i;
        })

    next_frame-take_more :
        (j : ℕ) → j < length content → next_frame previous (take (sixteen_more j) written) ≡ none
    unfolding wal_frame
    next_frame-take_more j h =
        let e = length-take j content (omega arith) in
        next_frame_cut previous (take (sixteen_more j) written) (length content) (omega arith)
          read_length (omega (arith, e))

    pub next_frame-take : (m : ℕ) → m < length written → next_frame previous (take m written) ≡ none
    unfolding wal_frame
    next_frame-take m h = elim (Bool-cases (ltb m 16)) [
      | inl short ↦
          next_frame_short previous (take m written)
            (omega (arith, length-take m written (omega arith), ltb→lt m 16 short))
      | inr long ↦
          let e : sixteen_more (m - 16) ≡ m = ground arith in
          rw (← e) (next_frame-take_more (m - 16) (ground arith))
    ]
