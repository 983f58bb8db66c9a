-- ===== src/Storage/Commit/Log.antt =====
-- The log that wal_commit writes, read again: whole, or cut off (vsql/wal.v).
use vsql.Base.{
  ℕ, zero, suc, ◌+◌, ◌-◌, ◌^◌, ◌<◌, ◌≤◌, ◌≡◌, refl, sym, ap, ◌∙◌, inl, inr, Option, none, some,
  List, [], ◌∷◌, ◌++◌, arith, ltb, length, take, All, Bool-cases, length-append, ltb→lt,
}
use vsql.Base.Ints.{ℤ, pos}
use vsql.Base.Bytes.{Bytes}
use vsql.Storage.Wal.{
  Pages, Frame, put_page, WalCommit, next_frame, keep_frame, wal_frames, wal_frame_page,
  wal_frame_commit,
}
use vsql.Storage.Wal.Frames.{
  written, next_frame_short, next_checksum, next_frame-frame, next_frame-take,
}
use vsql.Storage.Commit.{pages_of, frames}

abbrev pub concat : List Bytes → Bytes
concat [] = []
concat (x ∷ xs) = x ++ concat xs

-- The numbers fit in an int.
abbrev pub Fits : ℕ × Bytes → Type 0
Fits (n, page) = (n < 2 ^ 31) × (length page < 2 ^ 31)

module _ {ℓ} {A : Type ℓ} where
  pub take-append_long :
      (d : ℕ) (xs ys : List A) → take (length xs + d) (xs ++ ys) ≡ xs ++ take d ys
  take-append_long d [] ys = let e : 0 + d ≡ d = omega arith in ap (λ (k : ℕ). take k ys) e
  take-append_long d (x ∷ xs) ys =
      let e : suc (length xs) + d ≡ suc (length xs + d) = omega arith in
      ap (λ (k : ℕ). take k (x ∷ (xs ++ ys))) e
      ∙ ap (λ (t : List A). x ∷ t) (take-append_long d xs ys)

  pub take-append_short : (m : ℕ) (xs ys : List A) → m ≤ length xs → take m (xs ++ ys) ≡ take m xs
  take-append_short zero xs ys h = refl
  take-append_short (suc m) [] ys h = absurd (omega arith)
  take-append_short (suc m) (x ∷ xs) ys h =
      ap (λ (t : List A). x ∷ t) (take-append_short m xs ys (omega arith))

module _ (fuel : ℕ) (size : ℤ) (checksum : ℕ) (pages : Pages) (commit : Option WalCommit)
    (rest : Bytes) where
  frames_zero : wal_frames zero size checksum pages commit rest ≡ commit
  unfolding wal_frames
  frames_zero = refl

  frames_end :
      next_frame checksum rest ≡ none
      → wal_frames (suc fuel) size checksum pages commit rest ≡ commit
  unfolding wal_frames
  frames_end h = rw (h, wal_frames) refl

  frames_next :
      (f : Frame) (pages' : Pages) (commit' : Option WalCommit)
      → next_frame checksum rest ≡ some f
      → keep_frame size f pages commit ≡ some (pages', commit')
      → wal_frames (suc fuel) size checksum pages commit rest
        ≡ wal_frames fuel size f.checksum pages' commit' f.rest
  unfolding wal_frames
  frames_next f pages' commit' h k = rw (h, k, wal_frames) refl

module _ (kind number previous : ℕ) (content : Bytes) (n : number < 2 ^ 31)
    (l : length content < 2 ^ 31) where
  -- The log is cut off in a frame.
  cut_in :
      (fuel : ℕ) (size : ℤ) (pages : Pages) (more : Bytes) (m : ℕ)
      → m < length (written kind number previous content)
      → wal_frames
          (suc fuel)
          size
          previous
          pages
          none
          (take m (written kind number previous content ++ more))
        ≡ none
  cut_in fuel size pages more m h =
      let frame = written kind number previous content in
      frames_end fuel size previous pages none (take m (frame ++ more)) (
        ap (next_frame previous) (take-append_short m frame more (omega arith))
        ∙ next_frame-take kind number previous content n l m h)

module _ (size : ℤ) (total : ℕ) (header : Bytes) (t : total < 2 ^ 31)
    (l : length header < 2 ^ 31) where
  pub frames_read :
      (list : List (ℕ × Bytes)) (fuel previous : ℕ) (pages : Pages)
      → All Fits list
      → length list + 2 ≤ fuel
      → wal_frames fuel size previous pages none (concat (frames list total header previous))
        ≡ some record {
          page_size = size;
          pages = pages_of list pages;
          header_bytes = header;
          total_pages = pos total;
        }
  unfolding keep_frame frames pages_of
  frames_read list zero previous pages f h = absurd (omega arith)
  frames_read [] (suc zero) previous pages f h = absurd (omega arith)
  frames_read [] (suc (suc fuel)) previous pages f h =
      frames_next (suc fuel) size previous pages none _ _ pages _
        (next_frame-frame wal_frame_commit total previous header t l []) refl
      ∙ frames_end fuel size _ pages _ [] (next_frame_short _ [] (omega arith))
  frames_read ((n, page) ∷ list) (suc fuel) previous pages ((fn, fl), f) h =
      frames_next fuel size previous pages none _ _ (put_page (pos n) page pages) none
        (next_frame-frame wal_frame_page n previous page fn fl _) refl
      ∙ frames_read list fuel (next_checksum wal_frame_page n previous page)
          (put_page (pos n) page pages) f (omega arith)

  pub frames-take :
      (list : List (ℕ × Bytes)) (fuel previous : ℕ) (pages : Pages) (m : ℕ)
      → All Fits list
      → m < length (concat (frames list total header previous))
      → wal_frames fuel size previous pages none
          (take m (concat (frames list total header previous)))
        ≡ none
  unfolding frames keep_frame
  frames-take list zero previous pages m f h = frames_zero 0 size previous pages none _
  frames-take [] (suc fuel) previous pages m f h =
      let frame = written wal_frame_commit total previous header in
      cut_in wal_frame_commit total previous header t l fuel size pages [] m
        (omega (arith, length-append frame [], h))
  frames-take ((n, page) ∷ list) (suc fuel) previous pages m ((fn, fl), f) h =
      let frame = written wal_frame_page n previous page in
      let next = next_checksum wal_frame_page n previous page in
      let more = concat (frames list total header next) in
      elim (Bool-cases (ltb m (length frame))) [
        | inl short ↦
            cut_in wal_frame_page n previous page fn fl fuel size pages more m (ltb→lt _ _ short)
        | inr long ↦
            let d = m - length frame in
            let e : length frame + d ≡ m = ground arith in
            let k : d < length more = omega (arith, length-append frame more, h, e) in
            ap (λ (j : ℕ). wal_frames (suc fuel) size previous pages none (take j (frame ++ more)))
              (sym e)
            ∙ ap (wal_frames (suc fuel) size previous pages none) (take-append_long d frame more)
            ∙ frames_next fuel size previous pages none _ _ (put_page (pos n) page pages) none
                (next_frame-frame wal_frame_page n previous page fn fl (take d more)) refl
            ∙ frames-take list fuel next (put_page (pos n) page pages) d f k
      ]
