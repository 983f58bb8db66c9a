-- ===== src/Text/Scan/Words.antt =====
-- The words that vsql_m_scan compares, in its buffer of ten bytes
-- (vsql/std_2_20_1_description_of_sql_descriptor_areas.c).
use vsql.Base.{ℕ, zero, suc, ◌≡◌, refl, ap, ◌∙◌, true, false, [], ◌∷◌, ◌++◌, arith, length, All}
use vsql.Base.Ints.{pos}
use vsql.Base.Bytes.{Bytes, bytes}
use vsql.Text.Scan.{
  Scan, start, is_word, span_word, buffered, is_query_word, scan_word, scan_other, step, scan_loop,
  scan,
}
use vsql.Text.Scan.Tokens.{span_word-end, step-word, from_step}

-- Once a word has ruled it out, the statement stays ruled out.
scan_other-ruled_out :
    (t : Scan) (b : ℕ)
    → t.single ≡ false
    → t.first ≡ false
    → ((scan_other t b).single ≡ false) × ((scan_other t b).first ≡ false)
unfolding scan_other
scan_other-ruled_out t b h k = ground arith

scan_word-ruled_out :
    (t : Scan) (w : Bytes)
    → t.single ≡ false
    → t.first ≡ false
    → ((scan_word t w).single ≡ false) × ((scan_word t w).first ≡ false)
unfolding scan_word
scan_word-ruled_out t w h k = ground arith

step-ruled_out :
    (t : Scan) (b : ℕ) (s : Bytes)
    → t.single ≡ false
    → t.first ≡ false
    → ((step t b s).0.single ≡ false) × ((step t b s).0.first ≡ false)
unfolding step
step-ruled_out t b s h k =
    ground (arith, scan_word-ruled_out t (b ∷ (span_word s).0) h k, scan_other-ruled_out t b h k)

scan_loop-ruled_out :
    (fuel : ℕ) (t : Scan) (s : Bytes)
    → t.single ≡ false
    → t.first ≡ false
    → (scan_loop fuel t s).single ≡ false
unfolding scan_loop
scan_loop-ruled_out fuel t [] h k = h
scan_loop-ruled_out zero t (b ∷ s) h k = h
scan_loop-ruled_out (suc fuel) t (b ∷ s) h k =
    let r = step-ruled_out t b s h k in
    scan_loop-ruled_out fuel (step t b s).0 (step t b s).1 r.0 r.1

abbrev selecting : Scan
selecting = record { count = 0; depth = pos 0; first = false; single = true }

abbrev ruled_out : Scan
ruled_out = record { count = 0; depth = pos 0; first = false; single = false }

first_word :
    (s : Bytes)
    → step start b'S' (bytes "ELECT INTERSECT" ++ s) ≡ (selecting, bytes " INTERSECT" ++ s)
unfolding step span_word scan_word buffered is_query_word
first_word s = refl

blank_after :
    (s : Bytes) → step selecting b' ' (bytes "INTERSECT" ++ s) ≡ (selecting, bytes "INTERSECT" ++ s)
unfolding step scan_other
blank_after s = refl

intersect_word : (tail : Bytes) → scan_word selecting (bytes "INTERSECT" ++ tail) ≡ ruled_out
unfolding scan_word buffered is_query_word
intersect_word tail = refl

second_word :
    (tail rest : Bytes)
    → All (λ (b : ℕ). is_word b ≡ true) tail
    → step selecting b'I' (bytes "NTERSECT" ++ (tail ++ b' ' ∷ rest)) ≡ (ruled_out, b' ' ∷ rest)
unfolding is_word
second_word tail rest h =
    step-word selecting b'I' (bytes "NTERSECT" ++ (tail ++ b' ' ∷ rest)) refl
    ∙ ap (λ (p : Bytes × Bytes). (scan_word selecting (b'I' ∷ p.0), p.1))
        (span_word-end (bytes "NTERSECT" ++ tail) rest
          (refl, (refl, (refl, (refl, (refl, (refl, (refl, (refl, h)))))))))
    ∙ ap (λ (t : Scan). (t, b' ' ∷ rest)) (intersect_word tail)

-- A text that starts with SELECT and a word that starts with INTERSECT, both in upper case and
-- with a space behind them, is not a single row select, whatever follows.
pub scan-intersect_prefix :
    (tail rest : Bytes)
    → All (λ (b : ℕ). is_word b ≡ true) tail
    → (scan (bytes "SELECT INTERSECT" ++ (tail ++ b' ' ∷ rest))).single ≡ false
unfolding scan
scan-intersect_prefix tail rest h =
    let s = tail ++ b' ' ∷ rest in
    ap (λ (t : Scan). t.single)
      (from_step start selecting b'S' (bytes "ELECT INTERSECT" ++ s) (bytes " INTERSECT" ++ s)
          (first_word s)
        ∙ from_step selecting selecting b' ' (bytes "INTERSECT" ++ s) (bytes "INTERSECT" ++ s)
            (blank_after s)
        ∙ from_step selecting ruled_out b'I' (bytes "NTERSECT" ++ s) (b' ' ∷ rest)
            (second_word tail rest h))
    ∙ scan_loop-ruled_out (length (b' ' ∷ rest)) ruled_out (b' ' ∷ rest) refl refl
