-- ===== src/Text/Scan/Rounds.antt =====
-- The rounds of the loop of vsql_m_scan
-- (vsql/std_2_20_1_description_of_sql_descriptor_areas.c).
use vsql.Base.{ℕ, zero, suc, ◌≤◌, ◌≡◌, refl, [], ◌∷◌, arith, length}
use vsql.Base.Bytes.{Bytes}
use vsql.Text.Scan.{
  Scan, skip_quoted, skip_comment, skip_line, span_word, behind_first, step, scan_loop,
}

skip_quoted-le : (q : ℕ) (s : Bytes) → length (skip_quoted q s) ≤ length s
unfolding skip_quoted
skip_quoted-le q [] = omega arith
skip_quoted-le q (b ∷ s) = ground (arith, skip_quoted-le q s)

skip_comment-le : (depth : ℕ) (s : Bytes) → length (skip_comment depth s) ≤ length s
unfolding skip_comment
skip_comment-le zero s = omega arith
skip_comment-le (suc depth) [] = omega arith
skip_comment-le (suc depth) (b ∷ []) = omega arith
skip_comment-le (suc depth) (b ∷ c ∷ s) = ground (
  arith,
  skip_comment-le (suc (suc depth)) s,
  skip_comment-le depth s,
  skip_comment-le (suc depth) (c ∷ s),
)

skip_line-le : (s : Bytes) → length (skip_line s) ≤ length s
unfolding skip_line
skip_line-le [] = omega arith
skip_line-le (b ∷ s) = ground (arith, skip_line-le s)

span_word-le : (s : Bytes) → length (span_word s).1 ≤ length s
unfolding span_word
span_word-le [] = omega arith
span_word-le (b ∷ s) = ground (arith, span_word-le s)

behind_first-le : (s : Bytes) → length (behind_first s) ≤ length s
behind_first-le [] = omega arith
behind_first-le (b ∷ s) = omega arith

-- A round takes at least the byte that it starts at.
step-le : (t : Scan) (b : ℕ) (s : Bytes) → length (step t b s).1 ≤ length s
unfolding step
step-le t b s = ground (
  arith,
  skip_quoted-le b s,
  skip_comment-le 1 (behind_first s),
  behind_first-le s,
  skip_line-le s,
  span_word-le s,
)

scan_loop-fuel :
    (f g : ℕ) (t : Scan) (s : Bytes)
    → length s ≤ f
    → length s ≤ g
    → scan_loop f t s ≡ scan_loop g t s
unfolding scan_loop
scan_loop-fuel f g t [] h k = refl
scan_loop-fuel zero g t (b ∷ s) h k = absurd (omega arith)
scan_loop-fuel (suc f) zero t (b ∷ s) h k = absurd (omega arith)
scan_loop-fuel (suc f) (suc g) t (b ∷ s) h k =
    scan_loop-fuel f g (step t b s).0 (step t b s).1 (omega (arith, step-le t b s))
      (omega (arith, step-le t b s))

-- The rest of the scan, with enough fuel for the text.
abbrev pub scan_from : Scan → Bytes → Scan
scan_from t s = scan_loop (length s) t s

-- With the length of the text as fuel, the scan is done at the end of the text, and before it
-- goes on from what the round leaves, with the length of that as fuel.
pub scan_from-step :
    (t : Scan) (b : ℕ) (s : Bytes)
    → (scan_from t [] ≡ t) × (scan_from t (b ∷ s) ≡ scan_from (step t b s).0 (step t b s).1)
unfolding scan_loop
scan_from-step t b s = (
  refl,
  scan_loop-fuel (length s) (length (step t b s).1) (step t b s).0 (step t b s).1 (step-le t b s)
      (omega arith),
)
