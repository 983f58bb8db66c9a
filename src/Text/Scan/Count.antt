-- ===== src/Text/Scan/Count.antt =====
-- What vsql_m_scan counts
-- (vsql/std_2_20_1_description_of_sql_descriptor_areas.c).
use vsql.Base.{◌+◌, ◌≡◌, refl, ap, ◌∙◌, List, [], ◌∷◌, ◌++◌, arith}
use mathlib.Core.List.{append_assoc}
use vsql.Base.Bytes.{Bytes}
use vsql.Text.Scan.{skip_comment, Scan, start, scan_word, scan_other, step, scan_loop, scan}
use vsql.Text.Scan.Rounds.{scan_from, scan_from-step}
use vsql.Text.Scan.Tokens.{
  parameter, open_paren, close_paren, quoted, line_comment, bracketed_comment, word, other, Token,
  render, render_all, parameters, IsToken, skip_quoted-end, skip_line-end, skip_comment-closed,
  closed, closed-append, IsText, scan_word-count, step-quoted, step-other, scan_other-count,
  plain_not_parameter, from_step, word_round,
}

-- What the scan makes of one part. Only the end of a line counts as a byte of its comment.
abbrev pub advance : Token → Scan → Scan
advance parameter t = scan_other t b'?'
advance open_paren t = scan_other t b'('
advance close_paren t = scan_other t b')'
advance (quoted q s) t = t
advance (line_comment s) t = scan_other t 10
advance (bracketed_comment c) t = t
advance (word b s) t = scan_other (scan_word t (b ∷ s)) b' '
advance (other b) t = scan_other t b

past :
    (p : Token) (t : Scan) (ts : List Token)
    → IsText (p ∷ ts)
    → scan_from t (render p ++ render_all ts) ≡ scan_from (advance p t) (render_all ts)
unfolding step
past parameter t ts h = (scan_from-step t b'?' (render_all ts)).1
past open_paren t ts h = (scan_from-step t b'(' (render_all ts)).1
past close_paren t ts h = (scan_from-step t b')' (render_all ts)).1
past (quoted q s) t ts h =
    let rest = render_all ts in
    from_step t t q ((s ++ q ∷ []) ++ rest) rest (
      step-quoted t q ((s ++ q ∷ []) ++ rest) h.0.0
      ∙ ap (λ (r : Bytes). (t, r)) (rw (append_assoc) (skip_quoted-end q s rest h.0.1)))
past (line_comment s) t ts h =
    let rest = render_all ts in
    from_step t t b'-' (b'-' ∷ ((s ++ 10 ∷ []) ++ rest)) (10 ∷ rest)
      (ap (λ (r : Bytes). (t, r)) (rw (append_assoc) (skip_line-end (b'-' ∷ s) rest (refl, h.0))))
    ∙ from_step t (scan_other t 10) 10 rest rest (step-other t 10 rest refl (refl, refl))
past (bracketed_comment c) t ts h =
    let rest = render_all ts in
    from_step t t b'/' (b'*' ∷ (closed c [] ++ rest)) rest (
      ap (λ (r : Bytes). (t, r))
        (ap (skip_comment 1) (closed-append c [] rest) ∙ skip_comment-closed c 0 rest h.0))
past (word b s) t ts h =
    let rest = render_all ts in
    let u = scan_word t (b ∷ s) in
    from_step t u b ((s ++ b' ' ∷ []) ++ rest) (b' ' ∷ rest) (word_round t b s rest h.0.0 h.0.1)
    ∙ from_step u (scan_other u b' ') b' ' rest rest (step-other u b' ' rest refl (refl, refl))
past (other b) t ts h =
    from_step t (scan_other t b) b (render_all ts) (render_all ts)
      (step-other t b (render_all ts) h.0 h.1)

advance-count :
    (p : Token) (t : Scan) → IsToken p → (advance p t).count ≡ t.count + parameters (p ∷ [])
unfolding scan_other
advance-count parameter t h = omega arith
advance-count open_paren t h = omega arith
advance-count close_paren t h = omega arith
advance-count (quoted q s) t h = omega arith
advance-count (line_comment s) t h = omega arith
advance-count (bracketed_comment c) t h = omega arith
advance-count (word b s) t h = omega (arith, scan_word-count t (b ∷ s))
advance-count (other b) t h = omega (arith, scan_other-count t b (plain_not_parameter b h))

abbrev pub advance_all : List Token → Scan → Scan
advance_all [] t = t
advance_all (p ∷ ps) t = advance_all ps (advance p t)

-- The first part, and the rest.
pub token_of : (p : Token) (ts : List Token) → IsText (p ∷ ts) → IsToken p × IsText ts
token_of parameter ts h = h
token_of open_paren ts h = h
token_of close_paren ts h = h
token_of (quoted q s) ts h = h
token_of (line_comment s) ts h = h
token_of (bracketed_comment c) ts h = h
token_of (word b s) ts h = h
token_of (other b) ts h = (h.0, h.2)

pub scan_from-advance_all :
    (ts : List Token) (t : Scan) → IsText ts → scan_from t (render_all ts) ≡ advance_all ts t
unfolding scan_loop
scan_from-advance_all [] t h = refl
scan_from-advance_all (p ∷ ts) t h =
    past p t ts h ∙ scan_from-advance_all ts (advance p t) (token_of p ts h).1

parameters-cons :
    (p : Token) (ts : List Token) → parameters (p ∷ ts) ≡ parameters (p ∷ []) + parameters ts
parameters-cons parameter ts = omega arith
parameters-cons _ ts = omega arith

advance_all-count :
    (ts : List Token) (t : Scan) → IsText ts → (advance_all ts t).count ≡ t.count + parameters ts
advance_all-count [] t h = omega arith
advance_all-count (p ∷ ts) t h =
    let (k, l) = token_of p ts h in
    omega (arith, parameters-cons p ts, advance-count p t k, advance_all-count ts (advance p t) l)

-- For a text made of parts, which are parameters, parentheses, closed literals and delimited
-- identifiers, closed comments, which have any bytes and nested comments in them, words with a space
-- behind them and other bytes, none of which starts a comment together with the part behind it, the
-- count is the number of "?" that are parts of their own: none in a literal, an identifier or a comment
-- counts.
pub scan-count : (ts : List Token) → IsText ts → (scan (render_all ts)).count ≡ parameters ts
unfolding scan
scan-count ts h = omega (
  arith,
  ap (λ (t : Scan). t.count) (scan_from-advance_all ts start h),
  advance_all-count ts start h,
)
