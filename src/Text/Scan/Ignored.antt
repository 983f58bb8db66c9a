-- ===== src/Text/Scan/Ignored.antt =====
-- What vsql_m_scan does not look into
-- (vsql/std_2_20_1_description_of_sql_descriptor_areas.c).
use vsql.Base.{ℕ, ◌≡◌, refl, sym, ap, ◌∙◌, ◌==◌, Bool, true, false, ◌&&◌, List, [], ◌∷◌}
use vsql.Base.Bytes.{is_space, is_alpha}
use vsql.Text.Scan.{begins, Scan, start, scan_other, scan}
use vsql.Text.Scan.Tokens.{
  parameter, open_paren, close_paren, quoted, line_comment, bracketed_comment, word, other, Token,
  render_all, IsText,
}
use vsql.Text.Scan.Count.{advance, advance_all, scan_from-advance_all}

abbrev blank : Token
blank = other b' '

-- A space in place of each literal, delimited identifier and comment.
abbrev pub blanked : List Token → List Token
blanked [] = []
blanked (quoted q s ∷ ts) = blank ∷ blanked ts
blanked (line_comment s ∷ ts) = blank ∷ blanked ts
blanked (bracketed_comment c ∷ ts) = blank ∷ blanked ts
blanked (p ∷ ts) = p ∷ blanked ts

and_true : (b : Bool) → (b && true) ≡ b
and_true true = refl
and_true false = refl

space_ignored : (t : Scan) → scan_other t b' ' ≡ t
unfolding scan_other is_space
space_ignored t = ap (λ (b : Bool). record t { first = b }) (and_true t.first)

line_end : (t : Scan) → scan_other t 10 ≡ t
unfolding scan_other is_space
line_end t = ap (λ (b : Bool). record t { first = b }) (and_true t.first)

-- The first byte is the same, or a space.
begins-blanked :
    (c : ℕ) (ts : List Token)
    → (b' ' == c) ≡ false
    → begins c (render_all ts) ≡ false
    → begins c (render_all (blanked ts)) ≡ false
begins-blanked c [] h k = refl
begins-blanked c (quoted q s ∷ ts) h k = h
begins-blanked c (line_comment s ∷ ts) h k = h
begins-blanked c (bracketed_comment s ∷ ts) h k = h
begins-blanked c (parameter ∷ ts) h k = k
begins-blanked c (open_paren ∷ ts) h k = k
begins-blanked c (close_paren ∷ ts) h k = k
begins-blanked c (word b s ∷ ts) h k = k
begins-blanked c (other b ∷ ts) h k = k

pair-blanked :
    (p : Bool) (c : ℕ) (ts : List Token)
    → (b' ' == c) ≡ false
    → (p && begins c (render_all ts)) ≡ false
    → (p && begins c (render_all (blanked ts))) ≡ false
pair-blanked true c ts h k = begins-blanked c ts h k
pair-blanked false c ts h k = refl

blanked-IsText : (ts : List Token) → IsText ts → IsText (blanked ts)
unfolding is_alpha
blanked-IsText [] h = tt
blanked-IsText (quoted q s ∷ ts) h = (refl, (refl, refl), blanked-IsText ts h.1)
blanked-IsText (line_comment s ∷ ts) h = (refl, (refl, refl), blanked-IsText ts h.1)
blanked-IsText (bracketed_comment c ∷ ts) h = (refl, (refl, refl), blanked-IsText ts h.1)
blanked-IsText (parameter ∷ ts) h = (h.0, blanked-IsText ts h.1)
blanked-IsText (open_paren ∷ ts) h = (h.0, blanked-IsText ts h.1)
blanked-IsText (close_paren ∷ ts) h = (h.0, blanked-IsText ts h.1)
blanked-IsText (word b s ∷ ts) h = (h.0, blanked-IsText ts h.1)
blanked-IsText (other b ∷ ts) h = (
  h.0,
  (pair-blanked (b == b'/') b'*' ts refl h.1.0, pair-blanked (b == b'-') b'-' ts refl h.1.1),
  blanked-IsText ts h.2,
)

advance_all-blanked : (ts : List Token) (t : Scan) → advance_all ts t ≡ advance_all (blanked ts) t
advance_all-blanked [] t = refl
advance_all-blanked (quoted q s ∷ ts) t =
    advance_all-blanked ts t ∙ ap (advance_all (blanked ts)) (sym (space_ignored t))
advance_all-blanked (line_comment s ∷ ts) t =
    ap (advance_all ts) (line_end t)
    ∙ advance_all-blanked ts t
    ∙ ap (advance_all (blanked ts)) (sym (space_ignored t))
advance_all-blanked (bracketed_comment c ∷ ts) t =
    advance_all-blanked ts t ∙ ap (advance_all (blanked ts)) (sym (space_ignored t))
advance_all-blanked (parameter ∷ ts) t = advance_all-blanked ts (scan_other t b'?')
advance_all-blanked (open_paren ∷ ts) t = advance_all-blanked ts (scan_other t b'(')
advance_all-blanked (close_paren ∷ ts) t = advance_all-blanked ts (scan_other t b')')
advance_all-blanked (word b s ∷ ts) t = advance_all-blanked ts (advance (word b s) t)
advance_all-blanked (other b ∷ ts) t = advance_all-blanked ts (scan_other t b)

-- Closed literals, delimited identifiers and comments, nested ones too, matter no more than a space:
-- the scan of a text made of parts, its count, its depth and whether it is a single row select, is the
-- scan of the text with a space in place of each.
pub scan-blanked :
    (ts : List Token) → IsText ts → scan (render_all ts) ≡ scan (render_all (blanked ts))
unfolding scan
scan-blanked ts h =
    scan_from-advance_all ts start h
    ∙ advance_all-blanked ts start
    ∙ sym (scan_from-advance_all (blanked ts) start (blanked-IsText ts h))
