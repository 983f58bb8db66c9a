-- ===== src/Text/Scan/Tokens.antt =====
-- The parts of the text of a statement, and the round that vsql_m_scan makes for each
-- (vsql/std_2_20_1_description_of_sql_descriptor_areas.c).
use vsql.Base.{
  ℕ, suc, ◌≡◌, refl, ap, ◌∙◌, Bool, true, false, not, ◌&&◌, ◌||◌, List, [], ◌∷◌, ◌++◌, arith, ◌==◌,
  All,
}
use mathlib.Core.List.{append_assoc}
use vsql.Base.Bytes.{Bytes, is_alpha}
use vsql.Text.Scan.{
  begins, Scan, skip_quoted, skip_comment, skip_line, is_word, span_word, scan_word, scan_other,
  step,
}
use vsql.Text.Scan.Rounds.{scan_from, scan_from-step}

-- What stands in a bracketed comment: bytes, and comments of its own.
pub data Comment : Type 0 where
  end : Comment
  byte : ℕ → Comment → Comment
  nested : Comment → Comment → Comment

-- The text of the comment behind its first two bytes, with a text behind it.
abbrev pub closed : Comment → Bytes → Bytes
closed end rest = b'*' ∷ b'/' ∷ rest
closed (byte b c) rest = b ∷ closed c rest
closed (nested inner c) rest = b'/' ∷ b'*' ∷ closed inner (closed c rest)

abbrev first_byte : Comment → ℕ
first_byte end = b'*'
first_byte (byte b c) = b
first_byte (nested inner c) = b'/'

-- No byte starts a comment or ends one together with the byte behind it.
abbrev pub IsComment : Comment → Type 0
IsComment end = Unit
IsComment (byte b c) =
    ((b == b'/' && first_byte c == b'*') ≡ false)
    × ((b == b'*' && first_byte c == b'/') ≡ false)
    × IsComment c
IsComment (nested inner c) = IsComment inner × IsComment c

-- The parts that the text of a statement is made of.
pub data Token : Type 0 where
  parameter open_paren close_paren : Token
  quoted : ℕ → Bytes → Token
  line_comment : Bytes → Token
  bracketed_comment : Comment → Token
  word : ℕ → Bytes → Token
  other : ℕ → Token

abbrev pub render : Token → Bytes
render parameter = b'?' ∷ []
render open_paren = b'(' ∷ []
render close_paren = b')' ∷ []
render (quoted q s) = q ∷ (s ++ q ∷ [])
render (line_comment s) = b'-' ∷ b'-' ∷ (s ++ 10 ∷ [])
render (bracketed_comment c) = b'/' ∷ b'*' ∷ closed c []
render (word b s) = b ∷ (s ++ b' ' ∷ [])
render (other b) = b ∷ []

abbrev pub render_all : List Token → Bytes
render_all [] = []
render_all (t ∷ ts) = render t ++ render_all ts

-- How many of the parts are dynamic parameters.
abbrev pub parameters : List Token → ℕ
parameters [] = 0
parameters (parameter ∷ ts) = suc (parameters ts)
parameters (_ ∷ ts) = parameters ts

abbrev pub is_plain : ℕ → Bool
is_plain b = not (b == 39 || b == b'"' || is_alpha b || b == b'_' || b == b'?')

-- The byte does not start a comment together with the text behind it.
abbrev pub IsApart : ℕ → Bytes → Type 0
IsApart b rest =
    ((b == b'/' && begins b'*' rest) ≡ false) × ((b == b'-' && begins b'-' rest) ≡ false)

abbrev pub IsToken : Token → Type 0
IsToken (quoted q s) = ((q == 39 || q == b'"') ≡ true) × All (λ (b : ℕ). (b == q) ≡ false) s
IsToken (line_comment s) = All (λ (b : ℕ). (b == 10) ≡ false) s
IsToken (bracketed_comment c) = IsComment c
IsToken (word b s) = ((is_alpha b || b == b'_') ≡ true) × All (λ (b : ℕ). is_word b ≡ true) s
IsToken (other b) = is_plain b ≡ true
IsToken _ = Unit

-- The parts are well formed, and no byte starts a comment together with the part behind it.
abbrev pub IsText : List Token → Type 0
IsText [] = Unit
IsText (other b ∷ ts) = IsToken (other b) × IsApart b (render_all ts) × IsText ts
IsText (t ∷ ts) = IsToken t × IsText ts

pub skip_quoted-end :
    (q : ℕ) (s rest : Bytes)
    → All (λ (b : ℕ). (b == q) ≡ false) s
    → skip_quoted q (s ++ q ∷ rest) ≡ rest
unfolding skip_quoted
skip_quoted-end q [] rest h = ground arith
skip_quoted-end q (b ∷ s) rest h = rw (h.0) (skip_quoted-end q s rest h.1)

pub skip_line-end :
    (s rest : Bytes) → All (λ (b : ℕ). (b == 10) ≡ false) s → skip_line (s ++ 10 ∷ rest) ≡ 10 ∷ rest
unfolding skip_line
skip_line-end [] rest h = refl
skip_line-end (b ∷ s) rest h = rw (h.0) (skip_line-end s rest h.1)

-- A comment is skipped to its end, with the comments in it.
pub skip_comment-closed :
    (c : Comment) (depth : ℕ) (rest : Bytes)
    → IsComment c
    → skip_comment (suc depth) (closed c rest) ≡ skip_comment depth rest
unfolding skip_comment
skip_comment-closed end depth rest h = refl
skip_comment-closed (byte b end) depth rest h =
    rw (h.0, h.1) (skip_comment-closed end depth rest tt)
skip_comment-closed (byte b (byte b' c)) depth rest h =
    rw (h.0, h.1) (skip_comment-closed (byte b' c) depth rest h.2)
skip_comment-closed (byte b (nested inner c)) depth rest h =
    rw (h.0, h.1) (skip_comment-closed (nested inner c) depth rest h.2)
skip_comment-closed (nested inner c) depth rest h =
    skip_comment-closed inner (suc depth) (closed c rest) h.0 ∙ skip_comment-closed c depth rest h.1

pub closed-append : (c : Comment) (s rest : Bytes) → closed c s ++ rest ≡ closed c (s ++ rest)
closed-append end s rest = refl
closed-append (byte b c) s rest = ap (λ (r : Bytes). b ∷ r) (closed-append c s rest)
closed-append (nested inner c) s rest =
    ap (λ (r : Bytes). b'/' ∷ b'*' ∷ r)
      (closed-append inner (closed c s) rest ∙ ap (closed inner) (closed-append c s rest))

pub span_word-end :
    (s rest : Bytes)
    → All (λ (b : ℕ). is_word b ≡ true) s
    → span_word (s ++ b' ' ∷ rest) ≡ (s, b' ' ∷ rest)
unfolding span_word
span_word-end [] rest h = refl
span_word-end (b ∷ s) rest h = rw (span_word-end s rest h.1) (ground arith)

pub scan_word-count : (t : Scan) (w : Bytes) → (scan_word t w).count ≡ t.count
unfolding scan_word
scan_word-count t w = ground arith

pub step-quoted :
    (t : Scan) (q : ℕ) (s : Bytes)
    → (q == 39 || q == b'"') ≡ true
    → step t q s ≡ (t, skip_quoted q s)
unfolding step
step-quoted t q s h = rw h

pub step-word :
    (t : Scan) (b : ℕ) (s : Bytes)
    → (is_alpha b || b == b'_') ≡ true
    → step t b s ≡ (scan_word t (b ∷ (span_word s).0), (span_word s).1)
unfolding step is_alpha
step-word t b s h = ground arith

pub step-other :
    (t : Scan) (b : ℕ) (s : Bytes)
    → is_plain b ≡ true
    → IsApart b s
    → step t b s ≡ (scan_other t b, s)
unfolding step
step-other t b s h k = ground arith

pub scan_other-count : (t : Scan) (b : ℕ) → (b == b'?') ≡ false → (scan_other t b).count ≡ t.count
unfolding scan_other
scan_other-count t b h = rw h

pub plain_not_parameter : (b : ℕ) → is_plain b ≡ true → (b == b'?') ≡ false
plain_not_parameter b h = ground arith

pub from_step :
    (t u : Scan) (b : ℕ) (s rest : Bytes)
    → step t b s ≡ (u, rest)
    → scan_from t (b ∷ s) ≡ scan_from u rest
from_step t u b s rest e = (scan_from-step t b s).1 ∙ ap (λ (p : Scan × Bytes). scan_from p.0 p.1) e

pub word_round :
    (t : Scan) (b : ℕ) (s rest : Bytes)
    → (is_alpha b || b == b'_') ≡ true
    → All (λ (c : ℕ). is_word c ≡ true) s
    → step t b ((s ++ b' ' ∷ []) ++ rest) ≡ (scan_word t (b ∷ s), b' ' ∷ rest)
word_round t b s rest h k =
    ap (step t b) (append_assoc s (b' ' ∷ []) rest)
    ∙ step-word t b (s ++ b' ' ∷ rest) h
    ∙ ap (λ (p : Bytes × Bytes). (scan_word t (b ∷ p.0), p.1)) (span_word-end s rest k)
