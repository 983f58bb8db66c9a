-- ===== src/Text/Scan.antt =====
-- vsql_m_scan, which counts the dynamic parameters in the text of a statement
-- (vsql/std_2_20_1_description_of_sql_descriptor_areas.c).
pub mod Rounds
pub mod Tokens
pub mod Count
pub mod Ignored
pub mod Words
use vsql.Base.{
  ℕ, zero, suc, ◌+◌, Bool, true, false, not, ◌&&◌, ◌||◌, List, [], ◌∷◌, map, ◌==◌, if◌then◌else◌,
  take, length,
}
use vsql.Base.Ints.{ℤ, pos, eqz, succz, predz}
use vsql.Base.Bytes.{Bytes, bytes, str_eq, is_alpha, is_digit, is_space, to_upper}

-- The variables of the loop. `count` is the number of "?" so far.
pub record Scan : Type 0 where
  pub count : ℕ
  pub depth : ℤ
  pub first : Bool
  pub single : Bool

abbrev pub start : Scan
start = record { count = 0; depth = pos 0; first = true; single = false }

-- Behind the quote that ends the literal or the identifier.
unfoldable pub skip_quoted : ℕ → Bytes → Bytes
skip_quoted quote [] = []
skip_quoted quote (b ∷ s) = let rest = skip_quoted quote s in if b == quote then s else rest

-- Behind the end of a comment that is `depth` deep. Bracketed comments can be nested.
unfoldable pub skip_comment : ℕ → Bytes → Bytes
skip_comment zero s = s
skip_comment (suc depth) [] = []
skip_comment (suc depth) (b ∷ []) = []
skip_comment (suc depth) (b ∷ c ∷ s) =
    let deeper = skip_comment (suc (suc depth)) s in
    let higher = skip_comment depth s in
    let rest = skip_comment (suc depth) (c ∷ s) in
    if b == b'/' && c == b'*' then deeper else if b == b'*' && c == b'/' then higher else rest

-- At the end of the line, or of the text.
unfoldable pub skip_line : Bytes → Bytes
skip_line [] = []
skip_line (b ∷ s) = let rest = skip_line s in if b == 10 then b ∷ s else rest

-- isalnum(c) || c == '_'
unfoldable pub is_word : ℕ → Bool
unfolding is_alpha is_digit
is_word c = is_alpha c || is_digit c || c == b'_'

-- The word at the start of the text, and what follows it.
unfoldable pub span_word : Bytes → Bytes × Bytes
unfolding is_word
span_word [] = ([], [])
span_word (b ∷ s) =
    let (word, rest) = span_word s in if is_word b then (b ∷ word, rest) else ([], b ∷ s)

-- The buffer `word` holds the first nine bytes of the word, in upper case.
unfoldable pub buffered : Bytes → Bytes
unfolding to_upper
buffered word = map to_upper (take 9 word)

-- A word that a <query specification> does not have outside of parentheses.
unfoldable pub is_query_word : Bytes → Bool
unfolding str_eq
is_query_word w =
    str_eq w (bytes "UNION")
    || str_eq w (bytes "EXCEPT")
    || str_eq w (bytes "INTERSECT")
    || str_eq w (bytes "ORDER")
    || str_eq w (bytes "OFFSET")
    || str_eq w (bytes "FETCH")

unfoldable pub scan_word : Scan → Bytes → Scan
scan_word t word =
    if t.first
    then record t { single = str_eq (buffered word) (bytes "SELECT"); first = false }
    else if eqz t.depth (pos 0) && is_query_word (buffered word)
    then record t { single = false }
    else t

unfoldable pub scan_other : Scan → ℕ → Scan
unfolding is_space
scan_other t b = record {
  count = if b == b'?' then t.count + 1 else t.count;
  depth = if b == b'(' then succz t.depth else if b == b')' then predz t.depth else t.depth;
  first = t.first && is_space b;
  single = t.single;
}

-- Does the text start with the byte?
abbrev pub begins : ℕ → Bytes → Bool
begins c [] = false
begins c (b ∷ s) = b == c

abbrev pub behind_first : Bytes → Bytes
behind_first [] = []
behind_first (b ∷ s) = s

-- One round of the loop, at the byte `b` with `s` behind it.
unfoldable pub step : Scan → ℕ → Bytes → Scan × Bytes
unfolding skip_quoted skip_comment skip_line span_word scan_word scan_other
step t b s =
    if b == 39 || b == b'"'
    then (t, skip_quoted b s)
    else if b == b'/' && begins b'*' s
    then (t, skip_comment 1 (behind_first s))
    else if b == b'-' && begins b'-' s
    then (t, skip_line s)
    else if is_alpha b || b == b'_'
    then (let (word, rest) = span_word s in (scan_word t (b ∷ word), rest))
    else (scan_other t b, s)

-- while (sql[i] != '\0'), for at most `fuel` rounds.
unfoldable pub scan_loop : ℕ → Scan → Bytes → Scan
unfolding step
scan_loop fuel t [] = t
scan_loop zero t (b ∷ s) = t
scan_loop (suc fuel) t (b ∷ s) = let (u, rest) = step t b s in scan_loop fuel u rest

-- The rounds are as many as the text has bytes, since each takes at least one.
unfoldable pub scan : Bytes → Scan
unfolding scan_loop
scan sql = scan_loop (length sql) start sql
