-- ===== src/Tests/Texts.antt =====
-- Names, strings and scanned texts (vsql/std_2_13_1_sql_client_module_definition.c,
-- vsql/std_2_14_7_select_statement_single_row.c,
-- vsql/std_2_20_1_description_of_sql_descriptor_areas.c).
use vsql.Base.{
  ◌≡◌, ◌≤◌, ◌<◌, ◌+◌, ◌*◌, ◌-◌, refl, true, false, List, [], ◌∷◌, ◌++◌, map, arith, length,
  replicate, ltb,
}
use vsql.Base.Bytes.{Bytes, bytes, is_alpha, to_upper}
use vsql.Text.Put.{characters, cut, is_start, put}
use vsql.Text.Put.Padding.{characters-put, put_lem, put_fits}
use vsql.Text.Name.{is_name_byte, name}
use vsql.Text.Name.Delimited.{blanks, delimited, name-delimited}
use vsql.Text.Name.Regular.{name-regular}
use vsql.Text.Name.Bounds.{name-le}
use vsql.Text.Scan.{buffered, is_query_word, scan, is_word}
use vsql.Text.Scan.Tokens.{
  Token, parameter, open_paren, quoted, line_comment, bracketed_comment, word, other, render_all,
  parameters, IsText, Comment, end, byte, nested,
}
use vsql.Text.Scan.Count.{scan-count}
use vsql.Text.Scan.Ignored.{blanked, scan-blanked}
use vsql.Text.Scan.Words.{scan-intersect_prefix}

-- Two characters, the second of two bytes.
abbrev cafe : Bytes
cafe = bytes "caf" ++ 195 ∷ 169 ∷ []

put_lem_example :
    ((put 6 cafe).truncated ≡ ltb 6 (characters cafe))
    × (characters cafe ≤ 6 → (put 6 cafe).target ≡ cafe ++ replicate (6 - characters cafe) b' ')
    × (6 < characters cafe → (rest : Bytes) × ((put 6 cafe).target ++ rest ≡ cafe))
put_lem_example = put_lem 6 cafe

characters-put_example : characters (put 2 cafe).target ≡ 2
characters-put_example = characters-put 2 cafe

put_fits_example : length (put 6 cafe).target < (6 + 1) * 4
unfolding is_start
put_fits_example = put_fits 6 cafe (omega arith, tt)

cut_test : (put 4 (cafe ++ bytes "!")).target ≡ cafe
unfolding put cut is_start
cut_test = refl

name-delimited_example : name (blanks 2 ++ (delimited (bytes "a\"b") ++ blanks 1)) ≡ bytes "a\"b"
name-delimited_example = name-delimited 2 1 (bytes "a\"b") (omega arith) (omega arith)

name-regular_example :
    name (blanks 1 ++ (bytes "conn_1" ++ blanks 3)) ≡ map to_upper (bytes "conn_1")
unfolding is_name_byte
name-regular_example =
    name-regular 1 3 b'c' (bytes "onn_1") (omega arith)
      (refl, (refl, (refl, (refl, (refl, (refl, tt))))))

name-le_example : length (name (bytes " conn")) < 129
name-le_example = name-le (bytes " conn")

name_test : name (bytes "1st") ≡ []
unfolding name
name_test = refl

-- A comment in a comment, with a "?" and a "*" in it.
abbrev inner : Comment
inner = nested (byte b'*' (byte b'?' end)) (byte b'?' (byte b' ' end))

abbrev tokens : List Token
tokens =
    word b'S' (bytes "EL")
    ∷ parameter
    ∷ other b'-'
    ∷ quoted b'\'' (bytes "?-")
    ∷ bracketed_comment (byte b'/' (byte b' ' inner))
    ∷ open_paren
    ∷ other b'/'
    ∷ parameter
    ∷ line_comment (bytes "?")
    ∷ []

tokens-IsText : IsText tokens
unfolding is_alpha is_word
tokens-IsText = (
  (refl, (refl, (refl, tt))),
  (
    tt,
    (
      refl,
      (refl, refl),
      (
        (refl, (refl, (refl, tt))),
        (
          (
            refl,
            refl,
            (refl, refl, ((refl, refl, (refl, refl, tt)), (refl, refl, (refl, refl, tt)))),
          ),
          (tt, (refl, (refl, refl), (tt, ((refl, tt), tt)))),
        ),
      ),
    ),
  ),
)

scan-count_example : (scan (render_all tokens)).count ≡ parameters tokens
scan-count_example = scan-count tokens tokens-IsText

scan-blanked_example : scan (render_all tokens) ≡ scan (render_all (blanked tokens))
scan-blanked_example = scan-blanked tokens tokens-IsText

scan-intersect_prefix_example :
    (scan (bytes "SELECT INTERSECT" ++ (bytes "ION" ++ b' ' ∷ bytes "FROM T"))).single ≡ false
unfolding is_word
scan-intersect_prefix_example =
    scan-intersect_prefix (bytes "ION") (bytes "FROM T") (refl, (refl, (refl, tt)))

single_test : (scan (bytes "SELECT A FROM (SELECT A FROM T UNION SELECT A FROM U)")).single ≡ true
unfolding scan is_query_word buffered
single_test = refl
