-- ===== src/Text/Name.antt =====
-- vsql_m_name, which reads a connection name or a user name
-- (vsql/std_2_13_1_sql_client_module_definition.c).
pub mod Delimited
pub mod Regular
pub mod Bounds
use vsql.Base.{
  ℕ, ◌+◌, Bool, true, false, not, ◌&&◌, ◌||◌, Option, none, some, List, [], ◌∷◌, ◌==◌,
  if◌then◌else◌,
}
use vsql.Base.Bytes.{Bytes, or_empty, is_alpha, is_digit, to_upper}

-- while (start < end && s[start] == ' ') start++;
unfoldable pub trim_start : Bytes → Bytes
trim_start [] = []
trim_start (b ∷ s) = let rest = trim_start s in if b == b' ' then rest else b ∷ s

abbrev pub cons_unless_blank : ℕ → Bytes → Bytes
cons_unless_blank b [] = if b == b' ' then [] else b ∷ []
cons_unless_blank b (c ∷ s) = b ∷ c ∷ s

-- while (end > start && s[end - 1] == ' ') end--;
unfoldable pub trim_end : Bytes → Bytes
trim_end [] = []
trim_end (b ∷ s) = cons_unless_blank b (trim_end s)

abbrev pub keep : ℕ → Option Bytes → Option Bytes
keep b none = none
keep b (some s) = some (b ∷ s)

-- The body of a delimited identifier, with `n` bytes of the name written before it. A doubled
-- quote is one quote, and a single one, or a 129th byte, is an error.
unfoldable pub unquote : ℕ → Bytes → Option Bytes
unquote n [] = some []
unquote n (b ∷ []) = if n == 128 || b == b'"' then none else some (b ∷ [])
unquote n (b ∷ c ∷ s) =
    let quote = keep b (unquote (n + 1) s) in
    let other = keep b (unquote (n + 1) (c ∷ s)) in
    if n == 128 then none else if b == b'"' then (if c == b'"' then quote else none) else other

-- isalpha(c) || c == '_' || (i > start && isdigit(c))
unfoldable pub is_name_byte : Bool → ℕ → Bool
unfolding is_alpha is_digit
is_name_byte first c = is_alpha c || c == b'_' || (not first && is_digit c)

-- An identifier that is not delimited, with `n` bytes of the name written before it.
unfoldable pub regular : Bool → ℕ → Bytes → Option Bytes
unfolding is_name_byte to_upper
regular first n [] = some []
regular first n (c ∷ s) =
    let rest = keep (to_upper c) (regular false (n + 1) s) in
    if n == 128 || not (is_name_byte first c) then none else rest

-- A list that is not empty, as what stands before its last byte, and that byte.
unfoldable pub split_last : ℕ → Bytes → Bytes × ℕ
split_last b [] = ([], b)
split_last b (c ∷ s) = let (body, z) = split_last c s in (b ∷ body, z)

-- A name without the spaces around it. `end - start < 3` leaves at most one byte behind the
-- first quote.
unfoldable pub identifier : Bytes → Option Bytes
unfolding unquote regular split_last
identifier [] = some []
identifier (b ∷ []) = if b == b'"' then none else regular true 0 (b ∷ [])
identifier (b ∷ c ∷ []) = if b == b'"' then none else regular true 0 (b ∷ c ∷ [])
identifier (b ∷ c ∷ d ∷ s) =
    let (body, z) = split_last d s in
    if b == b'"'
    then (if z == b'"' then unquote 0 (c ∷ body) else none)
    else regular true 0 (b ∷ c ∷ d ∷ s)

-- vsql_m_name. It is empty if it is not an identifier.
unfoldable pub name : Bytes → Bytes
unfolding identifier trim_start trim_end
name s = or_empty (identifier (trim_end (trim_start s)))
