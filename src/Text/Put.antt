-- ===== src/Text/Put.antt =====
-- vsql_m_put, which assigns a string to a CHARACTER host parameter, and vsql_m_characters
-- (vsql/std_2_14_7_select_statement_single_row.c).
pub mod Padding
use Prim.Native.Nat.{bit_and}
use vsql.Base.{
  ℕ, ◌+◌, ◌-◌, Bool, true, false, not, ◌&&◌, List, [], ◌∷◌, ◌++◌, ◌==◌, if◌then◌else◌, replicate,
}
use vsql.Base.Bytes.{Bytes}

-- (b & 0xC0) != 0x80: the byte starts a UTF-8 character.
unfoldable pub is_start : ℕ → Bool
is_start b = not (bit_and b 0xC0 == 0x80)

-- vsql_m_characters
unfoldable pub characters : Bytes → ℕ
characters [] = 0
characters (b ∷ s) = if is_start b then characters s + 1 else characters s

-- Where the copying loop of vsql_m_put stops: the bytes before and from there.
pub record Cut : Type 0 where
  pub kept : Bytes
  pub count : ℕ
  pub rest : Bytes

-- The loop of vsql_m_put. `count` characters have been copied.
unfoldable pub cut : ℕ → ℕ → Bytes → Cut
cut limit count [] = record { kept = []; count = count; rest = [] }
cut limit count (b ∷ s) =
    let after = cut limit (if is_start b then count + 1 else count) s in
    if is_start b && (count == limit)
    then record { kept = []; count = count; rest = b ∷ s }
    else record { kept = b ∷ after.kept; count = after.count; rest = after.rest }

pub record Assigned : Type 0 where
  pub target : Bytes
  pub truncated : Bool

-- value[octets] != '\0'
abbrev pub is_more : Bytes → Bool
is_more [] = false
is_more (b ∷ s) = true

-- vsql_m_put
unfoldable pub put : ℕ → Bytes → Assigned
put limit value =
    let c = cut limit 0 value in
    record { target = c.kept ++ replicate (limit - c.count) b' '; truncated = is_more c.rest }
