-- ===== src/Diagnostics/Items.antt =====
-- What a <get diagnostics statement> and a WHENEVER CONSTRAINT read
-- (vsql/std_2_23_1_get_diagnostics_statement.c, vsql/std_2_21_2_embedded_exception_declaration.c).
use vsql.Base.{
  ℕ, ◌-◌, Bool, true, false, ◌&&◌, ◌||◌, Option, none, some, List, [], ◌∷◌, if◌then◌else◌, ◌==◌,
  length, get_elem?,
}
use vsql.Base.Ints.{ℤ, pos, eqz}
use vsql.Base.Bytes.{Bytes, bytes, str_eq, or_empty, holds}
use vsql.Cli.DiagField
use vsql.Runtime.{Area, Condition}
use vsql.Text.Put.{characters}

-- The condition is the violation of the constraint. `catalog` is `none` for any catalog.
unfoldable pub is_violation : Option Bytes → Bytes → Bytes → Condition → Bool
unfolding str_eq
is_violation catalog schema name c =
    holds c.constraint_name name
    && holds c.constraint_schema schema
    && elim catalog [ none ↦ true | some t ↦ holds c.constraint_catalog t ]

-- vsql_m_violated
unfoldable pub violated : Option Bytes → Bytes → Bytes → List Condition → Bool
unfolding is_violation
violated catalog schema name [] = false
violated catalog schema name (c ∷ cs) =
    is_violation catalog schema name c || violated catalog schema name cs

abbrev pub one_of : ℕ → Bytes → Bool
one_of c [] = false
one_of c (b ∷ s) = b == c || one_of c s

-- vsql_m_origin. strchr finds the null character of its text too.
unfoldable pub origin : ℕ → Bytes
origin c = if one_of c (bytes "01234ABCDEFGH") || c == 0 then bytes "ISO 9075" else bytes "vsql"

-- A byte of a string, the null character behind its end.
abbrev pub byte_at : Bytes → ℕ → ℕ
byte_at s i = elim (get_elem? s i) [ none ↦ 0 | some b ↦ b ]

-- A character string item of a condition.
unfoldable pub condition_text : ℤ → Area → Condition → Bytes
unfolding origin str_eq
condition_text item a c =
    if eqz item DiagField.sqlstate
    then c.sqlstate
    else if eqz item DiagField.message_text
    then or_empty c.message
    else if eqz item DiagField.class_origin
    then origin (byte_at c.sqlstate 0)
    else if eqz item DiagField.subclass_origin
    then origin (byte_at c.sqlstate 2)
    else if eqz item DiagField.constraint_catalog
    then or_empty c.constraint_catalog
    else if eqz item DiagField.constraint_schema
    then or_empty c.constraint_schema
    else if eqz item DiagField.constraint_name
    then or_empty c.constraint_name
    else if eqz item DiagField.cursor_name
    then (if str_eq c.sqlstate (bytes "24000") then or_empty a.cursor_name else [])
    else []

-- vsql_m_item_text, where condition `n` is in the area: `none` is a read out of its bounds.
unfoldable pub item_text : ℤ → ℕ → Area → Option Bytes
unfolding condition_text
item_text item n a =
    if eqz item DiagField.more
    then some (bytes "N")
    else if eqz item DiagField.command_function
    then some a.command_function
    else if eqz item DiagField.dynamic_function
    then some a.dynamic_function
    else if eqz item DiagField.connection_name
    then some a.connection_name
    else if eqz item DiagField.server_name
    then some (or_empty a.server_name)
    else elim (get_elem? a.conditions (n - 1)) [
      | none ↦ none
      | some c ↦ some (condition_text item a c)
    ]

abbrev flag : Bool → ℤ
flag true = pos 1
flag false = pos 0

-- The length of a message, in characters or in bytes.
unfoldable pub message_size : ℤ → Condition → ℤ
message_size item c = elim c.message [
  | none ↦ pos 0
  | some t ↦ if eqz item DiagField.message_octet_length then pos (length t) else pos (characters t)
]

-- vsql_m_item_number, likewise. `active` is whether the current SQL-connection has an active
-- SQL-transaction.
unfoldable pub item_number : ℤ → ℕ → Bool → Area → Option ℤ
unfolding message_size
item_number item n active a =
    if eqz item DiagField.number
    then some (pos (length a.conditions))
    else if eqz item DiagField.command_function_code
    then some a.command_function_code
    else if eqz item DiagField.dynamic_function_code
    then some a.dynamic_function_code
    else if eqz item DiagField.row_count
    then some a.row_count
    else if eqz item DiagField.transactions_committed
    then some (flag a.transactions_committed)
    else if eqz item DiagField.transactions_rolled_back
    then some (flag a.transactions_rolled_back)
    else if eqz item DiagField.transaction_active
    then some (flag active)
    else elim (get_elem? a.conditions (n - 1)) [ none ↦ none | some c ↦ some (message_size item c) ]
