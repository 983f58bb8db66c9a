-- ===== src/Prepared.antt =====
-- Prepared statements: vsql_m_find_prepared to vsql_m_describe
-- (vsql/std_2_20_7_prepare_statement.c).
pub mod Kept
use vsql.Base.{
  ℕ, zero, suc, ◌+◌, ◌==◌, Bool, true, false, not, ◌&&◌, Option, none, some, List, [], ◌∷◌,
  if◌then◌else◌,
}
use vsql.Base.Ints.{ℤ, pos, lez, between, to_ℕ}
use vsql.Base.Bytes.{Bytes, bytes, str_eq, holds}
use vsql.Cli.{
  dbc, stmt, alloc_handle, free_handle, prepare as cli_prepare, get_holdable, set_holdable,
  num_result_cols, col_attribute, get_diag_field, failed,
}
use vsql.Cli.SqlType
use vsql.Cli.DiagField
use vsql.Runtime.{Connection, Prepared, Descriptor}
use vsql.Item.{Item, NumberField, StringField, reset_item}
use vsql.Item.Contents.{with_number, with_string}
use vsql.Action.{
  Action, Done, pure, ◌>>=◌, ◌>>◌, for_some, this_module, call, allocate, copy, modify_area,
}
use vsql.Diagnostics.{status, diag}
use vsql.Session.{modify_connection, connection, with_connection}
use vsql.Statement.{set_active, number_or, text_or}
use vsql.Cursor.{module_cursors}
use vsql.Descriptor.{descriptor, active_connection, write_descriptors, update as update_descriptor}

unfoldable pub is_named : ℕ → Bytes → Prepared → Bool
unfolding str_eq
is_named m name p = p.module_id == m && str_eq p.name name

-- vsql_m_find_prepared, in the module `m`
unfoldable pub find : ℕ → Bytes → List Prepared → Option Prepared
unfolding is_named
find m name [] = none
find m name (p ∷ ps) = if is_named m name p then some p else find m name ps

-- The list without it.
unfoldable pub remove : ℕ → Bytes → List Prepared → List Prepared
unfolding is_named
remove m name [] = []
remove m name (p ∷ ps) = if is_named m name p then ps else p ∷ remove m name ps

abbrev pub write_prepared : (List Prepared → List Prepared) → Connection → Connection
write_prepared f c = record c { prepared = f c.prepared }

-- Is the cursor with the handle open? Its holdability can be read, and cannot be set.
unfoldable pub is_open : ℕ → Action Bool
is_open h = do
  g ← call (get_holdable h)
  if failed g.rc
      then pure false
      else do r ← call (set_holdable h (number_or (pos 0) g.number)); pure (failed r.rc)

-- The first open cursor, from cursor `i` on, that is declared for the prepared statement.
unfoldable pub open_cursor_of : ℕ → ℕ → Bytes → List (Option ℕ) → Action (Option ℕ)
unfolding is_open
open_cursor_of zero i name stmts = pure none
open_cursor_of (suc left) i name [] = pure none
open_cursor_of (suc left) i name (slot ∷ slots) = do
  m ← this_module
  opened ←
      if holds (m.cursor_statements i) name then for_some slot (pure false) is_open else pure false
  if opened then pure (some i) else open_cursor_of left (i + 1) name slots

abbrev pub or_no_cursors : Option (List (Option ℕ)) → List (Option ℕ)
or_no_cursors none = []
or_no_cursors (some hs) = hs

-- vsql_m_deallocate, of the prepared statement `p` of the SQL-connection
unfoldable pub deallocate : ℕ → Prepared → Action Bool
unfolding module_cursors open_cursor_of remove modify_connection modify_area
deallocate c p = do
  m ← this_module
  stmts ← module_cursors c
  opened ← open_cursor_of m.cursor_count 0 p.name (or_no_cursors stmts)
  for_some opened
      (do
        call (free_handle stmt p.stmt)
        modify_connection c (write_prepared (remove m.id p.name))
        pure true)
      λ i. do
        status (bytes "24000")
        modify_area (λ a. record a { cursor_name = some (m.cursor_names i) })
        pure false

-- vsql_m_prepared_statement
unfoldable pub prepared_statement : Bytes → Action (Option Prepared)
unfolding connection with_connection find
prepared_statement name = do
  m ← this_module
  c ← connection
  for_some c (pure none) λ id. with_connection id λ d.
      for_some (find m.id name d.prepared) (status (bytes "26000") >> pure none) λ p. pure (some p)

-- The statement handle `h` of a new prepared statement, whose text is prepared with it.
unfoldable pub prepare_on : ℕ → ℕ → Bytes → Bytes → Action Done
unfolding modify_connection
prepare_on c h name sql = do
  m ← this_module
  modify_connection c (set_active true)
  r ← call (cli_prepare h sql)
  diag r.rc stmt h
  if failed r.rc then call (free_handle stmt h) >> pure tt else do
    f ← call (get_diag_field stmt h 0 DiagField.cli_dynamic_function)
    n ← call (get_diag_field stmt h 0 DiagField.cli_dynamic_function_code)
    modify_connection c (
        write_prepared (λ ps.
          record {
            module_id = m.id;
            name = name;
            sql = sql;
            stmt = h;
            dynamic_function = text_or [] f.string;
            dynamic_function_code = number_or (pos 0) n.number;
          }
          ∷ ps))

-- A prepared statement is made, when there is none with the name.
unfoldable pub prepare_new : ℕ → ℕ → Bytes → Bytes → Action Done
unfolding prepare_on
prepare_new c handle name sql = do
  there ← allocate 1
  copied ← if there then copy sql else pure none
  for_some copied (status (bytes "HY001")) λ text. do
    r ← call (alloc_handle stmt handle)
    if failed r.rc then diag r.rc dbc handle else prepare_on c r.handle name text

-- vsql_m_prepare
unfoldable pub prepare : Bytes → Bytes → Action Done
unfolding connection with_connection find deallocate prepare_new
prepare name sql = do
  m ← this_module
  c ← connection
  for_some c (pure tt) λ id. with_connection id λ d. do
    gone ← for_some (find m.id name d.prepared) (pure true) (deallocate id)
    if gone then prepare_new id d.dbc name sql else pure tt

-- vsql_m_deallocate_prepare
unfoldable pub deallocate_prepare : Bytes → Action Done
unfolding active_connection find deallocate
deallocate_prepare name = do
  m ← this_module
  active_connection tt λ id d.
      for_some (find m.id name d.prepared) (status (bytes "26000"))
        λ p. do gone ← deallocate id p; if gone then status (bytes "00000") else pure tt

-- The codes of the components of the IRD, with the components that they are copied to.
abbrev pub number_codes : List (ℤ × NumberField)
number_codes =
    (pos 1002, NumberField.type)
    ∷ (pos 1007, NumberField.datetime_interval_code)
    ∷ (pos 1003, NumberField.length)
    ∷ (pos 1013, NumberField.octet_length)
    ∷ (pos 1005, NumberField.precision)
    ∷ (pos 1006, NumberField.scale)
    ∷ (pos 1008, NumberField.nullable)
    ∷ (pos 1012, NumberField.unnamed)
    ∷ []

abbrev pub string_codes : List (ℤ × StringField)
string_codes =
    (pos 1011, StringField.name)
    ∷ (pos 1018, StringField.character_set_catalog)
    ∷ (pos 1019, StringField.character_set_schema)
    ∷ (pos 1020, StringField.character_set_name)
    ∷ (pos 1015, StringField.collation_catalog)
    ∷ (pos 1016, StringField.collation_schema)
    ∷ (pos 1017, StringField.collation_name)
    ∷ []

unfoldable pub describe_numbers : ℕ → ℕ → List (ℤ × NumberField) → Item → Action Item
describe_numbers h column [] item = pure item
describe_numbers h column ((code, field) ∷ rest) item = do
  r ← call (col_attribute h column code)
  describe_numbers h column rest (with_number field (number_or (pos 0) r.number) item)

-- if (s[0] != '\0') vsql_m_copy(...)
unfoldable pub copy_unless_empty : Bytes → StringField → Item → Action Item
copy_unless_empty [] field item = pure item
copy_unless_empty (b ∷ s) field item = do
  copied ← copy (b ∷ s)
  pure (with_string field copied item)

unfoldable pub describe_strings : ℕ → ℕ → List (ℤ × StringField) → Item → Action Item
unfolding copy_unless_empty
describe_strings h column [] item = pure item
describe_strings h column ((code, field) ∷ rest) item = do
  r ← call (col_attribute h column code)
  changed ← copy_unless_empty (text_or [] r.string) field item
  describe_strings h column rest changed

-- A concise datetime type of the IRD is a datetime.
abbrev pub verbose_type : Item → Item
verbose_type item =
    if between SqlType.type_date SqlType.type_timestamp_with_timezone (item.number NumberField.type)
    then with_number NumberField.type SqlType.datetime item
    else item

-- vsql_m_describe_column
unfoldable pub describe_column : ℕ → ℕ → Item → Action Item
unfolding describe_numbers describe_strings
describe_column h column item = do
  numbers ← describe_numbers h column number_codes (reset_item item)
  described ← describe_strings h column string_codes numbers
  pure (verbose_type described)

-- The description of the columns from column `i` (from 0) on.
unfoldable pub describe_columns : ℕ → ℕ → ℕ → List Item → Action (List Item)
unfolding describe_column
describe_columns zero h i items = pure items
describe_columns (suc left) h i [] = pure []
describe_columns (suc left) h i (item ∷ items) = do
  described ← describe_column h (i + 1) item
  rest ← describe_columns left h (i + 1) items
  pure (described ∷ rest)

abbrev pub described_as : Prepared → ℤ → Descriptor → Descriptor
described_as p columns d = record d {
  count = columns;
  top_level_count = columns;
  dynamic_function = p.dynamic_function;
  dynamic_function_code = p.dynamic_function_code;
}

-- vsql_m_describe
unfoldable pub describe : Bytes → Bytes → Option ℕ → Action Done
unfolding prepared_statement descriptor modify_connection describe_columns
describe statement name scope = do
  found ← prepared_statement statement
  for_some found (pure tt) λ p. do
    area ← descriptor name scope
    for_some area (pure tt) λ (c, d). do
      r ← call (num_result_cols p.stmt)
      let columns = number_or (pos 0) r.number
      modify_connection c
          (write_descriptors (update_descriptor name scope (described_as p columns)))
      if not (lez columns (pos d.max)) then status (bytes "01005") else (do
        items ← describe_columns (to_ℕ columns) p.stmt 0 d.items
        modify_connection c
            (write_descriptors (update_descriptor name scope (λ e. record e { items = items })))
        status (bytes "00000"))
