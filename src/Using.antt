-- ===== src/Using.antt =====
-- The using clauses of dynamic SQL: vsql_m_bind_item to vsql_m_into
-- (vsql/std_2_20_7_prepare_statement.c).
use vsql.Base.{
  ℕ, zero, suc, ◌+◌, ◌-◌, Bool, true, false, not, ◌||◌, Option, none, some, List, [], ◌∷◌, ◌++◌,
  if◌then◌else◌, length, replicate, ltb,
}
use vsql.Base.Ints.{ℤ, pos, negsuc, eqz, is_negative, to_ℕ, narrow, narrow_16}
use vsql.Base.Bytes.{Bytes, bytes, or_empty}
use vsql.Cli.{
  Value, short, int, long_long, float, double, text, Param, Reply, stmt, bind_parameter, get_data,
  num_result_cols, col_attribute, failed, success, success_with_info, no_data, error, null_data,
  nts,
}
use vsql.Cli.SqlType
use vsql.Text.Put.{characters}
use vsql.Text.Scan.{scan}
use vsql.Runtime.{Descriptor}
use vsql.Item.{Item, NumberField}
use vsql.Item.Checks.{c_type}
use vsql.Item.Contents.{with_number}
use vsql.Action.{Action, pure, ◌>>=◌, ◌>>◌, for_some, this_module, call, allocate}
use vsql.Diagnostics.{status, diag}
use vsql.Session.{modify_connection}
use vsql.Statement.{bind_params, number_or}
use vsql.Target.{Target, assign_row, row_status}
use vsql.Descriptor.{descriptor, items, update, write_descriptors}

-- struct vsql_m_input. `count` is -1 when there are no host parameters.
pub record Input : Type 0 where
  pub count : ℤ
  pub params : List Param
  pub descriptor : Option Bytes
  pub scope : Option ℕ

-- struct vsql_m_output, likewise.
pub record Output : Type 0 where
  pub count : ℤ
  pub targets : List Target
  pub descriptor : Option Bytes
  pub scope : Option ℕ

-- The SQL data type that DATA is bound as: a datetime is a concise data type in the CLI.
abbrev pub bound_type : Item → ℤ
bound_type item =
    if eqz (narrow_16 (item.number NumberField.type)) SqlType.datetime
    then pos (90 + to_ℕ (item.number NumberField.datetime_interval_code))
    else narrow_16 (item.number NumberField.type)

abbrev pub bound_size : Item → ℤ
bound_size item =
    if eqz (bound_type item) SqlType.char || eqz (bound_type item) SqlType.varchar
    then item.number NumberField.length
    else if eqz (bound_type item) SqlType.boolean
    then pos 0
    else item.number NumberField.precision

-- The length/indicator of DATA.
abbrev pub bound_length : Item → ℤ
bound_length item =
    if is_negative (item.number NumberField.indicator)
    then null_data
    else if eqz (c_type item).code SqlType.char
    then nts
    else pos 0

abbrev pub bound_param : Item → Param
bound_param item = record {
  value_type = (c_type item).code;
  parameter_type = bound_type item;
  length = bound_size item;
  scale = narrow_16 (item.number NumberField.scale);
  value = item.data_value;
  indicator = bound_length item;
}

-- vsql_m_bind_item: the return code, and the item with its length/indicator
unfoldable pub bind_item : ℕ → ℕ → Item → Action (ℤ × Item)
unfolding c_type narrow_16
bind_item h i item = do
  r ← call (bind_parameter h i (bound_param item))
  pure (r.rc, record item { length = bound_length item })

abbrev pub is_unset : Item → Bool
is_unset item = elim item.data_value [
  | none ↦ not (is_negative (item.number NumberField.indicator))
  | some v ↦ false
]

-- The items from item `i` (from 0) on are bound to the dynamic parameters, after one that was
-- bound with the return code `rc`. The SQLSTATE is the one of an item that has no value.
unfoldable pub bind_items : ℕ → ℕ → ℕ → ℤ → List Item → Action (Option Bytes × ℤ × List Item)
unfolding bind_item
bind_items zero h i rc items = pure (none, rc, items)
bind_items (suc left) h i rc [] = pure (none, rc, [])
bind_items (suc left) h i rc (item ∷ items) =
    if is_unset item then pure (some (bytes "07001"), rc, item ∷ items) else do
      bound ← bind_item h (i + 1) item
      if failed bound.0 then pure (none, bound.0, bound.1 ∷ items) else do
        (e, last, rest) ← bind_items left h (i + 1) bound.0 items
        pure (e, last, bound.1 ∷ rest)

abbrev pub with_items : List Item → Descriptor → Descriptor
with_items items d = record d { items = items }

-- The end of vsql_m_bind
unfoldable pub bound : ℕ → ℤ → Action Bool
bound h rc = if failed rc then diag rc stmt h >> pure false else pure true

-- An <input using clause> that is an SQL descriptor area, for `n` dynamic parameters.
unfoldable pub bind_descriptor : ℕ → ℕ → Bytes → Option ℕ → Action Bool
unfolding descriptor items bind_items bound update modify_connection
bind_descriptor h n name scope = do
  found ← descriptor name scope
  for_some found (pure false) λ (c, d). do
    good ← items d (pos n) (bytes "07001")
    if not good then pure false else do
      (e, rc, list) ← bind_items n h 0 success d.items
      modify_connection c (write_descriptors (update name scope (with_items list)))
      for_some e (bound h rc) λ code. do status code; pure false

-- vsql_m_bind
unfoldable pub bind : ℕ → Bytes → Input → Action Bool
unfolding scan bind_descriptor bind_params bound
bind h sql input =
    let n = (scan sql).count in
    for_some input.descriptor
      (if is_negative input.count
        then (if ltb 0 n then status (bytes "07004") >> pure false else pure true)
        else if not (eqz input.count (pos n))
        then status (bytes "07001") >> pure false
        else (do rc ← bind_params h 0 success input.params; bound h rc))
      λ name. bind_descriptor h n name input.scope

-- The pieces of a column, for at most `pieces` of them: their characters and bytes.
unfoldable pub column_pieces : ℕ → ℕ → ℕ → ℕ → ℕ → Action (ℕ × ℕ)
column_pieces zero h i n octets = pure (n, octets)
column_pieces (suc pieces) h i n octets = do
  r ← call (get_data h i SqlType.char (pos 256) false)
  let n' = n + characters (or_empty r.string)
  let octets' = octets + length (or_empty r.string)
  if eqz r.rc success_with_info then column_pieces pieces h i n' octets' else pure (n', octets')

-- What SQLGetData writes for a C type.
abbrev pub retrieved : ℤ → Reply → Value
retrieved code r =
    if eqz code SqlType.smallint
    then short (number_or (pos 0) r.number)
    else if eqz code SqlType.integer
    then int (number_or (pos 0) r.number)
    else if eqz code SqlType.bigint
    then long_long (number_or (pos 0) r.number)
    else if eqz code SqlType.real
    then float (to_ℕ (number_or (pos 0) r.number))
    else if eqz code SqlType.double
    then double (to_ℕ (number_or (pos 0) r.number))
    else text (or_empty r.string)

-- A CHARACTER is padded with spaces to its length.
abbrev pub pad_data : ℤ → ℕ → Value → Value
pad_data type limit (text s) =
    if eqz type SqlType.char then text (s ++ replicate (limit - characters s) b' ') else text s
pad_data type limit v = v

abbrev pub string_in : Value → Bytes
string_in (text s) = s
string_in _ = []

abbrev pub with_lengths : ℕ → ℕ → Item → Item
with_lengths n octets item =
    with_number NumberField.returned_octet_length (pos octets)
      (with_number NumberField.returned_length (pos n) item)

-- The returned lengths: of the value if the item is a CHARACTER VARYING, otherwise of the column
-- if that is one.
abbrev pub returned : ℤ → ℕ × ℕ → Value → Item → Item
returned column_type (n, octets) v item =
    if eqz (item.number NumberField.type) SqlType.varchar
    then with_lengths (characters (string_in v)) (length (string_in v)) item
    else if eqz column_type SqlType.varchar
    then with_lengths n octets item
    else item

-- A value that has been retrieved.
abbrev pub filled : ℤ → ℕ × ℕ → Reply → Item → Item
filled column_type sizes r item =
    let v = retrieved (c_type item).code r in
    if eqz r.indicator null_data
    then with_number NumberField.indicator (negsuc 0) (record item { data_value = some v })
    else (let w =
          pad_data (item.number NumberField.type) (to_ℕ (item.number NumberField.length)) v in
        returned column_type sizes w
          (with_number NumberField.indicator (pos 0) (record item { data_value = some w })))

-- SQL_DESC_TYPE of a column
abbrev pub desc_type : ℤ
desc_type = pos 1002

-- vsql_m_get_column: the return code, and the item
unfoldable pub get_column : ℕ → ℕ → Item → Action (ℤ × Item)
unfolding column_pieces c_type
get_column h i item = do
  m ← this_module
  there ← allocate (c_type item).size
  if not there then pure (error, item) else do
    column_type ←
        if eqz (item.number NumberField.type) SqlType.varchar
        then pure (pos 0)
        else (do r ← call (col_attribute h i desc_type); pure (number_or (pos 0) r.number))
    sizes ← if eqz column_type SqlType.varchar then column_pieces m.pieces h i 0 0 else pure (0, 0)
    r ← call (get_data h i (c_type item).code (narrow (pos (c_type item).size)) true)
    pure (r.rc, if failed r.rc then item else filled column_type sizes r item)

-- The columns from column `i` (from 0) on, after one with the return code `rc`.
unfoldable pub get_columns : ℕ → ℕ → ℕ → ℤ → List Item → Action (ℤ × Bool × List Item)
unfolding get_column
get_columns zero h i rc items = pure (rc, false, items)
get_columns (suc left) h i rc [] = pure (rc, false, [])
get_columns (suc left) h i rc (item ∷ items) = do
  got ← get_column h (i + 1) item
  if failed got.0 then pure (got.0, false, got.1 ∷ items) else do
    (last, cut, rest) ← get_columns left h (i + 1) got.0 items
    pure (last, eqz got.0 success_with_info || cut, got.1 ∷ rest)

-- The end of vsql_m_into
unfoldable pub into_status : ℕ → ℤ → Bool → Action Bool
into_status h rc truncated =
    if failed rc
    then (do diag rc stmt h; pure false)
    else (do status (row_status truncated); pure true)

-- An <output using clause> that is an SQL descriptor area.
unfoldable pub into_descriptor : ℕ → ℤ → ℤ → Bytes → Option ℕ → Action Bool
unfolding descriptor items get_columns into_status update modify_connection
into_descriptor h rc columns name scope = do
  found ← descriptor name scope
  for_some found (pure false) λ (c, d). do
    good ← items d columns (bytes "07002")
    if not good then pure false else do
      (last, cut, list) ← get_columns (to_ℕ columns) h 0 rc d.items
      modify_connection c (write_descriptors (update name scope (with_items list)))
      into_status h last cut

-- The number of columns of a row that has been fetched, and the return code.
unfoldable pub row_columns : ℕ → ℤ → Action (ℤ × ℤ)
row_columns h fetched =
    if failed fetched || eqz fetched no_data
    then pure (fetched, pos 0)
    else do r ← call (num_result_cols h); pure (r.rc, number_or (pos 0) r.number)

-- An <output using clause> that is the targets.
unfoldable pub into_targets : ℕ → ℤ → ℤ → Output → Action (Bool × List Target)
unfolding assign_row into_status
into_targets h rc columns output =
    if not (eqz output.count columns)
    then status (bytes "07002") >> pure (false, output.targets)
    else (do
      row ← assign_row h 0 rc output.targets
      done ← into_status h row.rc row.truncated
      pure (done, row.targets))

-- vsql_m_into: were the values assigned, and the targets
unfoldable pub into : ℕ → ℤ → Output → Action (Bool × List Target)
unfolding row_columns into_targets into_descriptor
into h fetched output = do
  n ← row_columns h fetched
  if failed n.0 || eqz n.0 no_data
      then diag n.0 stmt h >> pure (false, output.targets)
      else for_some output.descriptor (into_targets h n.0 n.1 output)
          λ name. do done ← into_descriptor h n.0 n.1 name output.scope; pure (done, output.targets)
