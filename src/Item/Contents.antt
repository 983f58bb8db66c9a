-- ===== src/Item/Contents.antt =====
-- The components of an item descriptor area: vsql_m_get_data and vsql_m_set_number to
-- vsql_m_set_data (vsql/std_2_20_1_description_of_sql_descriptor_areas.c).
pub mod Typed
pub mod Numbers
pub mod Stored
use vsql.Base.{
  ℕ, ◌+◌, Bool, true, false, not, ◌&&◌, ◌||◌, Option, none, some, if◌then◌else◌, length,
}
use vsql.Base.Ints.{ℤ, pos, eqz, lez, is_negative, between, narrow}
use vsql.Base.Bytes.{Bytes, bytes, str_eq}
use vsql.Cli.{Value, short, int, long, long_long, float, double, text}
use vsql.Cli.SqlType
use vsql.Text.Put.{put}
use vsql.Action.{Action, pure, ◌>>=◌, ◌>>◌, allocate, copy}
use vsql.Diagnostics.{status}
use vsql.Item.{
  Item, NumberField, StringField, set_number as write_number, set_string as write_string,
  reset_item,
}
use vsql.Item.Checks.{matches}

abbrev pub one_if : Bool → ℤ
one_if true = pos 1
one_if false = pos 0

-- DATA read as a C type; `none` if it was written as another one.
unfoldable pub read_data : ℤ → ℕ → Value → Option (Bool × Value)
unfolding str_eq
read_data type length (short n) = if eqz type SqlType.smallint then some (false, short n) else none
read_data type length (int n) = if eqz type SqlType.integer then some (false, long n) else none
read_data type length (long_long n) =
    if eqz type SqlType.bigint then some (false, long_long n) else none
read_data type length (float x) = if eqz type SqlType.real then some (false, float x) else none
read_data type length (double x) = if eqz type SqlType.double then some (false, double x) else none
read_data type length (long n) = none
read_data type length (text s) =
    if eqz type SqlType.boolean
    then some (false, long (one_if (str_eq s (bytes "TRUE"))))
    else if eqz type SqlType.char || eqz type SqlType.varchar
    then some ((put length s).truncated, text (put length s).target)
    else none

-- DATA that may be undefined or null, read into the target.
unfoldable pub get_value : ℤ → ℕ → Value → Bool → Option Value → Option (Bool × Value)
unfolding read_data
get_value type length target null none = some (false, target)
get_value type length target null (some v) =
    if null then some (false, target) else read_data type length v

-- vsql_m_get_data: was a string truncated, and the target after it
unfoldable pub get_data : Item → ℤ → ℕ → Value → Option (Bool × Value)
unfolding get_value
get_data item type length target =
    get_value type length target (is_negative (item.number NumberField.indicator)) item.data_value

abbrev pub without_data : Item → Item
without_data item = record item { data_value = none }

abbrev pub with_number : NumberField → ℤ → Item → Item
with_number field v item = record item { number = write_number item.number field v }

abbrev pub with_string : StringField → Option Bytes → Item → Item
with_string field s item = record item { string = write_string item.string field s }

-- The other components, when TYPE is set.
unfoldable pub set_type : ℤ → Item → Action Item
set_type value item =
    let cleared = with_number NumberField.level (item.number NumberField.level) (reset_item item) in
    if eqz value SqlType.char || eqz value SqlType.varchar
    then (do
      schema ← copy (bytes "INFORMATION_SCHEMA")
      name ← copy (bytes "UTF8")
      pure (
          with_string StringField.character_set_name name (
            with_string StringField.character_set_schema schema
              (with_number NumberField.length (pos 1) cleared))))
    else if eqz value SqlType.numeric || eqz value SqlType.decimal
    then pure (with_number NumberField.precision (pos 18) cleared)
    else if eqz value SqlType.float
    then pure (with_number NumberField.precision (pos 53) cleared)
    else pure cleared

-- The precision of a datetime, by its DATETIME_INTERVAL_CODE.
abbrev pub datetime_precision : ℤ → ℤ
datetime_precision code = if eqz code (pos 3) || eqz code (pos 5) then pos 6 else pos 0

-- The switch of vsql_m_set_number: an SQLSTATE if the value cannot be set, or the item in which
-- the component is written.
unfoldable pub set_component : NumberField → ℤ → Item → Action (Option Bytes × Item)
unfolding set_type
set_component NumberField.level value item =
    pure (if eqz value (pos 0) then none else some (bytes "0700E"), item)
set_component NumberField.type value item = do changed ← set_type value item; pure (none, changed)
set_component NumberField.datetime_interval_code value item =
    if not (eqz (item.number NumberField.type) SqlType.datetime)
      || not (between (pos 1) (pos 5) value)
    then pure (some (bytes "0700F"), item)
    else pure (none, with_number NumberField.precision (datetime_precision value) item)
set_component field value item = pure (none, item)

abbrev pub finish_number : NumberField → ℤ → Option Bytes × Item → Action (Bool × Item)
finish_number field value (none, item) = pure (true, with_number field (narrow value) item)
finish_number field value (some code, item) = status code >> pure (false, item)

-- vsql_m_set_number: could it be set, and the item after it
unfoldable pub set_number : NumberField → ℤ → Item → Action (Bool × Item)
unfolding narrow set_component
set_number field value item =
    if not (eqz value (narrow value))
    then status (bytes "22003") >> pure (false, without_data item)
    else (do r ← set_component field value (without_data item); finish_number field value r)

-- vsql_m_set_string
unfoldable pub set_string : StringField → Bytes → Item → Action (Bool × Item)
set_string field value item = do
  s ← copy value
  pure (true, with_string field s (without_data item))

abbrev pub is_zero : Value → Bool
is_zero (short n) = eqz n (pos 0)
is_zero (int n) = eqz n (pos 0)
is_zero (long n) = eqz n (pos 0)
is_zero (long_long n) = eqz n (pos 0)
is_zero _ = false

-- The value of a host parameter as DATA: none if it is out of range. A BOOLEAN is a string, and
-- an INTEGER is a long in C and an SQLINTEGER in DATA.
unfoldable pub as_data : ℤ → Value → Option Value
unfolding narrow
as_data type value =
    if eqz type SqlType.boolean
    then some (text (if is_zero value then bytes "FALSE" else bytes "TRUE"))
    else elim value [
      | long n ↦ (if eqz n (narrow n) then some (int (narrow n)) else none)
      | short n ↦ some (short n)
      | int n ↦ some (int n)
      | long_long n ↦ some (long_long n)
      | float x ↦ some (float x)
      | double x ↦ some (double x)
      | text s ↦ some (text s)
    ]

-- The bytes that the value takes in DATA, with the null character of a string.
abbrev pub data_size : Value → ℕ
data_size (short n) = 2
data_size (int n) = 4
data_size (long n) = 8
data_size (long_long n) = 8
data_size (float x) = 4
data_size (double x) = 8
data_size (text s) = length s + 1

-- The value is written to the memory of DATA, which is allocated first.
unfoldable pub store : Option Value → Item → Action (Bool × Item)
store none item = status (bytes "22003") >> pure (false, item)
store (some v) item = do
  there ← allocate (data_size v)
  if there
      then pure (true, record item { data_value = some v })
      else (do status (bytes "HY001"); pure (false, without_data item))

-- vsql_m_set_data: could it be set, and the item after it
unfoldable pub set_data : ℤ → ℤ → Value → Item → Action (Bool × Item)
unfolding matches as_data store
set_data type length value item =
    if not (matches item type length false)
    then status (bytes "22005") >> pure (false, item)
    else store (as_data type value) item
