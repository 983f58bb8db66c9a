-- ===== src/Item/Checks.antt =====
-- When an item descriptor area is valid, matches a host parameter, and how its DATA is stored:
-- vsql_m_matches to vsql_m_c_type (vsql/std_2_20_1_description_of_sql_descriptor_areas.c).
use vsql.Base.{ℕ, ◌+◌, ◌*◌, Bool, true, false, not, ◌&&◌, ◌||◌, if◌then◌else◌}
use vsql.Base.Ints.{ℤ, pos, eqz, lez, between, to_ℕ}
use vsql.Cli.SqlType
use vsql.Item.{Item, NumberField}

-- TYPE `t` and LENGTH `l`, for a host parameter of a type and a length.
unfoldable pub type_matches : ℤ → ℤ → ℤ → ℤ → Bool → Bool
type_matches t l type length target =
    if eqz type SqlType.char || eqz type SqlType.varchar
    then (if eqz t SqlType.numeric || eqz t SqlType.decimal || eqz t SqlType.datetime
        then true
        else eqz t type && (eqz l length || (eqz type SqlType.varchar && target && lez l length)))
    else if eqz type SqlType.double
    then eqz t SqlType.double || eqz t SqlType.float
    else eqz t type

-- vsql_m_matches. `target` is whether the host parameter is assigned.
unfoldable pub matches : Item → ℤ → ℤ → Bool → Bool
unfolding type_matches
matches item type length target =
    type_matches (item.number NumberField.type) (item.number NumberField.length) type length target

-- vsql_m_valid
unfoldable pub valid : Item → Bool
valid item =
    let t = item.number NumberField.type in
    let precision = item.number NumberField.precision in
    let scale = item.number NumberField.scale in
    if not (eqz (item.number NumberField.level) (pos 0))
    then false
    else if eqz t SqlType.char || eqz t SqlType.varchar
    then lez (pos 1) (item.number NumberField.length)
    else if eqz t SqlType.numeric || eqz t SqlType.decimal
    then lez (pos 1) precision && lez (pos 0) scale && lez scale precision
    else if eqz t SqlType.float
    then lez (pos 1) precision
    else if eqz t SqlType.smallint
        || eqz t SqlType.integer
        || eqz t SqlType.bigint
        || eqz t SqlType.real
        || eqz t SqlType.double
        || eqz t SqlType.boolean
    then true
    else if eqz t SqlType.datetime
    then between (pos 1) (pos 5) (item.number NumberField.datetime_interval_code)
      && between (pos 0) (pos 9) precision
    else false

-- The C data type of DATA, and its size in bytes.
pub record CType : Type 0 where
  pub code : ℤ
  pub size : ℕ

abbrev pub c_type_of : ℤ → ℕ → CType
c_type_of code size = record { code = code; size = size }

-- vsql_m_c_type. A negative length or precision does not come here, since the item is valid.
unfoldable pub c_type : Item → CType
c_type item =
    let t = item.number NumberField.type in
    if eqz t SqlType.smallint
    then c_type_of SqlType.smallint 2
    else if eqz t SqlType.integer
    then c_type_of SqlType.integer 4
    else if eqz t SqlType.bigint
    then c_type_of SqlType.bigint 8
    else if eqz t SqlType.real
    then c_type_of SqlType.real 4
    else if eqz t SqlType.float || eqz t SqlType.double
    then c_type_of SqlType.double 8
    else if eqz t SqlType.char || eqz t SqlType.varchar
    then c_type_of SqlType.char (to_ℕ (item.number NumberField.length) * 4 + 1)
    else if eqz t SqlType.numeric || eqz t SqlType.decimal
    then c_type_of SqlType.char (to_ℕ (item.number NumberField.precision) + 3)
    else c_type_of SqlType.char 64
