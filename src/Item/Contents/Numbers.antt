-- ===== src/Item/Contents/Numbers.antt =====
-- The numeric components of an item descriptor area (vsql_m_set_number of
-- vsql/std_2_20_1_description_of_sql_descriptor_areas.c).
use vsql.Base.{
  ◌≡◌, refl, sym, ◌∙◌, Bool, true, false, not, ◌||◌, Option, none, some, arith, if◌then◌else◌,
  ==_refl,
}
use vsql.Base.Ints.{ℤ, pos, negsuc, eqz, narrow, IsInt32, narrow_eq_iff, eqz_iff}
use vsql.Base.Bytes.{Bytes, bytes}
use vsql.Cli.SqlType
use vsql.Runtime.{Runtime, Module}
use vsql.Action.{Action, pure, ◌>>=◌, copy, allocate}
use vsql.Diagnostics.{status}
use vsql.Item.{Item, NumberField, set_number as write_number}
use vsql.Item.Checks.{valid}
use vsql.Item.Contents.{
  with_number, set_type, set_component, finish_number, set_number, without_data,
}

read_written : (f : NumberField → ℤ) (i : NumberField) (v : ℤ) → write_number f i v i ≡ v
read_written f i v = rw (==_refl _) refl

finished :
    (field : NumberField) (value : ℤ) (r : Option Bytes × Item) (m : Module) (s : Runtime)
    → (finish_number field value r m s).0.0 ≡ true
    → (finish_number field value r m s).0.1.number field ≡ narrow value
unfolding pure ◌>>=◌
finished field value (none, item) m s h = read_written item.number field (narrow value)
finished field value (some code, item) m s h = cc h

fitted :
    (b : Bool) (field : NumberField) (value : ℤ) (item : Item) (x : Action (Option Bytes × Item))
    (m : Module) (s : Runtime)
    → eqz value (narrow value) ≡ b
    → let r =
        (if not b
            then (status (bytes "22003") >>= λ _. pure (false, item))
            else (x >>= finish_number field value))
          m s in
      r.0.0 ≡ true → IsInt32 value × (r.0.1.number field ≡ value)
unfolding pure ◌>>=◌
fitted false field value item x m s e h = absurd (cc h)
fitted true field value item x m s e h =
    let k = sym ((eqz_iff value (narrow value)).0 e) in
    ((narrow_eq_iff value).0 k, finished field value (x m s).0 m (x m s).1 h ∙ k)

-- If vsql_m_set_number could set a numeric component, the value fits in an SQLINTEGER, and the component
-- holds it.
pub set_number_lem :
    (field : NumberField) (value : ℤ) (item : Item) (m : Module) (s : Runtime)
    → (set_number field value item m s).0.0 ≡ true
    → IsInt32 value × ((set_number field value item m s).0.1.number field ≡ value)
unfolding set_number
set_number_lem field value item m s =
    fitted (eqz value (narrow value)) field value (without_data item)
      (set_component field value (without_data item)) m s refl

-- The data types whose descriptions are complete when TYPE is set.
abbrev pub is_complete : ℤ → Bool
is_complete t =
    eqz t SqlType.char
    || eqz t SqlType.varchar
    || eqz t SqlType.numeric
    || eqz t SqlType.decimal
    || eqz t SqlType.float
    || eqz t SqlType.smallint
    || eqz t SqlType.integer
    || eqz t SqlType.bigint
    || eqz t SqlType.real
    || eqz t SqlType.double
    || eqz t SqlType.boolean

-- The components that have a default, which is not 0 for some data types.
abbrev pub default_length : ℤ → ℤ
default_length t = if eqz t SqlType.char || eqz t SqlType.varchar then pos 1 else pos 0

abbrev pub default_precision : ℤ → ℤ
default_precision t =
    if eqz t SqlType.numeric || eqz t SqlType.decimal
    then pos 18
    else if eqz t SqlType.float
    then pos 53
    else pos 0

-- When TYPE is set to a supported data type other than a datetime in an item whose LEVEL is 0, the item
-- is valid, TYPE is the data type, LENGTH is 1 for CHARACTER and CHARACTER VARYING, PRECISION is 18 for
-- NUMERIC and DECIMAL and 53 for FLOAT, and both are 0 for the others, as SCALE is for all.
pub set_type-valid :
    (value : ℤ) (item : Item) (m : Module) (s : Runtime)
    → is_complete value ≡ true
    → item.number NumberField.level ≡ pos 0
    → let changed = with_number NumberField.type value (set_type value item m s).0 in
      (valid changed ≡ true)
      × (changed.number NumberField.type ≡ value)
      × (changed.number NumberField.length ≡ default_length value)
      × (changed.number NumberField.precision ≡ default_precision value)
      × (changed.number NumberField.scale ≡ pos 0)
unfolding set_type valid pure copy allocate ◌>>=◌
set_type-valid (pos n) item m s h k = ground arith
set_type-valid (negsuc n) item m s h k = absurd (cc h)
