-- ===== src/Item/Contents/Stored.antt =====
-- What is written to DATA is read back (vsql_m_set_data and vsql_m_get_data of
-- vsql/std_2_20_1_description_of_sql_descriptor_areas.c).
use vsql.Base.{ℕ, ◌≡◌, refl, sym, ap, Bool, true, false, not, Option, none, some, if◌then◌else◌}
use vsql.Base.Ints.{ℤ, eqz, is_negative, narrow, eqz_iff}
use vsql.Base.Bytes.{bytes}
use vsql.Cli.{Value, short, int, long, long_long, float, double, text}
use vsql.Cli.SqlType
use vsql.Runtime.{Runtime, Module}
use vsql.Action.{Action, pure, ◌>>=◌, allocate}
use vsql.Diagnostics.{status}
use vsql.Item.{Item, NumberField}
use vsql.Item.Checks.{matches}
use vsql.Item.Contents.{
  read_data, get_value, get_data, as_data, set_data, store, data_size, without_data,
}
use vsql.Item.Contents.Typed.{IsHost, after}

-- The value has a numeric C type.
abbrev pub IsNumber : ℤ → Value → Type 0
IsNumber type (text s) = true ≡ false
IsNumber type (long n) = type ≡ SqlType.integer
IsNumber type v = IsHost type v

-- What is stored reads as the value.
abbrev Reads : ℤ → ℕ → Value → Option Value → Type 0
Reads type n value none = Unit
Reads type n value (some v) = read_data type n v ≡ some (false, value)

narrowed :
    (k : ℕ) (n : ℤ) (b : Bool)
    → eqz n (narrow n) ≡ b
    → Reads SqlType.integer k (long n) (if b then some (int (narrow n)) else none)
unfolding read_data
narrowed k n true e = ap (λ (x : ℤ). some (false, long x)) (sym ((eqz_iff n (narrow n)).0 e))
narrowed k n false e = tt

as_data-Reads :
    (type : ℤ) (n : ℕ) (value : Value)
    → IsNumber type value
    → Reads type n value (as_data type value)
unfolding as_data read_data
as_data-Reads type n (short x) h = rw h refl
as_data-Reads type n (int x) h = absurd (cc h)
as_data-Reads type n (long x) h = rw h (narrowed n x (eqz x (narrow x)) refl)
as_data-Reads type n (long_long x) h = rw h refl
as_data-Reads type n (float x) h = rw h refl
as_data-Reads type n (double x) h = rw h refl
as_data-Reads type n (text x) h = absurd (cc h)

-- An item that could be written reads as the value.
abbrev ReadsBack : ℤ → ℕ → Value → Value → Action (Bool × Item) → Module → Runtime → Type 0
ReadsBack type n target value x m s =
    (x m s).0.0 ≡ true → get_data (after x m s) type n target ≡ some (false, value)

store-get_data :
    (o : Option Value) (type : ℤ) (n : ℕ) (target value : Value) (item : Item) (m : Module)
    (s : Runtime)
    → Reads type n value o
    → is_negative (item.number NumberField.indicator) ≡ false
    → (store o item m s).0.0 ≡ true
    → get_data (after (store o item) m s) type n target ≡ some (false, value)
unfolding store pure ◌>>=◌ get_data get_value
store-get_data none type n target value item m s h k = λ e. absurd (cc e)
store-get_data (some v) type n target value item m s h k = given (allocate (data_size v) m s).0
  where
    read : (b : Bool) → b ≡ false → get_value type n target b (some v) ≡ some (false, value)
    read true q = absurd (cc q)
    read false q = h

    given :
        (b : Bool)
        → ReadsBack type n target value
            (if b
              then pure (true, record item { data_value = some v })
              else (status (bytes "HY001") >>= λ _. pure (false, without_data item)))
            m
            (allocate (data_size v) m s).1
    given true q = read _ k
    given false q = absurd (cc q)

stored :
    (b : Bool) (x : Action (Bool × Item)) (type : ℤ) (n : ℕ) (target value : Value) (item : Item)
    (m : Module) (s : Runtime)
    → ((x m s).0.0 ≡ true → get_data (after x m s) type n target ≡ some (false, value))
    → let r = (if not b then (status (bytes "22005") >>= λ _. pure (false, item)) else x) m s in
      r.0.0 ≡ true → get_data r.0.1 type n target ≡ some (false, value)
unfolding pure ◌>>=◌
stored true x type n target value item m s h = h
stored false x type n target value item m s h = λ e. absurd (cc e)

-- A numeric host parameter that vsql_m_set_data could write, in an item whose INDICATOR is not
-- negative, is what vsql_m_get_data reads as the same type, whatever the target held.
pub set_data-get_data :
    (type length : ℤ) (n : ℕ) (target value : Value) (item : Item) (m : Module) (s : Runtime)
    → IsNumber type value
    → is_negative (item.number NumberField.indicator) ≡ false
    → (set_data type length value item m s).0.0 ≡ true
    → get_data (after (set_data type length value item) m s) type n target ≡ some (false, value)
unfolding set_data
set_data-get_data type length n target value item m s h k =
    stored (matches item type length false) (store (as_data type value) item) type n target value
      item m s
      (store-get_data (as_data type value) type n target value item m s
        (as_data-Reads type n value h) k)
