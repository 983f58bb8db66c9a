-- ===== src/Item/Contents/Typed.antt =====
-- DATA has the C type that TYPE says (vsql_m_set_data and vsql_m_get_data of
-- vsql/std_2_20_1_description_of_sql_descriptor_areas.c).
use vsql.Base.{
  ℕ, ◌≡◌, refl, ◌⊎◌, inl, inr, Bool, true, false, not, ◌&&◌, ◌||◌, Option, none, some, arith,
  if◌then◌else◌,
}
use vsql.Base.Ints.{ℤ, pos, negsuc, eqz, narrow}
use vsql.Base.Bytes.{bytes}
use vsql.Cli.{Value, short, int, long, long_long, float, double, text}
use vsql.Cli.SqlType
use vsql.Runtime.{Runtime, Module}
use vsql.Action.{Action, pure, ◌>>=◌, allocate}
use vsql.Action.Hoare.{is_none}
use vsql.Diagnostics.{status}
use vsql.Item.{Item, NumberField}
use vsql.Item.Checks.{type_matches, matches}
use vsql.Item.Contents.{
  read_data, get_value, get_data, as_data, set_data, store, data_size, without_data,
}

-- The C type of the value is the one of DATA for the TYPE.
abbrev pub is_typed : Value → ℤ → Bool
is_typed (short n) t = eqz t SqlType.smallint
is_typed (int n) t = eqz t SqlType.integer
is_typed (long n) t = false
is_typed (long_long n) t = eqz t SqlType.bigint
is_typed (float x) t = eqz t SqlType.real
is_typed (double x) t = eqz t SqlType.double || eqz t SqlType.float
is_typed (text s) t =
    eqz t SqlType.char
    || eqz t SqlType.varchar
    || eqz t SqlType.numeric
    || eqz t SqlType.decimal
    || eqz t SqlType.boolean
    || eqz t SqlType.datetime

-- The C type of a host parameter of the SQL data type.
abbrev pub IsHost : ℤ → Value → Type 0
IsHost type (short n) = type ≡ SqlType.smallint
IsHost type (int n) = true ≡ false
IsHost type (long n) = (type ≡ SqlType.integer) ⊎ (type ≡ SqlType.boolean)
IsHost type (long_long n) = type ≡ SqlType.bigint
IsHost type (float x) = type ≡ SqlType.real
IsHost type (double x) = type ≡ SqlType.double
IsHost type (text s) = (type ≡ SqlType.char) ⊎ (type ≡ SqlType.varchar)

-- What is stored, if anything is, has the C type.
abbrev pub Stores : Option Value → ℤ → Type 0
Stores none t = Unit
Stores (some v) t = is_typed v t ≡ true

abbrev pub IsTyped : Item → Type 0
IsTyped item = Stores item.data_value (item.number NumberField.type)

Stores-if :
    (b : Bool) (v : Value) (t : ℤ) → is_typed v t ≡ true → Stores (if b then some v else none) t
Stores-if true v t h = h
Stores-if false v t h = tt

-- A test that succeeds for one of the types of a character string in DATA.
is_typed-text :
    (t l1 l2 : ℤ) (n d c v b : Bool) (x : Bool)
    → (if n || d || b then true else c && x) ≡ true
    → (c || v || n || d || b) ≡ true
is_typed-text t l1 l2 n d c v b x h = ground arith

as_data-Stores :
    (item : Item) (type l : ℤ) (value : Value)
    → IsHost type value
    → matches item type l false ≡ true
    → Stores (as_data type value) (item.number NumberField.type)
unfolding matches type_matches as_data
as_data-Stores item type l (short n) h = rw h (λ k. k)
as_data-Stores item type l (int n) h = absurd (cc h)
as_data-Stores item type l (long n) (inl h) = rw h (λ k. Stores-if _ (int (narrow n)) _ k)
as_data-Stores item type l (long n) (inr h) = rw h (λ k. ground arith)
as_data-Stores item type l (long_long n) h = rw h (λ k. k)
as_data-Stores item type l (float x) h = rw h (λ k. k)
as_data-Stores item type l (double x) h = rw h (λ k. k)
as_data-Stores item type l (text s) (inl h) = rw h (λ k. ground arith)
as_data-Stores item type l (text s) (inr h) = rw h (λ k. ground arith)

-- The item that an action leaves.
abbrev pub after : Action (Bool × Item) → Module → Runtime → Item
after x m s = (x m s).0.1

store-IsTyped :
    (o : Option Value) (item : Item) (m : Module) (s : Runtime)
    → Stores o (item.number NumberField.type)
    → IsTyped item
    → IsTyped (after (store o item) m s)
unfolding store pure ◌>>=◌
store-IsTyped none item m s h k = k
store-IsTyped (some v) item m s h k = given (allocate (data_size v) m s).0
  where
    given :
        (b : Bool)
        → IsTyped (
            after
              (if b
                then pure (true, record item { data_value = some v })
                else (status (bytes "HY001") >>= λ _. pure (false, without_data item)))
              m
              (allocate (data_size v) m s).1)
    given true = h
    given false = tt

checked :
    (b : Bool) (x : Action (Bool × Item)) (item : Item) (m : Module) (s : Runtime)
    → (b ≡ true → IsTyped (after x m s))
    → IsTyped item
    → IsTyped
        (after (if not b then (status (bytes "22005") >>= λ _. pure (false, item)) else x) m s)
unfolding pure ◌>>=◌
checked true x item m s h k = h refl
checked false x item m s h k = k

-- If the host parameter has the C type of its SQL data type, and DATA is undefined or has the C
-- type that TYPE says, then DATA is undefined or has that C type after vsql_m_set_data, whether
-- it could be set or not.
pub set_data-IsTyped :
    (type length : ℤ) (value : Value) (item : Item) (m : Module) (s : Runtime)
    → IsHost type value
    → IsTyped item
    → IsTyped (after (set_data type length value item) m s)
unfolding set_data
set_data-IsTyped type length value item m s h k =
    checked (matches item type length false) (store (as_data type value) item) item m s
      (λ e.
        store-IsTyped (as_data type value) item m s (as_data-Stores item type length value h e) k)
      k

-- The data types of a host parameter.
abbrev pub is_host : ℤ → Bool
is_host type =
    eqz type SqlType.char
    || eqz type SqlType.varchar
    || eqz type SqlType.smallint
    || eqz type SqlType.integer
    || eqz type SqlType.bigint
    || eqz type SqlType.real
    || eqz type SqlType.double
    || eqz type SqlType.boolean

-- A value of the C type of TYPE can be read as the host type that it matches.
readable :
    (t l type length : ℤ) (n : ℕ) (v : Value)
    → type_matches t l type length true ≡ true
    → is_host type ≡ true
    → is_typed v t ≡ true
    → is_none (read_data type n v) ≡ false
unfolding type_matches read_data
readable (pos t) l (pos k) length n (short x) = λ m h e. ground arith
readable (pos t) l (pos k) length n (int x) = λ m h e. ground arith
readable (pos t) l (pos k) length n (long_long x) = λ m h e. ground arith
readable (pos t) l (pos k) length n (float x) = λ m h e. ground arith
readable (pos t) l (pos k) length n (double x) = λ m h e. ground arith
readable (pos t) l (pos k) length n (text x) = λ m h e. ground arith
readable (pos t) l (negsuc k) length n v = λ m h e. absurd (cc h)
readable (negsuc t) l (pos k) length n (text x) = λ m h e. absurd (cc e)
readable t l type length n (long x) = λ m h e. absurd (cc e)
readable (negsuc t) l type length n (short x) = λ m h e. absurd (cc e)
readable (negsuc t) l type length n (int x) = λ m h e. absurd (cc e)
readable (negsuc t) l type length n (long_long x) = λ m h e. absurd (cc e)
readable (negsuc t) l type length n (float x) = λ m h e. absurd (cc e)
readable (negsuc t) l type length n (double x) = λ m h e. absurd (cc e)
readable (negsuc t) l (negsuc k) length n (text x) = λ m h e. absurd (cc e)

readable_value :
    (t l type length : ℤ) (n : ℕ) (target : Value) (null : Bool) (o : Option Value)
    → type_matches t l type length true ≡ true
    → is_host type ≡ true
    → Stores o t
    → is_none (get_value type n target null o) ≡ false
unfolding get_value
readable_value t l type length n target null none h k e = refl
readable_value t l type length n target true (some v) h k e = refl
readable_value t l type length n target false (some v) h k e = readable t l type length n v h k e

-- If the item matches a host parameter of one of the host types, and DATA is undefined or has the
-- C type that TYPE says, vsql_m_get_data reads DATA as the C type that it was written as.
pub get_data_lem :
    (item : Item) (type length : ℤ) (n : ℕ) (target : Value)
    → matches item type length true ≡ true
    → is_host type ≡ true
    → IsTyped item
    → is_none (get_data item type n target) ≡ false
unfolding get_data matches
get_data_lem item type length n target h k e =
    readable_value (item.number NumberField.type) (item.number NumberField.length) type length n
      target _ item.data_value h k e
