-- ===== src/Descriptor.antt =====
-- The SQL descriptor areas of an SQL-connection: vsql_m_find_descriptor to vsql_m_set_item
-- (vsql/std_2_20_1_description_of_sql_descriptor_areas.c).
pub mod Names
use vsql.Base.{
  ℕ, zero, suc, ◌+◌, ◌-◌, ◌*◌, Bool, true, false, not, ◌&&◌, ◌||◌, Option, none, some, List, [],
  ◌∷◌, if◌then◌else◌, length, get_elem?, set, replicate,
}
use vsql.Base.Ints.{ℤ, pos, negsuc, eqz, lez, is_negative, between, to_ℕ, narrow}
use vsql.Base.Bytes.{Bytes, bytes, str_eq}
use vsql.Runtime.{Runtime, Connection, Descriptor}
use vsql.Item.{Item, NumberField, zero_item}
use vsql.Item.Checks.{matches, valid}
use vsql.Action.{Action, Done, pure, ◌>>=◌, ◌>>◌, for_some, get, modify, allocate}
use vsql.Diagnostics.{status}
use vsql.Session.{same, modify_connection, connection, with_connection}
use vsql.Statement.{set_active}

-- Is it the SQL descriptor area with the name, in the module, or a GLOBAL one?
unfoldable pub is_named : Bytes → Option ℕ → Descriptor → Bool
unfolding str_eq
is_named name scope d = same d.module_id scope && str_eq d.name name

-- vsql_m_find_descriptor
unfoldable pub find : Bytes → Option ℕ → List Descriptor → Option Descriptor
unfolding is_named
find name scope [] = none
find name scope (d ∷ ds) = if is_named name scope d then some d else find name scope ds

-- The list without it.
unfoldable pub remove : Bytes → Option ℕ → List Descriptor → List Descriptor
unfolding is_named
remove name scope [] = []
remove name scope (d ∷ ds) = if is_named name scope d then ds else d ∷ remove name scope ds

-- A write through the pointer to it.
unfoldable pub update :
    Bytes → Option ℕ → (Descriptor → Descriptor) → List Descriptor → List Descriptor
unfolding is_named
update name scope f [] = []
update name scope f (d ∷ ds) =
    if is_named name scope d then f d ∷ ds else d ∷ update name scope f ds

abbrev pub write_descriptors : (List Descriptor → List Descriptor) → Connection → Connection
write_descriptors f c = record c { descriptors = f c.descriptors }

-- The current SQL-connection, in which the statement initiates an SQL-transaction.
unfoldable pub active_connection : {A : Type 0} → A → (ℕ → Connection → Action A) → Action A
unfolding connection modify_connection with_connection
active_connection otherwise f = do
  c ← connection
  for_some c (pure otherwise)
      λ id. do modify_connection id (set_active true); with_connection id (f id)

-- vsql_m_descriptor: the SQL-connection and the SQL descriptor area
unfoldable pub descriptor : Bytes → Option ℕ → Action (Option (ℕ × Descriptor))
unfolding active_connection find
descriptor name scope = active_connection none λ id c.
    for_some (find name scope c.descriptors) (status (bytes "33000") >> pure none)
      λ d. pure (some (id, d))

abbrev pub new_descriptor : Bytes → Option ℕ → ℕ → Descriptor
new_descriptor name scope max = record {
  module_id = scope;
  name = name;
  count = pos 0;
  max = max;
  top_level_count = pos 0;
  dynamic_function = [];
  dynamic_function_code = pos 0;
  items = replicate max zero_item;
}

-- The memory of a new SQL descriptor area, which the SQL-connection `id` is given.
unfoldable pub allocate_new : Bytes → Option ℕ → ℕ → ℕ → Action Done
unfolding modify_connection
allocate_new name scope max id = do
  there ← allocate 1
  items ← if there then allocate max else pure false
  if not items then status (bytes "HY001") else (do
    modify_connection id (write_descriptors (λ ds. new_descriptor name scope max ∷ ds))
    status (bytes "00000"))

-- vsql_m_allocate_descriptor
unfoldable pub allocate_descriptor : Bytes → Option ℕ → ℤ → Action Done
unfolding active_connection find allocate_new
allocate_descriptor name scope max = active_connection tt λ id c.
    if not (between (pos 1) (pos 32767) max)
    then status (bytes "07009")
    else for_some (find name scope c.descriptors) (allocate_new name scope (to_ℕ max) id)
        λ d. status (bytes "33000")

-- vsql_m_deallocate_descriptor
unfoldable pub deallocate_descriptor : Bytes → Option ℕ → Action Done
unfolding active_connection find remove modify_connection
deallocate_descriptor name scope = active_connection tt λ id c.
    for_some (find name scope c.descriptors) (status (bytes "33000"))
      λ d. do modify_connection id (write_descriptors (remove name scope)); status (bytes "00000")

-- The first `n` items are valid.
unfoldable pub all_valid : ℕ → List Item → Bool
unfolding valid
all_valid zero items = true
all_valid (suc n) [] = false
all_valid (suc n) (item ∷ items) = valid item && all_valid n items

-- vsql_m_items: the SQLSTATE of an SQL descriptor area that is not `n` valid items
unfoldable pub items_error : Descriptor → ℤ → Bytes → Option Bytes
unfolding all_valid
items_error d n code =
    if is_negative d.count || not (lez d.count (pos d.max))
    then some (bytes "07008")
    else if not (all_valid (to_ℕ d.count) d.items)
    then some code
    else if not (eqz d.count n)
    then some code
    else none

unfoldable pub items : Descriptor → ℤ → Bytes → Action Bool
unfolding items_error
items d n code = for_some (items_error d n code) (pure true) λ error. do status error; pure false

-- The SQLSTATE of item `n` of a <get descriptor statement> that cannot be retrieved into a target.
unfoldable pub item_error : Item → ℤ → ℤ → Bool → Option Bytes
unfolding matches
item_error item type length indicator =
    if eqz type (pos 0)
    then none
    else if not (matches item type length true)
    then some (bytes "22005")
    else if is_negative (item.number NumberField.indicator) && not indicator
    then some (bytes "22002")
    else none

-- Item `n`, or an SQLSTATE.
unfoldable pub select_item : Descriptor → ℤ → ℤ → ℤ → Bool → Bytes × Option Item
unfolding item_error
select_item d n type length indicator =
    if not (between (pos 1) (pos d.max) n)
    then (bytes "07009", none)
    else if not (lez n d.count)
    then (bytes "02000", none)
    else elim (get_elem? d.items (to_ℕ n - 1)) [
      | none ↦ (bytes "07009", none)
      | some item ↦ elim (item_error item type length indicator) [
        | none ↦ (bytes "00000", some item)
        | some code ↦ (code, none)
      ]
    ]

-- vsql_m_get_item
unfoldable pub get_item : Bytes → Option ℕ → ℤ → ℤ → ℤ → Bool → Action (Option Item)
unfolding descriptor select_item
get_item name scope n type length indicator = do
  found ← descriptor name scope
  for_some found (pure none) λ (id, d).
      let (code, item) = select_item d n type length indicator in
      for_some item (status code >> pure none) λ i. pure (some i)

-- vsql_m_set_count
unfoldable pub set_count : Bytes → Option ℕ → ℤ → Action Done
unfolding descriptor update modify_connection narrow
set_count name scope count = do
  found ← descriptor name scope
  for_some found (pure tt) λ (id, d).
      if not (eqz count (narrow count)) then status (bytes "22003") else (do
        modify_connection id
            (write_descriptors (update name scope (λ e. record e { count = narrow count })))
        status (bytes "00000"))

abbrev pub write_item : ℕ → Item → Descriptor → Descriptor
write_item i item d = record d { items = set d.items i item }

-- vsql_m_set_item: the position of item `n`, from 0
unfoldable pub set_item : Bytes → Option ℕ → ℤ → Action (Option ℕ)
unfolding descriptor
set_item name scope n = do
  found ← descriptor name scope
  for_some found (pure none) λ (id, d).
      if not (between (pos 1) (pos d.max) n)
      then status (bytes "07009") >> pure none
      else pure (some (to_ℕ n - 1))
