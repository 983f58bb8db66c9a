-- ===== src/Program/Procedures.antt =====
-- The procedures that call several functions of the runtime: GET DESCRIPTOR and SET DESCRIPTOR VALUE
-- (vsql/std_2_20_1_description_of_sql_descriptor_areas.v), GET DIAGNOSTICS
-- (vsql/std_2_23_1_get_diagnostics_statement.v), and the checks of host parameters in front of a
-- statement. Whether a target of GET DESCRIPTOR or GET DIAGNOSTICS is truncated is a parameter.
use vsql.Base.{
  ℕ, Bool, true, false, Option, none, some, List, [], ◌∷◌, length, get_elem?, if◌then◌else◌,
}
use vsql.Base.Ints.{ℤ, pos, negsuc, lez, is_negative, between}
use vsql.Base.Bytes.{Bytes, bytes}
use vsql.Cli.{Value}
use vsql.Runtime.{Connection, Descriptor}
use vsql.Item.{Item, NumberField, StringField, zero_item}
use vsql.Item.Contents.{set_data, set_number, set_string}
use vsql.Action.{Action, Done, pure, ◌>>=◌, ◌>>◌, for_some, get, set_sqlstate}
use vsql.Diagnostics.{lookup, status}
use vsql.Session.{found_or, modify_connection}
use vsql.Statement.{string}
use vsql.Descriptor.{find, update, write_descriptors, write_item, descriptor, get_item, set_item}

abbrev pub done_status : Bool → Bytes
done_status truncated = if truncated then bytes "01004" else bytes "00000"

-- GET DESCRIPTOR of components of the area
unfoldable pub get_header : Bytes → Option ℕ → Bool → Action Done
unfolding descriptor
get_header name scope truncated = do
  d ← descriptor name scope
  for_some d (pure tt) λ found. status (done_status truncated)

-- GET DESCRIPTOR VALUE
unfoldable pub get_value : Bytes → Option ℕ → ℤ → ℤ → ℤ → Bool → Bool → Action Done
unfolding get_item
get_value name scope n type length indicator truncated = do
  i ← get_item name scope n type length indicator
  for_some i (pure tt) λ item. status (done_status truncated)

-- A component that SET DESCRIPTOR VALUE sets.
pub data Setting : Type 0 where
  of_data : ℤ → ℤ → Value → Setting
  of_number : NumberField → ℤ → Setting
  of_string : StringField → Bytes → Setting

abbrev pub apply : Setting → Item → Action (Bool × Item)
apply (of_data type length value) item = set_data type length value item
apply (of_number field value) item = set_number field value item
apply (of_string field value) item = set_string field value item

-- One after the other, until one cannot be set.
unfoldable pub apply_all : List Setting → Item → Action (Bool × Item)
apply_all [] item = pure (true, item)
apply_all (s ∷ settings) item = do
  (done, changed) ← apply s item
  if done then apply_all settings changed else pure (false, changed)

abbrev item_at : ℕ → Option Descriptor → Item
item_at i none = zero_item
item_at i (some d) = elim (get_elem? d.items i) [ none ↦ zero_item | some item ↦ item ]

-- The components are set through the pointer to item `i`, in the SQL-connection `id`.
unfoldable pub set_through : Bytes → Option ℕ → ℕ → List Setting → ℕ → Connection → Action Done
unfolding apply_all find update modify_connection
set_through name scope i settings id c = do
  (done, item) ← apply_all settings (item_at i (find name scope c.descriptors))
  modify_connection id (write_descriptors (update name scope (write_item i item)))
  if done then status (bytes "00000") else pure tt

-- SET DESCRIPTOR VALUE
unfoldable pub set_value : Bytes → Option ℕ → ℤ → List Setting → Action Done
unfolding set_item set_through
set_value name scope n settings = do
  i ← set_item name scope n
  for_some i (pure tt) λ at. do
    s ← get
    for_some s.current (pure tt)
        λ id. set_through name scope at settings id (found_or id (lookup id s.connections))

-- GET DIAGNOSTICS of the statement, or of condition `n`. It leaves the diagnostics area.
unfoldable pub get_diagnostics : Option ℤ → Bool → Action Done
get_diagnostics n truncated = do
  s ← get
  set_sqlstate (elim n [
    | none ↦ done_status truncated
    | some k ↦
        if between (pos 1) (pos (length s.area.conditions)) k
        then done_status truncated
        else bytes "35000"
  ])

-- A check of a host parameter: the indicator of a value that is stored, or the bytes of a string and
-- the size of its buffer, with the indicator that it may have.
pub data Check : Type 0 where
  of_stored : ℤ → Check
  of_text : Option ℤ → Bytes → ℕ → Check

-- An indicator that is less than -1 is an error. A null value is not looked at.
unfoldable pub check : Check → Action Bool
unfolding string
check (of_stored indicator) =
    if lez (negsuc 0) indicator then pure true else status (bytes "22010") >> pure false
check (of_text none buffer size) = string buffer size
check (of_text (some indicator) buffer size) =
    if is_negative indicator then pure true else string buffer size

-- The procedure returns at the first check that fails.
unfoldable pub check_all : List Check → Action Bool
unfolding check
check_all [] = pure true
check_all (c ∷ more) = do good ← check c; if good then check_all more else pure false

-- The checks of host parameters, and the rest of a procedure if they succeed.
unfoldable pub behind_checks : List Check → Action Done → Action Done
unfolding check_all
behind_checks checks rest = do good ← check_all checks; if good then rest else pure tt
