-- ===== src/Sound/Procedures.antt =====
-- The procedures of several calls keep every SQL-connection where it is
-- (vsql/std_2_20_1_description_of_sql_descriptor_areas.c, vsql/std_2_23_1_get_diagnostics_statement.c).
use vsql.Base.{ℕ, Bool, Option, none, some, List, [], ◌∷◌}
use vsql.Item.{Item, NumberField}
use vsql.Cli.{Value}
use vsql.Item.Contents.{
  set_type, set_component, finish_number, store, set_data, set_number, set_string,
}
use vsql.Action.{Action, Done, ◌>>◌}
use vsql.Action.Hoare.{Keeps, Keeps-bind, Keeps-pure, Keeps-if, Keeps-get}
use vsql.Runtime.{Connection}
use vsql.Diagnostics.{begin}
use vsql.Descriptor.{get_item, set_item}
use vsql.Statement.{string}
use vsql.Sound.Rules.{sound_rules, begin-Inv, sqlstate-Inv}
use vsql.Sound.Statements.{descriptor-IsSound}
use vsql.Program.Procedures.{
  Setting, of_data, of_number, of_string, apply, apply_all, set_through, get_header, get_value,
  set_value, get_diagnostics, Check, of_stored, of_text, check, check_all, behind_checks,
}
use vsql.Base.Ints.{ℤ}
use vsql.Base.Bytes.{Bytes}
use vsql.Sound.{IsSound}

pub get_header-IsSound :
    (name : Bytes) (scope : Option ℕ) (truncated : Bool)
    → Keeps IsSound (get_header name scope truncated)
unfolding get_header
get_header-IsSound name scope truncated = search (sound_rules, descriptor-IsSound) depth 14

pub get_value-IsSound :
    (name : Bytes) (scope : Option ℕ) (n type length : ℤ) (indicator truncated : Bool)
    → Keeps IsSound (get_value name scope n type length indicator truncated)
unfolding get_value get_item
get_value-IsSound name scope n type length indicator truncated =
    search (sound_rules, descriptor-IsSound) depth 18

set_item-IsSound : (name : Bytes) (scope : Option ℕ) (n : ℤ) → Keeps IsSound (set_item name scope n)
unfolding set_item
set_item-IsSound name scope n = search (sound_rules, descriptor-IsSound) depth 14

finish-IsSound :
    (field : NumberField) (value : ℤ) (r : Option Bytes × Item)
    → Keeps IsSound (finish_number field value r)
finish-IsSound field value (none, i) = Keeps-pure _
finish-IsSound field value (some code, i) = search sound_rules depth 9

set_type-IsSound : (value : ℤ) (i : Item) → Keeps IsSound (set_type value i)
unfolding set_type
set_type-IsSound value i = search sound_rules depth 14

component-IsSound :
    (field : NumberField) (value : ℤ) (i : Item) → Keeps IsSound (set_component field value i)
unfolding set_component
component-IsSound NumberField.type value i = search (sound_rules, set_type-IsSound) depth 9
component-IsSound field value i = search sound_rules depth 9

store-IsSound : (v : Option Value) (i : Item) → Keeps IsSound (store v i)
unfolding store
store-IsSound none i = search sound_rules depth 9
store-IsSound (some v) i = search sound_rules depth 14

apply-IsSound : (s : Setting) (i : Item) → Keeps IsSound (apply s i)
unfolding set_data set_number set_string
apply-IsSound (of_data type length value) i = search (sound_rules, store-IsSound) depth 12
apply-IsSound (of_number field value) i =
    search (sound_rules, component-IsSound, finish-IsSound) depth 12
apply-IsSound (of_string field value) i = search sound_rules depth 9

apply_all-IsSound :
    (settings : List Setting) (item : Item) → Keeps IsSound (apply_all settings item)
unfolding apply_all
apply_all-IsSound [] item = Keeps-pure _
apply_all-IsSound (s ∷ settings) item =
    Keeps-bind _ _ (apply-IsSound s item)
      λ (done, changed). Keeps-if _ _ _ (apply_all-IsSound settings changed) (Keeps-pure _)

set_through-IsSound :
    (name : Bytes) (scope : Option ℕ) (i : ℕ) (settings : List Setting) (id : ℕ) (c : Connection)
    → Keeps IsSound (set_through name scope i settings id c)
unfolding set_through
set_through-IsSound name scope i settings id c = search (sound_rules, apply_all-IsSound) depth 14

pub set_value-IsSound :
    (name : Bytes) (scope : Option ℕ) (n : ℤ) (settings : List Setting)
    → Keeps IsSound (set_value name scope n settings)
unfolding set_value
set_value-IsSound name scope n settings =
    search (sound_rules, set_item-IsSound, set_through-IsSound) depth 14

pub get_diagnostics-IsSound :
    (n : Option ℤ) (truncated : Bool) → Keeps IsSound (get_diagnostics n truncated)
unfolding get_diagnostics
get_diagnostics-IsSound n truncated = Keeps-bind _ _ Keeps-get λ s. sqlstate-Inv none none _

string-IsSound : (buffer : Bytes) (size : ℕ) → Keeps IsSound (string buffer size)
unfolding string
string-IsSound buffer size = search sound_rules depth 9

check-IsSound : (c : Check) → Keeps IsSound (check c)
unfolding check
check-IsSound (of_stored indicator) = search sound_rules depth 9
check-IsSound (of_text none buffer size) = string-IsSound buffer size
check-IsSound (of_text (some indicator) buffer size) =
    Keeps-if _ _ _ (Keeps-pure _) (string-IsSound buffer size)

check_all-IsSound : (checks : List Check) → Keeps IsSound (check_all checks)
unfolding check_all
check_all-IsSound [] = Keeps-pure _
check_all-IsSound (c ∷ more) =
    Keeps-bind _ _ (check-IsSound c) λ good. Keeps-if _ _ _ (check_all-IsSound more) (Keeps-pure _)

-- A procedure keeps what its statement keeps.
pub procedure-IsSound :
    (function : Bytes) (code : ℤ) (checks : List Check) (rest : Action Done)
    → Keeps IsSound rest
    → Keeps IsSound (begin function code >> behind_checks checks rest)
unfolding behind_checks
procedure-IsSound function code checks rest h =
    Keeps-bind _ _ (begin-Inv none none function code)
      λ _. Keeps-bind _ _ (check_all-IsSound checks) λ good. Keeps-if _ _ _ h (Keeps-pure tt)
