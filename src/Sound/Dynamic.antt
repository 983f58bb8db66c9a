-- ===== src/Sound/Dynamic.antt =====
-- The statements of dynamic SQL, which leave the list of SQL-connections as vsql_m_connection leaves it
-- (vsql/std_2_20_7_prepare_statement.c).
use vsql.Base.{ℕ, zero, suc, ◌+◌, Bool, false, Option, none, some, List, [], ◌∷◌}
use vsql.Base.Ints.{ℤ}
use vsql.Base.Bytes.{Bytes, holds}
use vsql.Runtime.{Prepared}
use vsql.Item.{Item, NumberField, StringField, reset_item}
use vsql.Action.Hoare.{Keeps, Keeps-pure, Keeps-if, Keeps-bind, Keeps-for_some, Keeps-this_module}
use vsql.Session.{with_connection}
use vsql.Cursor.{on_current}
use vsql.Descriptor.{active_connection}
use vsql.Prepared.{
  is_open, open_cursor_of, deallocate, prepared_statement, prepare_on, prepare_new, prepare,
  deallocate_prepare, number_codes, string_codes, describe_numbers, copy_unless_empty,
  describe_strings, describe_column, describe_columns, describe,
}
use vsql.Using.{
  Input, Output, bind_item, bind_items, bound, bind_descriptor, bind, column_pieces, get_column,
  get_columns, into_status, into_descriptor, row_columns, into_targets, into,
}
use vsql.Dynamic.{
  columns_of, check_no_output, check_output, only_row, one_row, execute_current, execute_prepared,
  prepared_columns, immediate_on, execute_immediate, execute_open, open_bound, open_on,
  open_dynamic, fetch_dynamic,
}
use vsql.Sound.{IsSound}
use vsql.Sound.Rules.{sound_rules, call-Inv}
use vsql.Sound.Sessions.{connection-IsSound}
use vsql.Sound.Statements.{
  bind_params-IsSound, execute_on-IsSound, assign_row-IsSound, module_cursors-IsSound,
  cursor-IsSound, drop_cursor-IsSound, descriptor-IsSound, items-IsSound,
}

is_open-IsSound : (h : ℕ) → Keeps IsSound (is_open h)
unfolding is_open
is_open-IsSound h = search sound_rules depth 9

open_cursor_of-IsSound :
    (left i : ℕ) (name : Bytes) (stmts : List (Option ℕ))
    → Keeps IsSound (open_cursor_of left i name stmts)
unfolding open_cursor_of
open_cursor_of-IsSound zero i name stmts = Keeps-pure none
open_cursor_of-IsSound (suc left) i name [] = Keeps-pure none
open_cursor_of-IsSound (suc left) i name (slot ∷ slots) = Keeps-bind _ _ Keeps-this_module λ m.
    Keeps-bind _ _
      (Keeps-if (holds (m.cursor_statements i) name) _ _
        (Keeps-for_some slot _ _ (Keeps-pure false) is_open-IsSound) (Keeps-pure false))
      λ opened.
        Keeps-if opened _ _ (Keeps-pure (some i)) (open_cursor_of-IsSound left (i + 1) name slots)

deallocate-IsSound : (c : ℕ) (p : Prepared) → Keeps IsSound (deallocate c p)
unfolding deallocate
deallocate-IsSound c p =
    search (sound_rules, module_cursors-IsSound, open_cursor_of-IsSound) depth 16

prepared_statement-IsSound : (name : Bytes) → Keeps IsSound (prepared_statement name)
unfolding prepared_statement with_connection
prepared_statement-IsSound name = search (sound_rules, connection-IsSound) depth 16

prepare_on-IsSound : (c h : ℕ) (name sql : Bytes) → Keeps IsSound (prepare_on c h name sql)
unfolding prepare_on
prepare_on-IsSound c h name sql = search sound_rules depth 18

prepare_new-IsSound :
    (c handle : ℕ) (name sql : Bytes) → Keeps IsSound (prepare_new c handle name sql)
unfolding prepare_new
prepare_new-IsSound c handle name sql = search (sound_rules, prepare_on-IsSound) depth 14

pub prepare-IsSound : (name sql : Bytes) → Keeps IsSound (prepare name sql)
unfolding prepare with_connection
prepare-IsSound name sql =
    search (sound_rules, connection-IsSound, deallocate-IsSound, prepare_new-IsSound) depth 18

pub deallocate_prepare-IsSound : (name : Bytes) → Keeps IsSound (deallocate_prepare name)
unfolding deallocate_prepare active_connection with_connection
deallocate_prepare-IsSound name =
    search (sound_rules, connection-IsSound, deallocate-IsSound) depth 20

describe_numbers-IsSound :
    (h column : ℕ) (codes : List (ℤ × NumberField)) (item : Item)
    → Keeps IsSound (describe_numbers h column codes item)
unfolding describe_numbers
describe_numbers-IsSound h column [] item = Keeps-pure item
describe_numbers-IsSound h column ((code, field) ∷ rest) item =
    Keeps-bind _ _ (call-Inv none none _) λ r. describe_numbers-IsSound h column rest _

copy_unless_empty-IsSound :
    (s : Bytes) (f : StringField) (item : Item) → Keeps IsSound (copy_unless_empty s f item)
unfolding copy_unless_empty
copy_unless_empty-IsSound [] f item = Keeps-pure item
copy_unless_empty-IsSound (b ∷ s) f item = search sound_rules

describe_strings-IsSound :
    (h column : ℕ) (codes : List (ℤ × StringField)) (item : Item)
    → Keeps IsSound (describe_strings h column codes item)
unfolding describe_strings
describe_strings-IsSound h column [] item = Keeps-pure item
describe_strings-IsSound h column ((code, field) ∷ rest) item =
    Keeps-bind _ _ (call-Inv none none _) λ r.
      Keeps-bind _ _ (copy_unless_empty-IsSound _ field item)
        λ changed. describe_strings-IsSound h column rest changed

describe_columns-IsSound :
    (left h i : ℕ) (list : List Item) → Keeps IsSound (describe_columns left h i list)
unfolding describe_columns describe_column
describe_columns-IsSound zero h i list = Keeps-pure list
describe_columns-IsSound (suc left) h i [] = Keeps-pure []
describe_columns-IsSound (suc left) h i (item ∷ list) =
    Keeps-bind _ _
      (Keeps-bind _ _ (describe_numbers-IsSound h _ number_codes (reset_item item)) λ numbers.
        Keeps-bind _ _ (describe_strings-IsSound h _ string_codes numbers)
          λ described. Keeps-pure _)
      λ described.
        Keeps-bind _ _ (describe_columns-IsSound left h (i + 1) list) λ rest. Keeps-pure _

pub describe-IsSound :
    (statement name : Bytes) (scope : Option ℕ) → Keeps IsSound (describe statement name scope)
unfolding describe
describe-IsSound statement name scope =
    search (sound_rules, prepared_statement-IsSound, descriptor-IsSound, describe_columns-IsSound)
      depth 20

bind_items-IsSound :
    (left h i : ℕ) (rc : ℤ) (list : List Item) → Keeps IsSound (bind_items left h i rc list)
unfolding bind_items bind_item
bind_items-IsSound zero h i rc list = Keeps-pure _
bind_items-IsSound (suc left) h i rc [] = Keeps-pure _
bind_items-IsSound (suc left) h i rc (item ∷ list) = Keeps-if _ _ _ (Keeps-pure _) (
    Keeps-bind _ _ (Keeps-bind _ _ (call-Inv none none _) λ r. Keeps-pure _) λ b.
      Keeps-if _ _ _ (Keeps-pure _)
        (Keeps-bind _ _ (bind_items-IsSound left h (i + 1) _ list) λ r. Keeps-pure _))

bound-IsSound : (h : ℕ) (rc : ℤ) → Keeps IsSound (bound h rc)
unfolding bound
bound-IsSound h rc = search sound_rules

bind_descriptor-IsSound :
    (h n : ℕ) (name : Bytes) (scope : Option ℕ) → Keeps IsSound (bind_descriptor h n name scope)
unfolding bind_descriptor
bind_descriptor-IsSound h n name scope =
    search (sound_rules, descriptor-IsSound, items-IsSound, bind_items-IsSound, bound-IsSound) depth
      20

bind-IsSound : (h : ℕ) (sql : Bytes) (input : Input) → Keeps IsSound (bind h sql input)
unfolding bind
bind-IsSound h sql input =
    search (sound_rules, bind_params-IsSound, bound-IsSound, bind_descriptor-IsSound) depth 14

column_pieces-IsSound :
    (pieces h i n octets : ℕ) → Keeps IsSound (column_pieces pieces h i n octets)
unfolding column_pieces
column_pieces-IsSound zero h i n octets = Keeps-pure _
column_pieces-IsSound (suc pieces) h i n octets =
    Keeps-bind _ _ (call-Inv none none _)
      λ r. Keeps-if _ _ _ (column_pieces-IsSound pieces h i _ _) (Keeps-pure _)

get_column-IsSound : (h i : ℕ) (item : Item) → Keeps IsSound (get_column h i item)
unfolding get_column
get_column-IsSound h i item = search (sound_rules, column_pieces-IsSound) depth 20

get_columns-IsSound :
    (left h i : ℕ) (rc : ℤ) (list : List Item) → Keeps IsSound (get_columns left h i rc list)
unfolding get_columns
get_columns-IsSound zero h i rc list = Keeps-pure _
get_columns-IsSound (suc left) h i rc [] = Keeps-pure _
get_columns-IsSound (suc left) h i rc (item ∷ list) =
    Keeps-bind _ _ (get_column-IsSound h (i + 1) item) λ got.
      Keeps-if _ _ _ (Keeps-pure _)
        (Keeps-bind _ _ (get_columns-IsSound left h (i + 1) _ list) λ r. Keeps-pure _)

into_status-IsSound :
    (h : ℕ) (rc : ℤ) (truncated : Bool) → Keeps IsSound (into_status h rc truncated)
unfolding into_status
into_status-IsSound h rc truncated = search sound_rules

into_descriptor-IsSound :
    (h : ℕ) (rc columns : ℤ) (name : Bytes) (scope : Option ℕ)
    → Keeps IsSound (into_descriptor h rc columns name scope)
unfolding into_descriptor
into_descriptor-IsSound h rc columns name scope =
    search
      (sound_rules, descriptor-IsSound, items-IsSound, get_columns-IsSound, into_status-IsSound)
      depth 20

into_targets-IsSound :
    (h : ℕ) (rc columns : ℤ) (output : Output) → Keeps IsSound (into_targets h rc columns output)
unfolding into_targets
into_targets-IsSound h rc columns output =
    search (sound_rules, assign_row-IsSound, into_status-IsSound) depth 14

into-IsSound : (h : ℕ) (fetched : ℤ) (output : Output) → Keeps IsSound (into h fetched output)
unfolding into row_columns
into-IsSound h fetched output =
    search (sound_rules, into_targets-IsSound, into_descriptor-IsSound) depth 20

check_no_output-IsSound : (output : Output) → Keeps IsSound (check_no_output output)
unfolding check_no_output
check_no_output-IsSound output = search (sound_rules, descriptor-IsSound, items-IsSound) depth 14

check_output-IsSound :
    (p : Prepared) (columns : ℤ) (output : Output) → Keeps IsSound (check_output p columns output)
unfolding check_output
check_output-IsSound p columns output = search (sound_rules, check_no_output-IsSound) depth 12

one_row-IsSound : (h : ℕ) (output : Output) → Keeps IsSound (one_row h output)
unfolding one_row only_row
one_row-IsSound h output = search (sound_rules, into-IsSound) depth 20

pub execute_prepared-IsSound :
    (name : Bytes) (input : Input) (output : Output)
    → Keeps IsSound (execute_prepared name input output)
unfolding execute_prepared columns_of execute_current on_current
execute_prepared-IsSound name input output =
    search
      (
        sound_rules, prepared_statement-IsSound, check_output-IsSound, bind-IsSound,
        execute_on-IsSound, one_row-IsSound,
      )
      depth 24

prepared_columns-IsSound : (h : ℕ) → Keeps IsSound (prepared_columns h)
unfolding prepared_columns
prepared_columns-IsSound h = search sound_rules depth 14

immediate_on-IsSound : (c h : ℕ) (sql : Bytes) → Keeps IsSound (immediate_on c h sql)
unfolding immediate_on
immediate_on-IsSound c h sql =
    search (sound_rules, prepared_columns-IsSound, execute_on-IsSound) depth 20

pub execute_immediate-IsSound : (sql : Bytes) → Keeps IsSound (execute_immediate sql)
unfolding execute_immediate with_connection
execute_immediate-IsSound sql =
    search (sound_rules, connection-IsSound, immediate_on-IsSound) depth 16

open_on-IsSound :
    (c i h : ℕ) (sql : Bytes) (input : Input) → Keeps IsSound (open_on c i h sql input)
unfolding open_on open_bound execute_open
open_on-IsSound c i h sql input = search (sound_rules, bind-IsSound, drop_cursor-IsSound) depth 24

pub open_dynamic-IsSound :
    (i : ℕ) (name : Bytes) (hold : Bool) (statement : Bytes) (input : Input)
    → Keeps IsSound (open_dynamic i name hold statement input)
unfolding open_dynamic columns_of on_current
open_dynamic-IsSound i name hold statement input =
    search (sound_rules, prepared_statement-IsSound, cursor-IsSound, open_on-IsSound) depth 20

pub fetch_dynamic-IsSound : (i : ℕ) (output : Output) → Keeps IsSound (fetch_dynamic i output)
unfolding fetch_dynamic
fetch_dynamic-IsSound i output = search (sound_rules, cursor-IsSound, into-IsSound) depth 14
