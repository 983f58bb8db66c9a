-- ===== src/Sound/Statements.antt =====
-- The statements that leave the list of SQL-connections as vsql_m_connection leaves it
-- (vsql/*.c).
use vsql.Base.{ℕ, zero, suc, ◌+◌, Bool, Option, none, List, [], ◌∷◌}
use vsql.Base.Ints.{ℤ}
use vsql.Base.Bytes.{Bytes}
use vsql.Cli.{Param}
use vsql.Runtime.{Descriptor}
use vsql.Action.Hoare.{Keeps, Keeps-pure, Keeps-if, Keeps-bind, Keeps-get, Keeps-first, keeps_rules}
use vsql.Session.{with_connection}
use vsql.Statement.{
  bind_params, set_command_function, set_row_count, execute_on, exec, run_on, run,
  execute_statement, start, end_transaction,
}
use vsql.Target.{
  Target, rest_characters, assign_string, assign, assign_row, single_row, select_row, select,
}
use vsql.Cursor.{
  module_cursors, write_cursor, allocate_cursor, cursor_on, cursor, drop_cursor, on_current,
  open_cursor, fetch_row, fetch_cursor, close,
}
use vsql.Descriptor.{
  active_connection, descriptor, allocate_new, allocate_descriptor, deallocate_descriptor, items,
  set_count,
}
use vsql.Sound.{IsSound}
use vsql.Sound.Rules.{sound_rules, call-Inv, area-Inv}
use vsql.Sound.Sessions.{connection-IsSound}

pub bind_params-IsSound :
    (h i : ℕ) (rc : ℤ) (ps : List Param) → Keeps IsSound (bind_params h i rc ps)
unfolding bind_params
bind_params-IsSound h i rc [] = Keeps-pure rc
bind_params-IsSound h i rc (p ∷ ps) =
    Keeps-bind _ _ (call-Inv none none _)
      λ r. Keeps-if _ _ _ (Keeps-pure _) (bind_params-IsSound h (i + 1) _ ps)

set_command_function-IsSound : (h : ℕ) → Keeps IsSound (set_command_function h)
unfolding set_command_function
set_command_function-IsSound h = Keeps-bind _ _ Keeps-get λ s.
    Keeps-first s.area.command_function
      (Keeps-bind _ _ (call-Inv none none _)
        λ f. Keeps-bind _ _ (call-Inv none none _) λ n. area-Inv none none _)
      λ b t. Keeps-pure tt

pub execute_on-IsSound : (c h : ℕ) → Keeps IsSound (execute_on c h)
unfolding execute_on set_row_count
execute_on-IsSound c h = search sound_rules depth 14

pub exec-IsSound : (c h : ℕ) (sql : Bytes) (ps : List Param) → Keeps IsSound (exec c h sql ps)
unfolding exec
exec-IsSound c h sql ps =
    search (sound_rules, set_command_function-IsSound, execute_on-IsSound, bind_params-IsSound)
      depth 14

run_on-IsSound :
    (c handle : ℕ) (sql : Bytes) (ps : List Param) → Keeps IsSound (run_on c handle sql ps)
unfolding run_on
run_on-IsSound c handle sql ps = search (sound_rules, exec-IsSound) depth 14

pub run-IsSound : (sql : Bytes) (ps : List Param) → Keeps IsSound (run sql ps)
unfolding run with_connection
run-IsSound sql ps = search (sound_rules, connection-IsSound, run_on-IsSound) depth 14

pub execute_statement-IsSound :
    (sql : Bytes) (ps : List Param) → Keeps IsSound (execute_statement sql ps)
unfolding execute_statement
execute_statement-IsSound sql ps = search (sound_rules, run-IsSound) depth 12

pub start-IsSound : Keeps IsSound start
unfolding start with_connection
start-IsSound = search (sound_rules, connection-IsSound) depth 16

pub end_transaction-IsSound : (completion : ℤ) → Keeps IsSound (end_transaction completion)
unfolding end_transaction with_connection
end_transaction-IsSound completion = search (sound_rules, connection-IsSound) depth 18

rest_characters-IsSound :
    (pieces h i : ℕ) (rc : ℤ) (n : ℕ) → Keeps IsSound (rest_characters pieces h i rc n)
unfolding rest_characters
rest_characters-IsSound zero h i rc n = Keeps-pure _
rest_characters-IsSound (suc pieces) h i rc n = Keeps-if _ _ _ (Keeps-pure _) (
    Keeps-bind _ _ (call-Inv none none _)
      λ r. Keeps-if _ _ _ (Keeps-pure _) (rest_characters-IsSound pieces h i _ _))

assign_string-IsSound :
    (h i : ℕ) (rc : ℤ) (s : Bytes) (t : Target) → Keeps IsSound (assign_string h i rc s t)
unfolding assign_string
assign_string-IsSound h i rc s t = search (keeps_rules, rest_characters-IsSound) depth 12

assign-IsSound : (h i : ℕ) (t : Target) → Keeps IsSound (assign h i t)
unfolding assign
assign-IsSound h i t = search (keeps_rules, call-Inv, assign_string-IsSound) depth 14

pub assign_row-IsSound :
    (h i : ℕ) (rc : ℤ) (ts : List Target) → Keeps IsSound (assign_row h i rc ts)
unfolding assign_row
assign_row-IsSound h i rc [] = Keeps-pure _
assign_row-IsSound h i rc (t ∷ ts) = Keeps-if _ _ _ (Keeps-pure _) (
    Keeps-bind _ _ (assign-IsSound h (i + 1) t)
      λ a. Keeps-bind _ _ (assign_row-IsSound h (i + 1) _ ts) λ row. Keeps-pure _)

single_row-IsSound : (h : ℕ) (truncated : Bool) → Keeps IsSound (single_row h truncated)
unfolding single_row
single_row-IsSound h truncated = search sound_rules depth 9

select_row-IsSound : (h : ℕ) (ts : List Target) → Keeps IsSound (select_row h ts)
unfolding select_row
select_row-IsSound h ts = search (sound_rules, assign_row-IsSound, single_row-IsSound) depth 18

pub select-IsSound :
    (sql : Bytes) (ps : List Param) (ts : List Target) → Keeps IsSound (select sql ps ts)
unfolding select
select-IsSound sql ps ts = search (sound_rules, run-IsSound, select_row-IsSound) depth 12

pub module_cursors-IsSound : (c : ℕ) → Keeps IsSound (module_cursors c)
unfolding module_cursors with_connection
module_cursors-IsSound c = search sound_rules depth 18

write_cursor-IsSound : (c i : ℕ) (h : Option ℕ) → Keeps IsSound (write_cursor c i h)
unfolding write_cursor
write_cursor-IsSound c i h = search sound_rules

allocate_cursor-IsSound :
    (c handle i : ℕ) (name : Bytes) (hold : Bool)
    → Keeps IsSound (allocate_cursor c handle i name hold)
unfolding allocate_cursor
allocate_cursor-IsSound c handle i name hold = search (sound_rules, write_cursor-IsSound) depth 20

cursor_on-IsSound :
    (c i : ℕ) (name : Option Bytes) (hold : Bool) (stmts : List (Option ℕ))
    → Keeps IsSound (cursor_on c i name hold stmts)
unfolding cursor_on with_connection
cursor_on-IsSound c i name hold stmts = search (sound_rules, allocate_cursor-IsSound) depth 14

pub cursor-IsSound :
    (i : ℕ) (name : Option Bytes) (hold : Bool) → Keeps IsSound (cursor i name hold)
unfolding cursor
cursor-IsSound i name hold =
    search (sound_rules, connection-IsSound, module_cursors-IsSound, cursor_on-IsSound) depth 14

pub drop_cursor-IsSound : (c i h : ℕ) → Keeps IsSound (drop_cursor c i h)
unfolding drop_cursor
drop_cursor-IsSound c i h = search (sound_rules, write_cursor-IsSound) depth 9

pub open_cursor-IsSound :
    (i : ℕ) (name : Bytes) (hold : Bool) (sql : Bytes) (ps : List Param)
    → Keeps IsSound (open_cursor i name hold sql ps)
unfolding open_cursor on_current
open_cursor-IsSound i name hold sql ps =
    search (sound_rules, cursor-IsSound, exec-IsSound, drop_cursor-IsSound) depth 16

fetch_row-IsSound : (h : ℕ) (rc : ℤ) (ts : List Target) → Keeps IsSound (fetch_row h rc ts)
unfolding fetch_row
fetch_row-IsSound h rc ts = search (sound_rules, assign_row-IsSound) depth 12

pub fetch_cursor-IsSound : (i : ℕ) (ts : List Target) → Keeps IsSound (fetch_cursor i ts)
unfolding fetch_cursor
fetch_cursor-IsSound i ts = search (sound_rules, cursor-IsSound, fetch_row-IsSound) depth 18

pub close-IsSound : (i : ℕ) → Keeps IsSound (close i)
unfolding close
close-IsSound i = search (sound_rules, cursor-IsSound) depth 12

pub descriptor-IsSound : (name : Bytes) (scope : Option ℕ) → Keeps IsSound (descriptor name scope)
unfolding descriptor active_connection with_connection
descriptor-IsSound name scope = search (sound_rules, connection-IsSound) depth 16

allocate_new-IsSound :
    (name : Bytes) (scope : Option ℕ) (max id : ℕ) → Keeps IsSound (allocate_new name scope max id)
unfolding allocate_new
allocate_new-IsSound name scope max id = search sound_rules depth 14

pub allocate_descriptor-IsSound :
    (name : Bytes) (scope : Option ℕ) (max : ℤ) → Keeps IsSound (allocate_descriptor name scope max)
unfolding allocate_descriptor active_connection with_connection
allocate_descriptor-IsSound name scope max =
    search (sound_rules, connection-IsSound, allocate_new-IsSound) depth 16

pub deallocate_descriptor-IsSound :
    (name : Bytes) (scope : Option ℕ) → Keeps IsSound (deallocate_descriptor name scope)
unfolding deallocate_descriptor active_connection with_connection
deallocate_descriptor-IsSound name scope = search (sound_rules, connection-IsSound) depth 18

pub items-IsSound : (d : Descriptor) (n : ℤ) (code : Bytes) → Keeps IsSound (items d n code)
unfolding items
items-IsSound d n code = search sound_rules depth 9

pub set_count-IsSound :
    (name : Bytes) (scope : Option ℕ) (count : ℤ) → Keeps IsSound (set_count name scope count)
unfolding set_count
set_count-IsSound name scope count = search (sound_rules, descriptor-IsSound) depth 14
