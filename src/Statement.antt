-- ===== src/Statement.antt =====
-- The statements that the CLI executes: vsql_m_bind_params to vsql_m_string
-- (vsql/std_2_13_1_sql_client_module_definition.c).
pub mod Inactive
use vsql.Base.{
  ℕ, zero, suc, ◌+◌, ◌==◌, Bool, true, false, not, ◌&&◌, ◌||◌, Option, none, some, List, [], ◌∷◌,
  if◌then◌else◌, take,
}
use vsql.Base.Ints.{ℤ, pos, eqz}
use vsql.Base.Bytes.{Bytes, bytes, str_eq, or_empty}
use vsql.Cli.{
  dbc, stmt, Param, alloc_handle, free_handle, prepare, bind_parameter, execute, start_tran,
  end_tran, get_diag_field, failed, success, commit, rollback,
}
use vsql.Cli.DiagField
use vsql.Runtime.{Runtime, Area, Connection}
use vsql.Action.{Action, Done, pure, ◌>>=◌, ◌>>◌, for_some, get, modify, call, modify_area}
use vsql.Diagnostics.{status, diag}
use vsql.Session.{modify_connection, connection, with_connection}

abbrev pub set_active : Bool → Connection → Connection
set_active b c = record c { active = b }

-- vsql_m_bind_params, from parameter `i` on, after one that was bound with the return code `rc`
unfoldable pub bind_params : ℕ → ℕ → ℤ → List Param → Action ℤ
bind_params h i rc [] = pure rc
bind_params h i rc (p ∷ ps) = do
  r ← call (bind_parameter h (i + 1) p)
  if failed r.rc then pure r.rc else bind_params h (i + 1) r.rc ps

abbrev pub number_or : ℤ → Option ℤ → ℤ
number_or d none = d
number_or d (some n) = n

abbrev pub text_or : Bytes → Option Bytes → Bytes
text_or d none = d
text_or d (some t) = t

-- The COMMAND_FUNCTION of a statement is the DYNAMIC_FUNCTION that the CLI gives it.
unfoldable pub set_command_function : ℕ → Action Done
unfolding modify_area
set_command_function h = do
  s ← get
  elim s.area.command_function [
    | [] ↦ (do
      f ← call (get_diag_field stmt h 0 DiagField.cli_dynamic_function)
      n ← call (get_diag_field stmt h 0 DiagField.cli_dynamic_function_code)
      modify_area (λ a. record a {
        command_function = text_or [] f.string;
        command_function_code = number_or a.command_function_code n.number;
      }))
    | _ ∷ _ ↦ pure tt
  ]

-- SQL_DIAG_ROW_COUNT
unfoldable pub set_row_count : ℕ → Action Done
unfolding modify_area
set_row_count h = do
  n ← call (get_diag_field stmt h 0 DiagField.row_count)
  modify_area (λ a. record a { row_count = number_or a.row_count n.number })

-- The statement of an SQL-connection is executed, and initiates an SQL-transaction.
unfoldable pub execute_on : ℕ → ℕ → Action ℤ
unfolding modify_connection set_row_count
execute_on c h = do
  modify_connection c (set_active true)
  r ← call (execute h)
  if failed r.rc then pure tt else set_row_count h
  pure r.rc

-- vsql_m_exec
unfoldable pub exec : ℕ → ℕ → Bytes → List Param → Action Bool
unfolding bind_params set_command_function execute_on
exec c h sql params = do
  prepared ← call (prepare h sql)
  set_command_function h
  bound ← if failed prepared.rc then pure prepared.rc else bind_params h 0 success params
  rc ← if failed bound then pure bound else execute_on c h
  diag rc stmt h
  pure (not (failed rc))

-- The statement handle of vsql_m_run, which is freed if the statement fails.
unfoldable pub run_on : ℕ → ℕ → Bytes → List Param → Action (Option ℕ)
unfolding exec
run_on c handle sql params = do
  r ← call (alloc_handle stmt handle)
  if failed r.rc then diag r.rc dbc handle >> pure none else do
    done ← exec c r.handle sql params
    if done then pure (some r.handle) else call (free_handle stmt r.handle) >> pure none

-- vsql_m_run
unfoldable pub run : Bytes → List Param → Action (Option ℕ)
unfolding connection with_connection run_on
run sql params = do
  c ← connection
  for_some c (pure none) λ id. with_connection id λ d. run_on id d.dbc sql params

-- vsql_m_execute
unfoldable pub execute_statement : Bytes → List Param → Action Done
unfolding run
execute_statement sql params = do
  h ← run sql params
  for_some h (pure tt) λ handle. do call (free_handle stmt handle); pure tt

-- vsql_m_start
unfoldable pub start : Action Done
unfolding connection with_connection modify_connection
start = do
  c ← connection
  for_some c (pure tt) λ id. with_connection id λ d. do
    r ← call (start_tran d.dbc)
    diag r.rc dbc d.dbc
    if failed r.rc then pure tt else modify_connection id (set_active true)

-- strncmp(sqlstate, "40", 2) == 0
unfoldable pub is_rollback : Bytes → Bool
unfolding str_eq
is_rollback code = str_eq (take 2 code) (bytes "40")

-- What a COMMIT or ROLLBACK says of the SQL-transaction in the diagnostics area. A commit that
-- fails with transaction rollback rolls back.
unfoldable pub set_ended : Bool → ℤ → ℤ → Bytes → Area → Area
unfolding is_rollback
set_ended active completion rc code a =
    if active && (eqz completion commit && not (failed rc))
    then record a { transactions_committed = true }
    else if active && (eqz completion rollback || is_rollback code)
    then record a { transactions_rolled_back = true }
    else a

-- vsql_m_end
unfoldable pub end_transaction : ℤ → Action Done
unfolding connection with_connection modify_connection modify_area
end_transaction completion = do
  c ← connection
  for_some c (pure tt) λ id. with_connection id λ d. do
    r ← call (end_tran d.dbc completion)
    diag r.rc dbc d.dbc
    s ← get
    modify_area (set_ended d.active completion r.rc s.sqlstate)
    modify_connection id (set_active false)

abbrev pub has_null : ℕ → Bytes → Bool
has_null length [] = false
has_null zero (b ∷ s) = false
has_null (suc length) (b ∷ s) = b == 0 || has_null length s

-- vsql_m_string, of a host parameter that has the bytes of the buffer
unfoldable pub string : Bytes → ℕ → Action Bool
string buffer length =
    if has_null length buffer then pure true else status (bytes "22024") >> pure false
