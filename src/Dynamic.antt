-- ===== src/Dynamic.antt =====
-- The statements of dynamic SQL: vsql_m_execute_prepared to vsql_m_fetch_dynamic
-- (vsql/std_2_20_7_prepare_statement.c).
use vsql.Base.{ℕ, Bool, true, false, not, ◌&&◌, ◌||◌, none, some, List, if◌then◌else◌, ltb}
use vsql.Base.Ints.{ℤ, pos, eqz, lez, is_negative}
use vsql.Base.Bytes.{Bytes, bytes, str_eq}
use vsql.Cli.{
  dbc, stmt, alloc_handle, free_handle, prepare, execute, fetch, num_result_cols, close_cursor,
  get_diag_field, failed, no_data,
}
use vsql.Cli.DiagField
use vsql.Text.Scan.{scan}
use vsql.Runtime.{Area, Prepared}
use vsql.Action.{Action, Done, pure, ◌>>=◌, ◌>>◌, for_some, get, call, modify_area}
use vsql.Diagnostics.{status, diag}
use vsql.Session.{connection, with_connection, modify_connection}
use vsql.Statement.{execute_on, set_active, number_or, text_or}
use vsql.Target.{Target, is_ok}
use vsql.Cursor.{cursor, drop_cursor, on_current}
use vsql.Descriptor.{descriptor, items}
use vsql.Prepared.{prepared_statement}
use vsql.Using.{Input, Output, bind, into}

abbrev pub set_dynamic : Bytes → ℤ → Area → Area
set_dynamic f n a = record a { dynamic_function = f; dynamic_function_code = n }

-- The number of columns of the result of a prepared statement.
unfoldable pub columns_of : ℕ → Action ℤ
columns_of h = do r ← call (num_result_cols h); pure (number_or (pos 0) r.number)

-- The <output using clause> of a statement that is not a query, which has no output dynamic
-- parameters.
unfoldable pub check_no_output : Output → Action Bool
unfolding descriptor items
check_no_output output =
    for_some output.descriptor
      (if lez output.count (pos 0) then pure true else status (bytes "07002") >> pure false)
      λ name. do
        found ← descriptor name output.scope
        for_some found (pure false) λ (c, d). items d (pos 0) (bytes "07002")

abbrev pub is_missing : Output → Bool
is_missing output = elim output.descriptor [ none ↦ is_negative output.count | some name ↦ false ]

-- Can the statement with the columns be executed, with the <output using clause>?
unfoldable pub check_output : Prepared → ℤ → Output → Action Bool
unfolding scan check_no_output modify_area
check_output p columns output =
    if lez columns (pos 0)
    then check_no_output output
    else if not (scan p.sql).single
    then status (bytes "07003") >> pure false
    else if is_missing output
    then status (bytes "07007") >> pure false
    else (do modify_area (set_dynamic (bytes "SELECT") (pos 41)); pure true)

-- There must be one row.
unfoldable pub only_row : ℕ → Action Done
only_row h = do
  r ← call (fetch h)
  if is_ok r.rc
      then status (bytes "21000")
      else if not (eqz r.rc no_data)
      then diag r.rc stmt h
      else pure tt

-- The row of a dynamic single row select statement.
unfoldable pub one_row : ℕ → Output → Action (Bool × List Target)
unfolding into only_row
one_row h output = do
  r ← call (fetch h)
  done ← into h r.rc output
  if done.0 then only_row h else pure tt
  call (close_cursor h)
  pure done

-- The statement is executed in the current SQL-connection, once its parameters are bound.
unfoldable pub execute_current : ℕ → Action ℤ
unfolding execute_on on_current
execute_current h = on_current λ c. execute_on c h

-- vsql_m_execute_prepared: were the values of a row assigned, and the targets
unfoldable pub execute_prepared : Bytes → Input → Output → Action (Bool × List Target)
unfolding prepared_statement columns_of check_output bind execute_current one_row modify_area
execute_prepared name input output = do
  found ← prepared_statement name
  for_some found (pure (false, output.targets)) λ p. do
    modify_area (set_dynamic p.dynamic_function p.dynamic_function_code)
    columns ← columns_of p.stmt
    good ← check_output p columns output
    bound ← if good then bind p.stmt p.sql input else pure false
    if not bound then pure (false, output.targets) else do
      rc ← execute_current p.stmt
      if eqz columns (pos 0) || failed rc
          then diag rc stmt p.stmt >> pure (false, output.targets)
          else one_row p.stmt output

-- The DYNAMIC_FUNCTION and the columns of a statement that has been prepared.
unfoldable pub prepared_columns : ℕ → Action (ℤ × ℤ)
unfolding modify_area
prepared_columns h = do
  f ← call (get_diag_field stmt h 0 DiagField.cli_dynamic_function)
  n ← call (get_diag_field stmt h 0 DiagField.cli_dynamic_function_code)
  modify_area (λ a.
      set_dynamic (text_or a.dynamic_function f.string) (number_or a.dynamic_function_code n.number)
        a)
  r ← call (num_result_cols h)
  pure (r.rc, number_or (pos 0) r.number)

-- The statement handle `h` of an <execute immediate statement>
unfoldable pub immediate_on : ℕ → ℕ → Bytes → Action Done
unfolding prepared_columns execute_on
immediate_on c h sql = do
  p ← call (prepare h sql)
  n ← if failed p.rc then pure (p.rc, pos 0) else prepared_columns h
  if not (failed n.0) && not (lez n.1 (pos 0))
      then status (bytes "42000")
      else do rc ← if failed n.0 then pure n.0 else execute_on c h; diag rc stmt h
  call (free_handle stmt h)
  pure tt

-- vsql_m_execute_immediate
unfoldable pub execute_immediate : Bytes → Action Done
unfolding connection with_connection scan immediate_on
execute_immediate sql = do
  c ← connection
  for_some c (pure tt) λ id. with_connection id λ d.
      if ltb 0 (scan sql).count then status (bytes "42000") else do
        r ← call (alloc_handle stmt d.dbc)
        if failed r.rc then diag r.rc dbc d.dbc else immediate_on id r.handle sql

-- The query of a cursor is executed, which initiates an SQL-transaction.
unfoldable pub execute_open : ℕ → ℕ → Action ℤ
unfolding modify_connection
execute_open c h = do modify_connection c (set_active true); r ← call (execute h); pure r.rc

-- The cursor is executed, when its parameters are bound: is it open?
unfoldable pub open_bound : ℕ → ℕ → Bytes → Input → Action Bool
unfolding bind execute_open
open_bound c h sql input = do
  good ← bind h sql input
  if not good then pure false else do rc ← execute_open c h; diag rc stmt h; pure (not (failed rc))

-- vsql_m_open_dynamic, with the handle `h` of the cursor
unfoldable pub open_on : ℕ → ℕ → ℕ → Bytes → Input → Action Done
unfolding open_bound drop_cursor
open_on c i h sql input = do
  r ← call (prepare h sql)
  if failed r.rc
      then (do
        diag r.rc stmt h
        s ← get
        if str_eq s.sqlstate (bytes "24000") then pure tt else drop_cursor c i h)
      else (do done ← open_bound c h sql input; if done then pure tt else drop_cursor c i h)

-- vsql_m_open_dynamic
unfoldable pub open_dynamic : ℕ → Bytes → Bool → Bytes → Input → Action Done
unfolding prepared_statement columns_of cursor open_on on_current
open_dynamic i name hold statement input = do
  found ← prepared_statement statement
  for_some found (pure tt) λ p. do
    columns ← columns_of p.stmt
    if eqz columns (pos 0) then status (bytes "07005") else do
      slot ← cursor i (some name) hold
      for_some slot (pure tt) λ h. on_current λ c. open_on c i h p.sql input

-- vsql_m_fetch_dynamic
unfoldable pub fetch_dynamic : ℕ → Output → Action (Bool × List Target)
unfolding cursor into
fetch_dynamic i output = do
  slot ← cursor i none false
  for_some slot (pure (false, output.targets)) λ h. do r ← call (fetch h); into h r.rc output
