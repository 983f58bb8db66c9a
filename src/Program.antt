-- ===== src/Program.antt =====
-- The statements that are one function of the runtime, behind vsql_m_begin, and the states that a
-- program reaches with them and with the procedures of Program.Procedures
-- (vsql/std_2_13_1_sql_client_module_definition.c and the other vsql/*.c files).
pub mod Syntax
pub mod Procedures
pub mod Reached
use vsql.Base.{ℕ, zero, Bool, true, false, Option, none, some, List, [], ◌∷◌}
use Syntax.{Statement}
use Procedures.{
  Setting, get_header, get_value, set_value, get_diagnostics, Check, check_all, behind_checks,
}
use vsql.Base.Ints.{ℤ, pos}
use vsql.Base.Bytes.{Bytes, bytes}
use vsql.Cli.{Param}
use vsql.Runtime.{Runtime, Module, Area}
use vsql.Action.{Action, Done, pure, ◌>>=◌, ◌>>◌}
use vsql.Diagnostics.{begin}
use vsql.Session.{exit}
use vsql.Connect.{Which, connect, set_connection, disconnect}
use vsql.Statement.{execute_statement, start, end_transaction}
use vsql.Target.{Target, select}
use vsql.Cursor.{open_cursor, fetch_cursor, close as close_cursor}
use vsql.Descriptor.{allocate_descriptor, deallocate_descriptor, set_count}
use vsql.Prepared.{prepare, deallocate_prepare, describe}
use vsql.Using.{Input, Output}
use vsql.Dynamic.{execute_prepared, execute_immediate, open_dynamic, fetch_dynamic}

-- The result is not kept.
unfoldable pub ignore : {A : Type 0} → Action A → Action Done
ignore x = x >> pure tt

unfoldable pub perform : Statement → Action Done
unfolding ignore
perform (Statement.connect server as_name user) = connect server as_name user
perform (Statement.set_connection to) = set_connection to
perform (Statement.disconnect which) = disconnect which
perform (Statement.execute_statement sql params) = execute_statement sql params
perform Statement.start = start
perform (Statement.end_transaction completion) = end_transaction completion
perform (Statement.select sql params targets) = ignore (select sql params targets)
perform (Statement.open_cursor i name hold sql params) = open_cursor i name hold sql params
perform (Statement.fetch_cursor i targets) = ignore (fetch_cursor i targets)
perform (Statement.close_cursor i) = close_cursor i
perform (Statement.allocate_descriptor name scope max) = allocate_descriptor name scope max
perform (Statement.deallocate_descriptor name scope) = deallocate_descriptor name scope
perform (Statement.set_count name scope count) = set_count name scope count
perform (Statement.prepare name sql) = prepare name sql
perform (Statement.deallocate_prepare name) = deallocate_prepare name
perform (Statement.describe statement name scope) = describe statement name scope
perform (Statement.execute_prepared name input output) = ignore (execute_prepared name input output)
perform (Statement.execute_immediate sql) = execute_immediate sql
perform (Statement.open_dynamic i name hold statement input) =
    open_dynamic i name hold statement input
perform (Statement.fetch_dynamic i output) = ignore (fetch_dynamic i output)

-- vsql_m_begin, and the statement.
unfoldable pub statement : Bytes → ℤ → Statement → Action Done
unfolding perform
statement function code st = begin function code >> perform st

abbrev pub empty_area : Area
empty_area = record {
  command_function = [];
  command_function_code = pos 0;
  dynamic_function = [];
  dynamic_function_code = pos 0;
  row_count = pos 0;
  transactions_committed = false;
  transactions_rolled_back = false;
  conditions = [];
  connection_name = [];
  server_name = none;
  cursor_name = none;
}

-- The static storage of a program before its first statement.
abbrev pub initial : Runtime
initial = record {
  ready = false;
  env = 0;
  connections = [];
  current = none;
  connected = false;
  area = empty_area;
  sqlstate = bytes "00000";
  log = [];
  fresh = 0;
}

-- The states of a program, from the first on: a procedure of any of its modules is executed, or the
-- program ends with vsql_m_exit. A procedure has vsql_m_begin, the checks of its host parameters, and
-- a statement, which is one function of the runtime, or GET DESCRIPTOR or SET DESCRIPTOR VALUE. GET
-- DIAGNOSTICS has no vsql_m_begin.
pub data IsReached : Runtime → Type 0 where
  started : IsReached initial
  executed :
      (m : Module) (function : Bytes) (code : ℤ) (st : Statement) (s : Runtime)
      → IsReached s
      → IsReached (statement function code st m s).1
  checked :
      (m : Module) (function : Bytes) (code : ℤ) (checks : List Check) (st : Statement)
      (s : Runtime)
      → IsReached s
      → IsReached ((begin function code >> behind_checks checks (perform st)) m s).1
  got_header :
      (m : Module) (code : ℤ) (checks : List Check) (name : Bytes) (scope : Option ℕ)
      (truncated : Bool) (s : Runtime)
      → IsReached s
      → IsReached
          ((begin (bytes "GET DESCRIPTOR") code
              >> behind_checks checks (get_header name scope truncated))
            m s).1
  got_value :
      (m : Module) (code : ℤ) (checks : List Check) (name : Bytes) (scope : Option ℕ)
      (n type length : ℤ) (indicator truncated : Bool) (s : Runtime)
      → IsReached s
      → IsReached
          ((begin (bytes "GET DESCRIPTOR") code
              >> behind_checks checks (get_value name scope n type length indicator truncated))
            m s).1
  set_values :
      (m : Module) (code : ℤ) (checks : List Check) (name : Bytes) (scope : Option ℕ) (n : ℤ)
      (settings : List Setting) (s : Runtime)
      → IsReached s
      → IsReached
          ((begin (bytes "SET DESCRIPTOR") code
              >> behind_checks checks (set_value name scope n settings))
            m s).1
  diagnosed :
      (m : Module) (n : Option ℤ) (truncated : Bool) (s : Runtime)
      → IsReached s
      → IsReached (get_diagnostics n truncated m s).1
  ended : (m : Module) (s : Runtime) → IsReached s → IsReached (exit m s).1
