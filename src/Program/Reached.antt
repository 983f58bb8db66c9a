-- ===== src/Program/Reached.antt =====
-- What holds in every state that a program reaches.
use vsql.Base.{none}
use vsql.Base.Ints.{ℤ}
use vsql.Base.Bytes.{Bytes}
use vsql.Runtime.{Runtime}
use vsql.Action.{Action}
use vsql.Action.Hoare.{Ends, Keeps, Keeps-bind, Keeps-pure, Ends-bind, Ends-first}
use vsql.Diagnostics.Agrees.{Agrees}
use vsql.Program.Syntax.{Statement}
use vsql.Sound.{Inv, IsSound}
use vsql.Sound.Rules.{begin-Inv}
use vsql.Sound.Sessions.{connect-IsSound, set_connection-IsSound, disconnect-IsSound, exit-IsSound}
use vsql.Sound.Statements.{
  execute_statement-IsSound, start-IsSound, end_transaction-IsSound, select-IsSound,
  open_cursor-IsSound, fetch_cursor-IsSound, close-IsSound, allocate_descriptor-IsSound,
  deallocate_descriptor-IsSound, set_count-IsSound,
}
use vsql.Sound.Dynamic.{
  prepare-IsSound, deallocate_prepare-IsSound, describe-IsSound, execute_prepared-IsSound,
  execute_immediate-IsSound, open_dynamic-IsSound, fetch_dynamic-IsSound,
}
use vsql.Sound.Procedures.{
  get_header-IsSound, get_value-IsSound, set_value-IsSound, get_diagnostics-IsSound,
  procedure-IsSound,
}
use vsql.Program.{
  checked, got_header, got_value, set_values, diagnosed, initial, ignore, perform, statement,
  IsReached, started, executed, ended,
}
use vsql.Agreement.Sessions.{connect-Agrees, set_connection-Agrees, disconnect-Agrees}
use vsql.Agreement.Statements.{
  execute_statement-Agrees, start-Agrees, end_transaction-Agrees, select-Agrees,
}
use vsql.Agreement.Cursors.{open_cursor-Agrees, fetch_cursor-Agrees, close-Agrees}
use vsql.Agreement.Descriptors.{
  allocate_descriptor-Agrees, deallocate_descriptor-Agrees, set_count-Agrees,
}
use vsql.Agreement.Prepareds.{prepare-Agrees, deallocate_prepare-Agrees, describe-Agrees}
use vsql.Agreement.Dynamic.{
  execute_prepared-Agrees, execute_immediate-Agrees, open_dynamic-Agrees, fetch_dynamic-Agrees,
}

ignore-Agrees : {A : Type 0} (x : Action A) → Ends Agrees x → Ends Agrees (ignore x)
unfolding ignore
ignore-Agrees x h = Ends-first x _ h λ _. Keeps-pure tt

-- After each statement, the status parameter is the SQLSTATE of the first condition of the
-- diagnostics area, if it has one, whatever the state was and the CLI answers.
pub perform-Agrees : (st : Statement) → Ends Agrees (perform st)
unfolding perform
perform-Agrees (Statement.connect server as_name user) = connect-Agrees server as_name user
perform-Agrees (Statement.set_connection to) = set_connection-Agrees to
perform-Agrees (Statement.disconnect which) = disconnect-Agrees which
perform-Agrees (Statement.execute_statement sql params) = execute_statement-Agrees sql params
perform-Agrees Statement.start = start-Agrees
perform-Agrees (Statement.end_transaction completion) = end_transaction-Agrees completion
perform-Agrees (Statement.select sql params targets) =
    ignore-Agrees _ (select-Agrees sql params targets)
perform-Agrees (Statement.open_cursor i name hold sql params) =
    open_cursor-Agrees i name hold sql params
perform-Agrees (Statement.fetch_cursor i targets) = ignore-Agrees _ (fetch_cursor-Agrees i targets)
perform-Agrees (Statement.close_cursor i) = close-Agrees i
perform-Agrees (Statement.allocate_descriptor name scope max) =
    allocate_descriptor-Agrees name scope max
perform-Agrees (Statement.deallocate_descriptor name scope) =
    deallocate_descriptor-Agrees name scope
perform-Agrees (Statement.set_count name scope count) = set_count-Agrees name scope count
perform-Agrees (Statement.prepare name sql) = prepare-Agrees name sql
perform-Agrees (Statement.deallocate_prepare name) = deallocate_prepare-Agrees name
perform-Agrees (Statement.describe st name scope) = describe-Agrees st name scope
perform-Agrees (Statement.execute_prepared name input output) =
    ignore-Agrees _ (execute_prepared-Agrees name input output)
perform-Agrees (Statement.execute_immediate sql) = execute_immediate-Agrees sql
perform-Agrees (Statement.open_dynamic i name hold st input) =
    open_dynamic-Agrees i name hold st input
perform-Agrees (Statement.fetch_dynamic i output) = ignore-Agrees _ (fetch_dynamic-Agrees i output)

-- After vsql_m_begin and each statement that is one function of the runtime, the status parameter is
-- the SQLSTATE of the first condition of the diagnostics area, if it has one, whatever the state was
-- before and the CLI answers.
pub statement-Agrees :
    (function : Bytes) (code : ℤ) (st : Statement) → Ends Agrees (statement function code st)
unfolding statement
statement-Agrees function code st = Ends-bind _ _ λ _. perform-Agrees st

ignore-IsSound : {A : Type 0} (x : Action A) → Keeps IsSound x → Keeps IsSound (ignore x)
unfolding ignore
ignore-IsSound x h = Keeps-bind x _ h λ _. Keeps-pure tt

-- Each statement keeps the SQL-connections distinct and the current one in their list.
pub perform-IsSound : (st : Statement) → Keeps IsSound (perform st)
unfolding perform
perform-IsSound (Statement.connect server as_name user) = connect-IsSound server as_name user
perform-IsSound (Statement.set_connection to) = set_connection-IsSound to
perform-IsSound (Statement.disconnect which) = disconnect-IsSound which
perform-IsSound (Statement.execute_statement sql params) = execute_statement-IsSound sql params
perform-IsSound Statement.start = start-IsSound
perform-IsSound (Statement.end_transaction completion) = end_transaction-IsSound completion
perform-IsSound (Statement.select sql params targets) =
    ignore-IsSound _ (select-IsSound sql params targets)
perform-IsSound (Statement.open_cursor i name hold sql params) =
    open_cursor-IsSound i name hold sql params
perform-IsSound (Statement.fetch_cursor i targets) =
    ignore-IsSound _ (fetch_cursor-IsSound i targets)
perform-IsSound (Statement.close_cursor i) = close-IsSound i
perform-IsSound (Statement.allocate_descriptor name scope max) =
    allocate_descriptor-IsSound name scope max
perform-IsSound (Statement.deallocate_descriptor name scope) =
    deallocate_descriptor-IsSound name scope
perform-IsSound (Statement.set_count name scope count) = set_count-IsSound name scope count
perform-IsSound (Statement.prepare name sql) = prepare-IsSound name sql
perform-IsSound (Statement.deallocate_prepare name) = deallocate_prepare-IsSound name
perform-IsSound (Statement.describe st name scope) = describe-IsSound st name scope
perform-IsSound (Statement.execute_prepared name input output) =
    ignore-IsSound _ (execute_prepared-IsSound name input output)
perform-IsSound (Statement.execute_immediate sql) = execute_immediate-IsSound sql
perform-IsSound (Statement.open_dynamic i name hold st input) =
    open_dynamic-IsSound i name hold st input
perform-IsSound (Statement.fetch_dynamic i output) =
    ignore-IsSound _ (fetch_dynamic-IsSound i output)

statement-IsSound :
    (function : Bytes) (code : ℤ) (st : Statement) → Keeps IsSound (statement function code st)
unfolding statement
statement-IsSound function code st =
    Keeps-bind _ _ (begin-Inv none none function code) λ _. perform-IsSound st

initial-IsSound : IsSound initial
unfolding Inv
initial-IsSound = (tt, tt, tt)

-- In every state that a program reaches, the addresses of the SQL-connections descend from below
-- the next one, so that no two are the same, and the current SQL-connection, if there is one, is
-- in the list.
pub IsReached-IsSound : (s : Runtime) → IsReached s → IsSound s
IsReached-IsSound _ started = initial-IsSound
IsReached-IsSound _ (executed m function code st s h) =
    (statement-IsSound function code st).at m s (IsReached-IsSound s h)
IsReached-IsSound _ (checked m function code checks st s h) =
    (procedure-IsSound function code checks (perform st) (perform-IsSound st)).at m s
      (IsReached-IsSound s h)
IsReached-IsSound _ (got_header m code checks name scope truncated s h) =
    (procedure-IsSound _ code checks _ (get_header-IsSound name scope truncated)).at m s
      (IsReached-IsSound s h)
IsReached-IsSound _ (got_value m code checks name scope n type length indicator truncated s h) =
    (procedure-IsSound _ code checks _
        (get_value-IsSound name scope n type length indicator truncated)).at
      m s (IsReached-IsSound s h)
IsReached-IsSound _ (set_values m code checks name scope n settings s h) =
    (procedure-IsSound _ code checks _ (set_value-IsSound name scope n settings)).at m s
      (IsReached-IsSound s h)
IsReached-IsSound _ (diagnosed m n truncated s h) =
    (get_diagnostics-IsSound n truncated).at m s (IsReached-IsSound s h)
IsReached-IsSound _ (ended m s h) = exit-IsSound.at m s (IsReached-IsSound s h)
