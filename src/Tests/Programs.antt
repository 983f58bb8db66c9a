-- ===== src/Tests/Programs.antt =====
-- Programs and sessions (vsql/std_2_13_1_sql_client_module_definition.c), with a CLI that succeeds.
use vsql.Base.{ℕ, ◌≡◌, ◌↔◌, refl, true, false, none, some, [], ◌∷◌}
use vsql.Agent.{agent, agents_of, unshared}
use vsql.Agent.Shared.{agent_lem}
use vsql.Base.{◌==◌, if◌then◌else◌}
use vsql.Base.Ints.{pos}
use vsql.Base.Bytes.{bytes}
use vsql.Cli.{Cli, dbc, success, commit}
use vsql.Runtime.{Runtime, Module, Condition}
use vsql.Action.Hoare.{Ends, Out, is_none}
use vsql.Action.Triple.{Triple}
use vsql.Diagnostics.{lookup, current_connection, condition, diag}
use vsql.Diagnostics.Agrees.{Agrees, diag-Agrees}
use vsql.Diagnostics.Items.{violated}
use vsql.Diagnostics.Violated.{Some, violated_iff}
use vsql.Session.{new_connection, close_connections, open_connection}
use vsql.Session.Closed.{close_connections_lem}
use vsql.Connect.{all, connect, disconnect}
use vsql.Connect.Refused.{IsRefused, connect-IsRefused, disconnect_all-IsRefused}
use vsql.Descriptor.{set_item}
use vsql.Agreement.Descriptors.{set_item-Agrees}
use vsql.Statement.{end_transaction}
use vsql.Statement.Inactive.{has_active, end_transaction-inactive}
use vsql.Runtime.{Prepared}
use vsql.Session.{connection, schema, with_connection}
use vsql.Action.{for_some, pure, get, this_module, ◌>>=◌}
use vsql.Diagnostics.{lookup}
use vsql.Sound.{IsSound}
use vsql.Sound.Sessions.{Opened, open_connection-Opened}
use vsql.Program.Procedures.{of_text, get_value, get_diagnostics, behind_checks}
use vsql.Action.{◌>>◌}
use vsql.Diagnostics.{begin}
use vsql.Program.{diagnosed, got_value}
use vsql.Program.Syntax.{Statement}
use vsql.Program.{perform, statement, initial, started}
use vsql.Program.Reached.{perform-Agrees, statement-Agrees, IsReached-IsSound}

abbrev pub quiet_cli : Cli
quiet_cli log c = record {
  rc = success;
  handle = 1;
  number = some (pos 0);
  state = none;
  string = none;
  value = none;
  indicator = pos 0;
}

abbrev pub quiet : Module
quiet = record {
  cli = quiet_cli;
  id = 7;
  set_schema = bytes "SET SCHEMA 'PUBLIC'";
  cursor_count = 0;
  cursor_statements = λ i. none;
  cursor_names = λ i. [];
  pieces = 8;
}

abbrev connecting : Statement
connecting = Statement.connect (some (bytes "db")) (some (bytes "main")) none

-- A SQL descriptor area that is not there is read in the default SQL-connection, which is opened.
abbrev read : Runtime
read =
    ((begin (bytes "GET DESCRIPTOR") (pos 47)
        >> behind_checks (of_text none (bytes "D") 2 ∷ [])
            (get_value (bytes "D") none (pos 1) (pos 0) (pos 0) false false))
      quiet initial).1

IsReached-IsSound_example : IsSound (get_diagnostics (some (pos 9)) false quiet read).1
IsReached-IsSound_example = IsReached-IsSound (get_diagnostics (some (pos 9)) false quiet read).1 (
    diagnosed quiet (some (pos 9)) false read (
      got_value quiet (pos 47) (of_text none (bytes "D") 2 ∷ []) (bytes "D") none (pos 1) (pos 0)
        (pos 0) false false initial started))

statement-Agrees_example : Ends Agrees (statement (bytes "CONNECT") (pos 13) connecting)
statement-Agrees_example = statement-Agrees (bytes "CONNECT") (pos 13) connecting

perform-Agrees_example : Ends Agrees (perform connecting)
perform-Agrees_example = perform-Agrees connecting

open_connection-Opened_example : Triple IsSound (open_connection (bytes "db") none) Opened
open_connection-Opened_example = open_connection-Opened (bytes "db") none

diag-Agrees_example : Ends Agrees (diag (pos 1) dbc 1)
diag-Agrees_example = diag-Agrees (pos 1) dbc 1

set_item-Agrees_example : Out is_none Agrees (set_item (bytes "D") none (pos 1))
set_item-Agrees_example = set_item-Agrees (bytes "D") none (pos 1)

-- One SQL-connection, with an active SQL-transaction.
abbrev busy : Runtime
busy = record initial {
  connections = record (new_connection 0) { active = true } ∷ [];
  current = some 0;
  fresh = 1;
}

-- Its default schema is the one of the module.
abbrev ready : Runtime
ready = record busy {
  connections = record (new_connection 0) { active = true; module_id = some 7 } ∷ [];
}

abbrev prepared : Prepared
prepared = record {
  module_id = 7;
  name = bytes "S";
  sql = bytes "DELETE FROM T";
  stmt = 3;
  dynamic_function = bytes "DELETE WHERE";
  dynamic_function_code = pos 19;
}

connect-IsRefused_example :
    IsRefused (bytes "0A001") busy (connect (some (bytes "db")) none none quiet busy).1
unfolding current_connection lookup
connect-IsRefused_example = connect-IsRefused (some (bytes "db")) none none quiet busy refl

disconnect_all-IsRefused_example : IsRefused (bytes "25001") busy (disconnect all quiet busy).1
disconnect_all-IsRefused_example =
    disconnect_all-IsRefused 0 (record (new_connection 0) { active = true }) quiet busy refl refl

close_connections_lem_example : (close_connections quiet busy).1.connections ≡ []
close_connections_lem_example = close_connections_lem quiet busy

abbrev broken : Condition
broken = record (condition (bytes "23000") none) {
  constraint_name = some (bytes "PK");
  constraint_schema = some (bytes "PUBLIC");
}

violated_iff_example :
    (violated none (bytes "PUBLIC") (bytes "PK") (broken ∷ []) ≡ true)
    ↔ Some none (bytes "PUBLIC") (bytes "PK") (broken ∷ [])
violated_iff_example = violated_iff none (bytes "PUBLIC") (bytes "PK") (broken ∷ [])

-- The statement that committed, in the SQL-connection that vsql_m_connection finds.
found : (connection quiet ready).0 ≡ some 0
unfolding connection schema with_connection lookup for_some pure get this_module ◌>>=◌
found = refl

end_transaction-inactive_example :
    has_active 0 (end_transaction commit quiet ready).1.connections ≡ false
end_transaction-inactive_example = end_transaction-inactive commit 0 quiet ready found

-- Module 3 has another version than the others.
abbrev versions : ℕ → ℕ
versions id = if id == 3 then 1 else 2

agent_lem_example :
    (agent versions 5 (agents_of versions (4 ∷ 3 ∷ []) unshared)).0
    ≡ (if versions 4 == versions 5 then 4 else 5)
agent_lem_example = agent_lem versions 4 5 (3 ∷ [])
