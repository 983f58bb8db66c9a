-- ===== src/Runtime.antt =====
-- The state that the modules of a program share, and the actions that change it: the structs of
-- vsql/std_2_13_1_sql_client_module_definition.c, with linked lists as lists and a pointer to an
-- SQL-connection as its address.
use vsql.Base.{ℕ, Bool, Option, List}
use vsql.Base.Ints.{ℤ}
use vsql.Base.Bytes.{Bytes}
use vsql.Cli.{Cli, Log}
use vsql.Item.{Item}

-- struct vsql_m_cursors. A handle is `none` (SQL_NULL_HANDLE) until its cursor is opened.
pub record Cursors : Type 0 where
  pub module_id : ℕ
  pub stmts : List (Option ℕ)

-- struct vsql_m_prepared
pub record Prepared : Type 0 where
  pub module_id : ℕ
  pub name : Bytes
  pub sql : Bytes
  pub stmt : ℕ
  pub dynamic_function : Bytes
  pub dynamic_function_code : ℤ

-- struct vsql_m_descriptor. `module_id` is `none` for a GLOBAL one. `items` has `max` elements.
pub record Descriptor : Type 0 where
  pub module_id : Option ℕ
  pub name : Bytes
  pub count : ℤ
  pub max : ℕ
  pub top_level_count : ℤ
  pub dynamic_function : Bytes
  pub dynamic_function_code : ℤ
  pub items : List Item

-- struct vsql_m_connection, at the address `id`
pub record Connection : Type 0 where
  pub id : ℕ
  pub name : Bytes
  pub server : Option Bytes
  pub is_default : Bool
  pub dbc : ℕ
  pub active : Bool
  pub module_id : Option ℕ
  pub cursors : List Cursors
  pub prepared : List Prepared
  pub descriptors : List Descriptor

-- struct vsql_m_condition
pub record Condition : Type 0 where
  pub sqlstate : Bytes
  pub message : Option Bytes
  pub constraint_catalog : Option Bytes
  pub constraint_schema : Option Bytes
  pub constraint_name : Option Bytes

-- struct vsql_m_da
pub record Area : Type 0 where
  pub command_function : Bytes
  pub command_function_code : ℤ
  pub dynamic_function : Bytes
  pub dynamic_function_code : ℤ
  pub row_count : ℤ
  pub transactions_committed : Bool
  pub transactions_rolled_back : Bool
  pub conditions : List Condition
  pub connection_name : Bytes
  pub server_name : Option Bytes
  pub cursor_name : Option Bytes

-- struct vsql_m_agent, the status parameter of the statement that is executed, the calls of the
-- CLI and the next address for an SQL-connection.
pub record Runtime : Type 0 where
  pub ready : Bool
  pub env : ℕ
  pub connections : List Connection
  pub current : Option ℕ
  pub connected : Bool
  pub area : Area
  pub sqlstate : Bytes
  pub log : Log
  pub fresh : ℕ

-- What the compiler generates for a module, and the CLI that it is linked to. `id` is the address
-- &vsql_m_own; the statement of a cursor is `none` if the cursor is not a dynamic one. A long value
-- is read in `pieces` pieces at most.
pub record Module : Type 0 where
  pub cli : Cli
  pub id : ℕ
  pub set_schema : Bytes
  pub cursor_count : ℕ
  pub cursor_statements : ℕ → Option Bytes
  pub cursor_names : ℕ → Bytes
  pub pieces : ℕ
