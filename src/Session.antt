-- ===== src/Session.antt =====
-- The SQL-connections of the program: vsql_m_close to vsql_m_connection
-- (vsql/std_2_13_1_sql_client_module_definition.c).
pub mod Closed
use vsql.Base.{
  ℕ, zero, suc, ◌+◌, ◌==◌, Bool, true, false, not, Option, none, some, List, [], ◌∷◌, ◌++◌, map,
  if◌then◌else◌, length,
}
use vsql.Base.Ints.{ℤ}
use vsql.Base.Bytes.{Bytes, bytes}
use vsql.Cli.{
  HandleType, env, dbc, stmt, Call, alloc_handle, free_handle, connect, disconnect, end_tran,
  exec_direct, failed, commit, rollback,
}
use vsql.Runtime.{Runtime, Module, Connection, Cursors, Prepared}
use vsql.Action.{
  Action, Done, pure, ◌>>=◌, ◌>>◌, for_some, get, this_module, modify, call, allocate, copy,
  modify_area,
}
use vsql.Diagnostics.{lookup, clear, status, diag}

abbrev pub new_connection : ℕ → Connection
new_connection id = record {
  id = id;
  name = [];
  server = none;
  is_default = false;
  dbc = 0;
  active = false;
  module_id = none;
  cursors = [];
  prepared = [];
  descriptors = [];
}

-- A write through the pointer to an SQL-connection.
unfoldable pub update : ℕ → (Connection → Connection) → List Connection → List Connection
update id f [] = []
update id f (c ∷ cs) = if c.id == id then f c ∷ cs else c ∷ update id f cs

-- Taking an SQL-connection out of the linked list.
unfoldable pub without : ℕ → List Connection → List Connection
without id [] = []
without id (c ∷ cs) = if c.id == id then cs else c ∷ without id cs

abbrev pub same : Option ℕ → Option ℕ → Bool
same none none = true
same (some a) (some b) = a == b
same none (some b) = false
same (some a) none = false

unfoldable pub modify_connection : ℕ → (Connection → Connection) → Action Done
unfolding update
modify_connection id f = modify (λ s. record s { connections = update id f s.connections })

-- SQLFreeHandle for the statement of each cursor that has one.
unfoldable pub free_stmts : List (Option ℕ) → Action Done
free_stmts [] = pure tt
free_stmts (slot ∷ slots) = do
  for_some slot (pure tt) λ h. do call (free_handle stmt h); pure tt
  free_stmts slots

unfoldable pub free_cursors : List Cursors → Action Done
unfolding free_stmts
free_cursors [] = pure tt
free_cursors (m ∷ ms) = do free_stmts m.stmts; free_cursors ms

-- vsql_m_free_prepared, for each prepared statement.
unfoldable pub free_all_prepared : List Prepared → Action Done
free_all_prepared [] = pure tt
free_all_prepared (p ∷ ps) = do call (free_handle stmt p.stmt); free_all_prepared ps

abbrev pub unlink : ℕ → Runtime → Runtime
unlink id s = record s {
  connections = without id s.connections;
  current = if same s.current (some id) then none else s.current;
}

-- What vsql_m_close does to the handles of the SQL-connection, once it is out of the list. Its
-- SQL descriptor areas have none.
unfoldable pub release : Connection → Action Done
unfolding free_cursors free_all_prepared
release c = do
  call (end_tran c.dbc rollback)
  free_cursors c.cursors
  free_all_prepared c.prepared
  call (disconnect c.dbc)
  call (free_handle dbc c.dbc)
  pure tt

-- vsql_m_close. There is nothing to close behind a pointer that is not in the list.
unfoldable pub close : ℕ → Action Done
unfolding release
close id = do
  s ← get
  for_some (lookup id s.connections) (pure tt) λ c. do modify (unlink id); release c

-- while (vsql_m_connections != NULL) vsql_m_close(vsql_m_connections);
unfoldable pub close_all : ℕ → Action Done
unfolding close
close_all zero = pure tt
close_all (suc rounds) = do
  s ← get
  elim s.connections [ [] ↦ pure tt | c ∷ cs ↦ (do close c.id; close_all rounds) ]

-- The loop with as many rounds as there are SQL-connections.
unfoldable pub close_connections : Action Done
unfolding close_all
close_connections = do s ← get; close_all (length s.connections)

-- vsql_m_exit
unfoldable pub exit : Action Done
unfolding close_connections clear
exit = do
  close_connections
  s ← get
  call (free_handle env s.env)
  modify (λ t. record t { ready = false })
  clear

-- The SQL-connection behind a pointer. Nothing is behind one that is not in the list.
abbrev pub found_or : ℕ → Option Connection → Connection
found_or id none = new_connection id
found_or id (some c) = c

unfoldable pub with_connection : {A : Type 0} → ℕ → (Connection → Action A) → Action A
unfolding lookup
with_connection id f = do s ← get; f (found_or id (lookup id s.connections))

-- The end of vsql_m_schema, when the default schema has been set.
unfoldable pub schema_set : Connection → Action Bool
unfolding modify_connection
schema_set c = do
  m ← this_module
  if c.active then pure tt else (call (end_tran c.dbc commit) >> pure tt)
  modify_connection c.id (λ d. record d { module_id = some m.id })
  pure true

-- The statement that sets the default schema.
unfoldable pub set_schema : Connection → Action Bool
unfolding schema_set
set_schema c = do
  m ← this_module
  r ← call (alloc_handle stmt c.dbc)
  if failed r.rc then diag r.rc dbc c.dbc >> pure false else do
    x ← call (exec_direct r.handle m.set_schema)
    if failed x.rc
        then (do diag x.rc stmt r.handle; call (free_handle stmt r.handle); pure false)
        else (do call (free_handle stmt r.handle); schema_set c)

-- vsql_m_schema
unfoldable pub schema : ℕ → Action Bool
unfolding set_schema with_connection
schema id = do
  m ← this_module
  with_connection id λ c. if same c.module_id (some m.id) then pure true else set_schema c

-- The environment, which the first SQL-connection makes.
unfoldable pub make_ready : Action Bool
make_ready = do
  s ← get
  if s.ready then pure true else do
    r ← call (alloc_handle env 0)
    if failed r.rc
        then status (bytes "HY001") >> pure false
        else (do modify (λ t. record t { env = r.handle; ready = true }); pure true)

abbrev pub push_connection : Runtime → Runtime
push_connection s = record s {
  connections = new_connection s.fresh ∷ s.connections;
  fresh = s.fresh + 1;
}

-- The SQL-connection `id` is in the list: its handle, the session and the default schema.
unfoldable pub connect_new : ℕ → Bytes → Option Bytes → Action (Option ℕ)
unfolding modify_connection close schema without
connect_new id server user = do
  s ← get
  r ← call (alloc_handle dbc s.env)
  if failed r.rc
      then (do
        diag r.rc env s.env
        modify (λ t. record t { connections = without id t.connections })
        pure none)
      else (do
        modify_connection id (λ c. record c { dbc = r.handle })
        x ← call (connect r.handle server user)
        if failed x.rc
            then (do diag x.rc dbc r.handle; close id; pure none)
            else (do done ← schema id; if done then pure (some id) else (do close id; pure none)))

-- vsql_m_open
unfoldable pub open_connection : Bytes → Option Bytes → Action (Option ℕ)
unfolding make_ready connect_new modify_connection
open_connection server user = do
  ready ← make_ready
  if not ready then pure none else do
    there ← allocate 1
    if not there then status (bytes "HY001") >> pure none else do
      s ← get
      modify push_connection
      copied ← copy server
      modify_connection s.fresh (λ c. record c { server = copied })
      connect_new s.fresh server user

-- The default SQL-connection, made when it is needed.
unfoldable pub open_default : Action (Option ℕ)
unfolding open_connection modify_connection
open_default = do
  opened ← open_connection (bytes "DEFAULT") none
  modify (λ s. record s { current = opened })
  for_some opened (pure none)
      λ id. do modify_connection id (λ c. record c { is_default = true }); pure (some id)

-- vsql_m_connection
unfoldable pub connection : Action (Option ℕ)
unfolding schema open_default
connection = do
  s ← get
  for_some s.current (if s.connected then status (bytes "08003") >> pure none else open_default)
      λ id. do done ← schema id; pure (if done then some id else none)
