-- ===== src/Connect.antt =====
-- The connection statements: vsql_m_find to vsql_m_disconnect
-- (vsql/std_2_13_1_sql_client_module_definition.c).
pub mod Refused
use vsql.Base.{
  ℕ, zero, suc, ◌==◌, Bool, true, false, not, ◌&&◌, ◌||◌, Option, none, some, List, [], ◌∷◌,
  if◌then◌else◌,
}
use vsql.Base.Bytes.{Bytes, bytes, str_eq}
use vsql.Text.Name.{name}
use vsql.Runtime.{Runtime, Connection}
use vsql.Action.{Action, Done, pure, ◌>>=◌, ◌>>◌, for_some, get, modify}
use vsql.Diagnostics.{lookup, current_connection, status}
use vsql.Session.{modify_connection, close, close_connections, open_connection}

-- vsql_m_find
unfoldable pub find : Bytes → List Connection → Option ℕ
unfolding str_eq
find n [] = none
find n (c ∷ cs) = if not c.is_default && str_eq c.name n then some c.id else find n cs

-- vsql_m_find_default
unfoldable pub find_default : List Connection → Option ℕ
find_default [] = none
find_default (c ∷ cs) = if c.is_default then some c.id else find_default cs

abbrev pub is_active : Option Connection → Bool
is_active none = false
is_active (some c) = c.active

-- vsql_m_switch
unfoldable pub switch : Action Bool
switch = do
  modify (λ s. record s { connected = true })
  s ← get
  if is_active (current_connection s) then status (bytes "0A001") >> pure false else pure true

-- The new SQL-connection of a CONNECT, which is the current one.
unfoldable pub connected_to : ℕ → (Connection → Connection) → Action Done
unfolding modify_connection
connected_to id f = do
  modify_connection id f
  modify (λ s. record s { current = some id })
  status (bytes "00000")

-- CONNECT TO DEFAULT
unfoldable pub connect_default : Action Done
unfolding find_default open_connection connected_to
connect_default = do
  s ← get
  for_some (find_default s.connections)
      (do
        opened ← open_connection (bytes "DEFAULT") none
        for_some opened (pure tt) λ id. connected_to id (λ c. record c { is_default = true }))
      λ id. status (bytes "08002")

-- CONNECT TO a server, with the connection name `n`
unfoldable pub connect_named : Bytes → Bytes → Option Bytes → Action Done
unfolding find open_connection connected_to
connect_named server n user = do
  s ← get
  for_some (find n s.connections)
      (do
        opened ← open_connection server user
        for_some opened (pure tt) λ id. connected_to id (λ c. record c { name = n }))
      λ id. status (bytes "08002")

abbrev pub is_empty : Bytes → Bool
is_empty [] = true
is_empty (b ∷ s) = false

-- The connection name, which is the server name if there is no AS.
abbrev pub connection_name : Bytes → Option Bytes → Bytes
connection_name server none = name server
connection_name server (some n) = name n

abbrev pub is_bad_user : Option Bytes → Bool
is_bad_user none = false
is_bad_user (some user) = is_empty (name user)

unfoldable pub connect_server : Bytes → Option Bytes → Option Bytes → Action Done
unfolding connect_named
connect_server server as_name user =
    if is_bad_user user
    then status (bytes "28000")
    else if is_empty (connection_name server as_name)
    then status (bytes "2E000")
    else connect_named server (connection_name server as_name) user

-- vsql_m_connect. The server is `none` for CONNECT TO DEFAULT.
unfoldable pub connect : Option Bytes → Option Bytes → Option Bytes → Action Done
unfolding switch connect_default connect_server
connect server as_name user = do
  free ← switch
  if not free then pure tt else for_some server connect_default λ t. connect_server t as_name user

-- The SQL-connection is selected.
unfoldable pub select_connection : Option ℕ → Action Done
select_connection found =
    for_some found (status (bytes "08003"))
      λ id. do modify (λ s. record s { current = some id }); status (bytes "00000")

-- vsql_m_set_connection. The name is `none` for DEFAULT.
unfoldable pub set_connection : Option Bytes → Action Done
unfolding switch find find_default select_connection
set_connection to = do
  free ← switch
  s ← get
  if not free
      then pure tt
      else for_some to (select_connection (find_default s.connections)) λ n.
        if is_empty (name n)
        then status (bytes "2E000")
        else select_connection (find (name n) s.connections)

-- What a <disconnect statement> names.
pub data Which : Type 0 where
  named : Bytes → Which
  default all current : Which

-- Is one of the SQL-connections that are to be disconnected active?
unfoldable pub any_active : (Connection → Bool) → List Connection → Bool
any_active chosen [] = false
any_active chosen (c ∷ cs) = (chosen c && c.active) || any_active chosen cs

-- DISCONNECT of one SQL-connection
unfoldable pub disconnect_one : Option ℕ → Action Done
unfolding any_active close
disconnect_one found = for_some found (status (bytes "08003")) λ id. do
  s ← get
  if any_active (λ c. c.id == id) s.connections
      then status (bytes "25001")
      else (do close id; status (bytes "00000"))

-- DISCONNECT ALL
unfoldable pub disconnect_all : Action Done
unfolding any_active close_connections
disconnect_all = do
  s ← get
  if any_active (λ c. true) s.connections
      then status (bytes "25001")
      else (do close_connections; status (bytes "00000"))

-- vsql_m_disconnect
unfoldable pub disconnect : Which → Action Done
unfolding find find_default disconnect_one disconnect_all
disconnect which = do
  modify (λ s. record s { connected = true })
  s ← get
  elim which [
    | named n ↦
        if is_empty (name n)
        then status (bytes "2E000")
        else disconnect_one (find (name n) s.connections)
    | default ↦ disconnect_one (find_default s.connections)
    | current ↦ disconnect_one s.current
    | all ↦ disconnect_all
  ]
