-- ===== src/Diagnostics.antt =====
-- The first diagnostics area: vsql_m_clear to vsql_m_diag
-- (vsql/std_2_13_1_sql_client_module_definition.c).
pub mod Messages
pub mod Items
pub mod Agrees
pub mod Frame
pub mod Violated
use Messages.{message_of}
use vsql.Base.{
  ℕ, zero, suc, ◌+◌, ◌-◌, ◌*◌, ◌==◌, Bool, true, false, Option, none, some, List, [], ◌∷◌, ◌++◌,
  if◌then◌else◌, length, get_elem?, set,
}
use vsql.Base.Ints.{ℤ, pos, eqz, to_ℕ}
use vsql.Base.Bytes.{Bytes, bytes, str_eq, or_empty}
use vsql.Cli.{
  HandleType, Call, Reply, get_diag_field, get_diag_rec, failed, success, success_with_info,
  no_data, indicator_overflow,
}
use vsql.Cli.DiagField
use vsql.Runtime.{Runtime, Area, Condition, Connection}
use vsql.Action.{
  Action, Done, pure, ◌>>=◌, ◌>>◌, for_some, get, modify, call, allocate, copy, modify_area,
  set_sqlstate,
}

-- The SQL-connection at an address.
unfoldable pub lookup : ℕ → List Connection → Option Connection
lookup id [] = none
lookup id (c ∷ cs) = if c.id == id then some c else lookup id cs

unfoldable pub current_connection : Runtime → Option Connection
unfolding lookup for_some
current_connection s = elim s.current [ none ↦ none | some id ↦ lookup id s.connections ]

-- vsql_m_clear
unfoldable pub clear : Action Done
unfolding modify_area modify
clear = modify_area (λ a. record a { conditions = [] })

-- vsql_m_begin
unfoldable pub begin : Bytes → ℤ → Action Done
begin function code =
    clear
    >> modify_area (λ a. record a {
      command_function = function;
      command_function_code = code;
      dynamic_function = [];
      dynamic_function_code = pos 0;
      row_count = pos 0;
      transactions_committed = false;
      transactions_rolled_back = false;
      cursor_name = none;
    })

abbrev pub condition : Bytes → Option Bytes → Condition
condition code text = record {
  sqlstate = code;
  message = text;
  constraint_catalog = none;
  constraint_schema = none;
  constraint_name = none;
}

abbrev pub add_condition : Condition → Area → Area
add_condition c a = record a { conditions = a.conditions ++ c ∷ [] }

-- The CONNECTION_NAME and SERVER_NAME that vsql_m_raise takes from the current SQL-connection.
abbrev pub raising_name : Option Connection → Bytes
raising_name none = []
raising_name (some c) = if c.is_default then bytes "DEFAULT" else c.name

abbrev pub raising_server : Option Connection → Bytes
raising_server none = []
raising_server (some c) = or_empty c.server

-- The end of vsql_m_raise.
unfoldable pub set_origin : Action Done
unfolding current_connection
set_origin = do
  s ← get
  modify_area (λ a. record a { connection_name = raising_name (current_connection s) })
  server ← copy (raising_server (current_connection s))
  modify_area (λ a. record a { server_name = server })

-- vsql_m_raise. A condition that there is no memory for is not added.
unfoldable pub raise : Bytes → Bytes → Action Done
unfolding set_origin
raise code text = do
  s ← get
  there ← allocate (length s.area.conditions + 1)
  if there
      then (do
        message ← copy text
        modify_area (add_condition (condition code message))
        set_origin)
      else pure tt

-- vsql_m_status
unfoldable pub status : Bytes → Action Done
unfolding raise clear set_sqlstate str_eq
status code = do
  set_sqlstate code
  clear
  if str_eq code (bytes "00000") then pure tt else raise code (message_of code)

-- vsql_m_diag_text
unfoldable pub diag_text : HandleType → ℕ → ℕ → ℤ → Action (Option Bytes)
diag_text type handle i field = do
  r ← call (get_diag_field type handle i field)
  copy (or_empty r.string)

abbrev pub set_constraint :
    ℕ → Option Bytes → Option Bytes → Option Bytes → List Condition → List Condition
set_constraint i catalog schema name cs = elim (get_elem? cs i) [
  | none ↦ cs
  | some c ↦ set cs i (record c {
    constraint_catalog = catalog;
    constraint_schema = schema;
    constraint_name = name;
  })
]

-- The constraint of status record `i`, if its condition was added.
unfoldable pub constraint_fields : HandleType → ℕ → ℕ → Action Done
unfolding diag_text
constraint_fields type handle i = do
  s ← get
  if length s.area.conditions == i
      then (do
        catalog ← diag_text type handle i DiagField.constraint_catalog
        schema ← diag_text type handle i DiagField.constraint_schema
        name ← diag_text type handle i DiagField.constraint_name
        modify_area (λ a. record a {
          conditions = set_constraint (i - 1) catalog schema name a.conditions;
        }))
      else pure tt

-- The message of status record `i`, and its SQLSTATE, which both calls of SQLGetDiagRec write.
unfoldable pub diag_message : HandleType → ℕ → ℕ → ℕ → Bytes → Action (Bytes × Bytes)
diag_message type handle i size state = do
  there ← allocate (size + 1)
  if there
      then (do
        r ← call (get_diag_rec type handle i)
        pure (elim r.state [ none ↦ state | some x ↦ x ], or_empty r.string))
      else pure (state, [])

-- The loop of vsql_m_diag over status records `i` and after.
unfoldable pub diag_records : ℕ → ℕ → HandleType → ℕ → Action Done
unfolding raise constraint_fields diag_message
diag_records zero i type handle = pure tt
diag_records (suc left) i type handle = do
  size ← call (get_diag_field type handle i DiagField.message_octet_length)
  r ← call (get_diag_rec type handle i)
  if failed r.rc then pure tt else (do
    found ←
        diag_message type handle i (to_ℕ (elim size.number [ none ↦ pos 0 | some n ↦ n ]))
          (or_empty r.state)
    raise found.0 found.1
    constraint_fields type handle i
    diag_records left (i + 1) type handle)

-- The status parameter at the end of vsql_m_diag.
unfoldable pub first_status : ℤ → List Condition → Action Done
unfolding status set_sqlstate
first_status rc [] = status (if eqz rc success_with_info then bytes "01000" else bytes "HY000")
first_status rc (c ∷ cs) = set_sqlstate c.sqlstate

unfoldable pub diag_handle : ℤ → HandleType → ℕ → Action Done
unfolding clear diag_records first_status
diag_handle rc type handle = do
  clear
  n ← call (get_diag_field type handle 0 DiagField.number)
  diag_records (to_ℕ (elim n.number [ none ↦ pos 0 | some x ↦ x ])) 1 type handle
  s ← get
  first_status rc s.area.conditions

-- vsql_m_diag
unfoldable pub diag : ℤ → HandleType → ℕ → Action Done
unfolding status diag_handle
diag rc type handle =
    if eqz rc success
    then status (bytes "00000")
    else if eqz rc no_data
    then status (bytes "02000")
    else if eqz rc indicator_overflow
    then status (bytes "22022")
    else diag_handle rc type handle
