-- ===== src/Diagnostics/Frame.antt =====
-- Raising conditions changes the diagnostics area, the status parameter and the calls, and nothing
-- else of the state (vsql_m_clear to vsql_m_diag of vsql/std_2_13_1_sql_client_module_definition.c).
use vsql.Base.{ℕ, zero, suc, ◌+◌, List, [], ◌∷◌}
use vsql.Base.Ints.{ℤ}
use vsql.Base.Bytes.{Bytes}
use vsql.Cli.{Call, HandleType, Log}
use vsql.Runtime.{Runtime, Area, Condition}
use vsql.Action.{call, allocate, copy, modify_area, set_sqlstate}
use vsql.Action.Hoare.{Keeps, Keeps-pure, Keeps-if, Keeps-bind, Keeps-modify, keeps_rules}
use vsql.Diagnostics.{
  clear, begin, set_origin, raise, status, diag_text, constraint_fields, diag_message, diag_records,
  first_status, diag_handle, diag,
}

-- What does not depend on the diagnostics area, the status parameter and the calls.
module _ (P : Runtime → Type 0)
    (frame : (s : Runtime) (l : Log) (a : Area) (q : Bytes)
      → P s
      → P (record s { log = l; area = a; sqlstate = q })) where
  pub call-Frame : (c : Call) → Keeps P (call c)
  unfolding call
  call-Frame c = record { at = λ m s h. frame s _ s.area s.sqlstate h }

  pub area-Frame : (f : Area → Area) → Keeps P (modify_area f)
  unfolding modify_area
  area-Frame f = Keeps-modify _ (λ s h. frame s s.log _ s.sqlstate h)

  pub sqlstate-Frame : (code : Bytes) → Keeps P (set_sqlstate code)
  unfolding set_sqlstate
  sqlstate-Frame code = Keeps-modify _ (λ s h. frame s s.log s.area code h)

  pub allocate-Frame : (n : ℕ) → Keeps P (allocate n)
  unfolding allocate
  allocate-Frame n = search (keeps_rules, call-Frame)

  pub copy-Frame : (v : Bytes) → Keeps P (copy v)
  unfolding copy
  copy-Frame v = search (keeps_rules, allocate-Frame)

  pub clear-Frame : Keeps P clear
  unfolding clear
  clear-Frame = search area-Frame

  pub begin-Frame : (function : Bytes) (code : ℤ) → Keeps P (begin function code)
  unfolding begin
  begin-Frame function code = search (keeps_rules, area-Frame, clear-Frame)

  set_origin-Frame : Keeps P set_origin
  unfolding set_origin
  set_origin-Frame = search (keeps_rules, area-Frame, copy-Frame) depth 9

  raise-Frame : (code text : Bytes) → Keeps P (raise code text)
  unfolding raise
  raise-Frame code text =
      search (keeps_rules, area-Frame, copy-Frame, allocate-Frame, set_origin-Frame) depth 9

  pub status-Frame : (code : Bytes) → Keeps P (status code)
  unfolding status
  status-Frame code = search (keeps_rules, sqlstate-Frame, clear-Frame, raise-Frame) depth 9

  diag_text-Frame : (type : HandleType) (h i : ℕ) (field : ℤ) → Keeps P (diag_text type h i field)
  unfolding diag_text
  diag_text-Frame type h i field = search (keeps_rules, call-Frame, copy-Frame)

  constraint_fields-Frame : (type : HandleType) (h i : ℕ) → Keeps P (constraint_fields type h i)
  unfolding constraint_fields
  constraint_fields-Frame type h i = search (keeps_rules, area-Frame, diag_text-Frame) depth 12

  diag_message-Frame :
      (type : HandleType) (h i size : ℕ) (state : Bytes)
      → Keeps P (diag_message type h i size state)
  unfolding diag_message
  diag_message-Frame type h i size state = search (keeps_rules, call-Frame, allocate-Frame) depth 9

  diag_records-Frame :
      (left i : ℕ) (type : HandleType) (h : ℕ) → Keeps P (diag_records left i type h)
  unfolding diag_records
  diag_records-Frame zero i type h = Keeps-pure tt
  diag_records-Frame (suc left) i type h = Keeps-bind _ _ (call-Frame _) λ size.
      Keeps-bind _ _ (call-Frame _) λ r. Keeps-if _ _ _ (Keeps-pure tt) (
        Keeps-bind _ _ (diag_message-Frame _ _ _ _ _) λ found. Keeps-bind _ _ (raise-Frame _ _) λ _.
          Keeps-bind _ _ (constraint_fields-Frame _ _ _)
            λ _. diag_records-Frame left (i + 1) type h)

  first_status-Frame : (rc : ℤ) (cs : List Condition) → Keeps P (first_status rc cs)
  unfolding first_status
  first_status-Frame rc [] = status-Frame _
  first_status-Frame rc (c ∷ cs) = sqlstate-Frame _

  diag_handle-Frame : (rc : ℤ) (type : HandleType) (h : ℕ) → Keeps P (diag_handle rc type h)
  unfolding diag_handle
  diag_handle-Frame rc type h =
      search (keeps_rules, call-Frame, clear-Frame, diag_records-Frame, first_status-Frame) depth 12

  pub diag-Frame : (rc : ℤ) (type : HandleType) (h : ℕ) → Keeps P (diag rc type h)
  unfolding diag
  diag-Frame rc type h = search (keeps_rules, status-Frame, diag_handle-Frame)
