-- ===== src/Agreement/Statements.antt =====
-- The status after the statements that are executed, and those of a cursor
-- (vsql/std_2_13_1_sql_client_module_definition.c, vsql/std_2_14_7_select_statement_single_row.c,
-- vsql/std_2_14_1_declare_cursor.c).
use vsql.Base.{ℕ, Bool, Option, none, some, List, arith}
use vsql.Base.Ints.{ℤ}
use vsql.Base.Bytes.{Bytes}
use vsql.Cli.{Param}
use vsql.Runtime.{Runtime}
use vsql.Action.{Action, ◌>>=◌, for_some, modify_area}
use vsql.Action.Hoare.{
  Keeps, Ends, Ends-Keeps, Keeps-get, Out, Keeps-modify, Keeps-pure, Out-bind, Out-first, Out-Ends,
  Out-option, Ends-Out, Ends-bind, Ends-if, Keeps-for_some, Ends-first, Keeps-bind,
}
use vsql.Diagnostics.Agrees.{Agrees, status-Agrees, diag-Agrees}
use vsql.Session.{connection}
use vsql.Statement.{exec, run_on, run, execute_statement, start, set_ended, end_transaction}
use vsql.Target.{Target, single_row, select_row, select}
use vsql.Agreement.Rules.{agree_keeps, modify_connection-Agrees}
use vsql.Agreement.Sessions.{connection-Agrees}

module _ {A : Type 0} {test : A → Bool} where
  -- A statement of the current SQL-connection, if there is one.
  pub in_connection :
      (f : Option ℕ → Action A)
      → Keeps Agrees (f none)
      → ((id : ℕ) → Out test Agrees (f (some id)))
      → Out test Agrees (connection >>= f)
  in_connection f h k = Out-option connection f connection-Agrees h k

pub exec-Agrees : (c h : ℕ) (sql : Bytes) (params : List Param) → Ends Agrees (exec c h sql params)
unfolding exec
exec-Agrees c h sql params = Ends-bind _ _ λ _.
    Ends-bind _ _ λ _.
      Ends-bind _ _ λ _. Ends-bind _ _ λ rc. Ends-first _ _ (diag-Agrees _ _ _) λ _. Keeps-pure _

run_on-Agrees :
    (c handle : ℕ) (sql : Bytes) (params : List Param) → Ends Agrees (run_on c handle sql params)
unfolding run_on
run_on-Agrees c handle sql params = Ends-bind _ _ λ r.
    Ends-if _ _ _ (Ends-first _ _ (diag-Agrees _ _ _) λ _. Keeps-pure none)
      (Ends-first _ _ (exec-Agrees _ _ _ _) λ done. search agree_keeps)

pub run-Agrees : (sql : Bytes) (params : List Param) → Ends Agrees (run sql params)
unfolding run for_some
run-Agrees sql params =
    Ends-Out _
      (in_connection _ (Keeps-pure none) λ id. Out-bind _ _ λ s. Out-Ends _ (run_on-Agrees _ _ _ _))

pub execute_statement-Agrees :
    (sql : Bytes) (params : List Param) → Ends Agrees (execute_statement sql params)
unfolding execute_statement
execute_statement-Agrees sql params = Ends-first _ _ (run-Agrees sql params) λ h. search agree_keeps

pub start-Agrees : Ends Agrees start
unfolding start for_some
start-Agrees = Ends-Out _ (
    in_connection _ (Keeps-pure tt) λ id.
      Out-bind _ _ λ s. Out-bind _ _ λ r. Out-first _ _ (diag-Agrees _ _ _) λ _. search agree_keeps)

-- What a statement says of the SQL-transaction leaves the conditions.
set_ended-Agrees :
    (active : Bool) (completion rc : ℤ) (code : Bytes)
    → Keeps Agrees (modify_area (set_ended active completion rc code))
unfolding modify_area set_ended
set_ended-Agrees active completion rc code = Keeps-modify _ (λ s h. ended s h)
  where
    ended :
        (s : Runtime)
        → Agrees s
        → Agrees (record s { area = set_ended active completion rc code s.area })
    ended s h = ground arith

pub end_transaction-Agrees : (completion : ℤ) → Ends Agrees (end_transaction completion)
unfolding end_transaction for_some
end_transaction-Agrees completion = Ends-Out _ (
    in_connection _ (Keeps-pure tt) λ id. Out-bind _ _ λ s. Out-bind _ _ λ r.
      Out-first _ _ (diag-Agrees _ _ _) λ _.
        Keeps-bind _ _ Keeps-get
          λ t. Keeps-bind _ _ (set_ended-Agrees _ _ _ _) λ _. modify_connection-Agrees _ _)

single_row-Agrees : (h : ℕ) (truncated : Bool) → Ends Agrees (single_row h truncated)
unfolding single_row
single_row-Agrees h truncated = Ends-bind _ _ λ r. search (Ends-if, status-Agrees, diag-Agrees)

select_row-Agrees : (h : ℕ) (targets : List Target) → Ends Agrees (select_row h targets)
unfolding select_row
select_row-Agrees h targets = Ends-bind _ _ λ n.
    Ends-if _ _ _ (Ends-first _ _ (status-Agrees _) λ _. search agree_keeps) (
      Ends-bind _ _ λ rc. Ends-bind _ _ λ row.
        Ends-if _ _ _ (Ends-first _ _ (diag-Agrees _ _ _) λ _. search agree_keeps)
          (Ends-first _ _ (single_row-Agrees _ _) λ _. search agree_keeps))

pub select-Agrees :
    (sql : Bytes) (params : List Param) (targets : List Target)
    → Ends Agrees (select sql params targets)
unfolding select
select-Agrees sql params targets = Ends-first _ _ (run-Agrees sql params) λ h.
    Keeps-for_some _ _ _ (Keeps-pure _) λ handle. Ends-Keeps _ (select_row-Agrees handle targets)
