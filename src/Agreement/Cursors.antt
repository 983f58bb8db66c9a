-- ===== src/Agreement/Cursors.antt =====
-- The status after the statements of a cursor (vsql/std_2_14_1_declare_cursor.c).
use vsql.Base.{ℕ, refl, Bool, false, Option, none, some, List}
use vsql.Base.Ints.{ℤ}
use vsql.Base.Bytes.{Bytes}
use vsql.Cli.{Param}
use vsql.Action.{pure, ◌>>=◌, for_some}
use vsql.Action.Hoare.{
  Keeps, Ends, Out, is_none, Keeps-pure, Out-pure, Out-if, Out-bind, Out-first, Out-Ends,
  Out-for_some, Out-option, Ends-Out, Ends-bind, Ends-if, Ends-first, Keeps-bind,
}
use vsql.Diagnostics.Agrees.{Agrees, status-Agrees, diag-Agrees}
use vsql.Target.{Target}
use vsql.Cursor.{
  module_cursors, write_cursor, allocate_cursor, cursor_on, cursor, drop_cursor, open_cursor,
  fetch_row, fetch_cursor, close,
}
use vsql.Agreement.Rules.{agree_keeps, call-Agrees}
use vsql.Agreement.Sessions.{refuse}
use vsql.Agreement.Statements.{in_connection, exec-Agrees}

pub module_cursors-Agrees : (c : ℕ) → Keeps Agrees (module_cursors c)
unfolding module_cursors
module_cursors-Agrees c = search agree_keeps depth 14

write_cursor-Agrees : (c i : ℕ) (h : Option ℕ) → Keeps Agrees (write_cursor c i h)
unfolding write_cursor
write_cursor-Agrees c i h = search agree_keeps

ruleset cursor_keeps = (agree_keeps, write_cursor-Agrees)

allocate_cursor-Agrees :
    (c handle i : ℕ) (name : Bytes) (hold : Bool)
    → Out is_none Agrees (allocate_cursor c handle i name hold)
unfolding allocate_cursor
allocate_cursor-Agrees c handle i name hold = Out-bind _ _ λ r.
    Out-if _ _ _ (Out-first _ _ (diag-Agrees _ _ _) λ _. refused none) (
      Out-bind _ _ λ _. Out-bind _ _ λ named. Out-bind _ _ λ rc.
        Out-if _ _ _
          (Out-first _ _ (diag-Agrees _ _ _) λ _. Keeps-bind _ _ (call-Agrees _) λ _. refused none)
          (Out-pure _ refl))
  where
    refused : (slot : Option ℕ) → Keeps Agrees (write_cursor c i none >>= λ _. pure slot)
    refused slot = search cursor_keeps

cursor_on-Agrees :
    (c i : ℕ) (name : Option Bytes) (hold : Bool) (stmts : List (Option ℕ))
    → Out is_none Agrees (cursor_on c i name hold stmts)
unfolding cursor_on
cursor_on-Agrees c i name hold stmts =
    Out-for_some _ _ _
      (Out-for_some _ _ _ (refuse _ none (status-Agrees _))
        λ n. Out-bind _ _ λ s. allocate_cursor-Agrees _ _ _ _ _)
      λ h. Out-pure (some h) refl

pub cursor-Agrees :
    (i : ℕ) (name : Option Bytes) (hold : Bool) → Out is_none Agrees (cursor i name hold)
unfolding cursor for_some
cursor-Agrees i name hold = in_connection _ (Keeps-pure none) λ id. Out-bind _ _ λ stmts.
    Out-for_some stmts _ _ (refuse _ none (status-Agrees _))
      λ list. cursor_on-Agrees id i name hold list

pub drop_cursor-Agrees : (c i h : ℕ) → Keeps Agrees (drop_cursor c i h)
unfolding drop_cursor
drop_cursor-Agrees c i h = search cursor_keeps

pub open_cursor-Agrees :
    (i : ℕ) (name : Bytes) (hold : Bool) (sql : Bytes) (params : List Param)
    → Ends Agrees (open_cursor i name hold sql params)
unfolding open_cursor for_some
open_cursor-Agrees i name hold sql params = Ends-Out _ (
    Out-option _ _ (cursor-Agrees i (some name) hold) (Keeps-pure tt) λ h.
      Out-bind _ _
        λ s. Out-first _ _ (exec-Agrees _ _ _ _) λ done. search (cursor_keeps, drop_cursor-Agrees))

fetch_row-Agrees : (h : ℕ) (rc : ℤ) (targets : List Target) → Ends Agrees (fetch_row h rc targets)
unfolding fetch_row
fetch_row-Agrees h rc targets = Ends-bind _ _ λ row.
    Ends-if _ _ _ (Ends-first _ _ (diag-Agrees _ _ _) λ _. Keeps-pure _)
      (Ends-first _ _ (status-Agrees _) λ _. Keeps-pure _)

pub fetch_cursor-Agrees : (i : ℕ) (targets : List Target) → Ends Agrees (fetch_cursor i targets)
unfolding fetch_cursor for_some
fetch_cursor-Agrees i targets = Ends-Out _ (
    Out-option _ _ (cursor-Agrees i none false) (Keeps-pure _) λ h. Out-bind _ _ λ r.
      Out-if _ _ _ (Out-Ends _ (fetch_row-Agrees h _ targets)) (
        Out-bind _ _ λ n.
          Out-if _ _ _ (refuse _ _ (status-Agrees _)) (Out-Ends _ (fetch_row-Agrees h _ targets))))

pub close-Agrees : (i : ℕ) → Ends Agrees (close i)
unfolding close for_some
close-Agrees i = Ends-Out _ (
    Out-option _ _ (cursor-Agrees i none false) (Keeps-pure tt)
      λ h. Out-bind _ _ λ r. Out-Ends _ (diag-Agrees _ _ _))
