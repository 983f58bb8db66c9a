-- ===== src/Agreement/Dynamic.antt =====
-- The status after the statements of dynamic SQL that bind and assign values
-- (vsql/std_2_20_7_prepare_statement.c).
use vsql.Base.{ℕ, refl, ◌||◌, Bool, true, false, not, Option, none, some, if◌then◌else◌}
use vsql.Base.Ints.{ℤ, pos, eqz, lez}
use vsql.Base.Bytes.{Bytes, bytes}
use vsql.Runtime.{Prepared}
use vsql.Action.{pure, ◌>>=◌, ◌>>◌, for_some, modify_area}
use vsql.Action.Hoare.{
  Keeps, Ends, Out, Ends-Keeps, Keeps-pure, Keeps-if, Keeps-bind, Out-pure, Out-if, Out-bind,
  Out-first, Out-Ends, Out-for_some, Out-option, Out-bool, Ends-Out, Ends-bind, Ends-if,
  Ends-for_some, Ends-first,
}
use vsql.Cli.{stmt, failed}
use vsql.Diagnostics.{status, diag}
use vsql.Descriptor.{descriptor, items}
use vsql.Diagnostics.Agrees.{Agrees, status-Agrees, diag-Agrees}
use vsql.Text.Scan.{scan}
use vsql.Using.{
  Input, Output, bound, bind_descriptor, bind, into_status, into_descriptor, into_targets, into,
}
use vsql.Dynamic.{
  check_no_output, check_output, only_row, one_row, execute_current, execute_prepared, immediate_on,
  execute_immediate, open_bound, open_on, open_dynamic, fetch_dynamic, set_dynamic, is_missing,
}
use vsql.Cursor.{on_current}
use vsql.Agreement.Rules.{agree_keeps}
use vsql.Agreement.Sessions.{refuse}
use vsql.Agreement.Statements.{in_connection}
use vsql.Agreement.Cursors.{cursor-Agrees, drop_cursor-Agrees}
use vsql.Agreement.Descriptors.{descriptor-Agrees, items-Agrees}
use vsql.Agreement.Prepareds.{prepared_statement-Agrees}

bound-Agrees : (h : ℕ) (rc : ℤ) → Out not Agrees (bound h rc)
unfolding bound
bound-Agrees h rc = Out-if _ _ _ (refuse _ false (diag-Agrees _ _ _)) (Out-pure true refl)

bind_descriptor-Agrees :
    (h n : ℕ) (name : Bytes) (scope : Option ℕ) → Out not Agrees (bind_descriptor h n name scope)
unfolding bind_descriptor for_some
bind_descriptor-Agrees h n name scope =
    Out-option _ _ (descriptor-Agrees name scope) (Keeps-pure false) λ (c, d).
      Out-bool _ _ (items-Agrees d _ _) (Keeps-pure false) (
        Out-bind _ _ λ r.
          Out-bind _ _
            λ _. Out-for_some r.0 _ _ (bound-Agrees h _) λ code. refuse _ false (status-Agrees _))

-- A using clause that cannot be bound has said why.
bind-Agrees : (h : ℕ) (sql : Bytes) (input : Input) → Out not Agrees (bind h sql input)
unfolding bind
bind-Agrees h sql input =
    Out-for_some input.descriptor _ _
      (Out-if _ _ _ (Out-if _ _ _ (refuse _ false (status-Agrees _)) (Out-pure true refl))
        (Out-if _ _ _ (refuse _ false (status-Agrees _)) (Out-bind _ _ λ rc. bound-Agrees h rc)))
      λ name. bind_descriptor-Agrees h _ name input.scope

into_status-Agrees : (h : ℕ) (rc : ℤ) (truncated : Bool) → Ends Agrees (into_status h rc truncated)
unfolding into_status
into_status-Agrees h rc truncated =
    Ends-if _ _ _ (Ends-first _ _ (diag-Agrees _ _ _) λ _. Keeps-pure false)
      (Ends-first _ _ (status-Agrees _) λ _. Keeps-pure true)

into_descriptor-Agrees :
    (h : ℕ) (rc columns : ℤ) (name : Bytes) (scope : Option ℕ)
    → Ends Agrees (into_descriptor h rc columns name scope)
unfolding into_descriptor for_some
into_descriptor-Agrees h rc columns name scope = Ends-Out _ (
    Out-option _ _ (descriptor-Agrees name scope) (Keeps-pure false) λ (c, d).
      Out-bool _ _ (items-Agrees d _ _) (Keeps-pure false)
        (Out-bind _ _ λ r. Out-bind _ _ λ _. Out-Ends _ (into_status-Agrees h _ _)))

into_targets-Agrees :
    (h : ℕ) (rc columns : ℤ) (output : Output) → Ends Agrees (into_targets h rc columns output)
unfolding into_targets
into_targets-Agrees h rc columns output =
    Ends-if _ _ _ (Ends-first _ _ (status-Agrees _) λ _. Keeps-pure _)
      (Ends-bind _ _ λ row. Ends-first _ _ (into_status-Agrees h _ _) λ done. Keeps-pure _)

into-Agrees : (h : ℕ) (fetched : ℤ) (output : Output) → Ends Agrees (into h fetched output)
unfolding into
into-Agrees h fetched output = Ends-bind _ _ λ n.
    Ends-if _ _ _ (Ends-first _ _ (diag-Agrees _ _ _) λ _. Keeps-pure _) (
      Ends-for_some output.descriptor _ _ (into_targets-Agrees h _ _ output)
        λ name. Ends-first _ _ (into_descriptor-Agrees h _ _ name _) λ done. Keeps-pure _)

no_items-Agrees :
    (name : Bytes) (scope : Option ℕ)
    → Out not Agrees (
        descriptor name scope >>= λ found.
        for_some found (pure false) λ p. items p.1 (pos 0) (bytes "07002"))
unfolding for_some
no_items-Agrees name scope =
    Out-option _ _ (descriptor-Agrees name scope) (Keeps-pure false) λ (c, d). items-Agrees d _ _

check_no_output-Agrees : (output : Output) → Out not Agrees (check_no_output output)
unfolding check_no_output
check_no_output-Agrees output =
    Out-for_some output.descriptor _ _
      (Out-if _ _ _ (Out-pure true refl) (refuse _ false (status-Agrees _)))
      λ name. no_items-Agrees name output.scope

check_output-Agrees :
    (p : Prepared) (columns : ℤ) (output : Output) → Out not Agrees (check_output p columns output)
unfolding check_output
check_output-Agrees p columns output =
    Out-if (lez columns (pos 0)) _ _ (check_no_output-Agrees output) (
      Out-if (not (scan p.sql).single) _ _ (refuse (status (bytes "07003")) false (status-Agrees _))
        (Out-if (is_missing output) _ _ (refuse (status (bytes "07007")) false (status-Agrees _)) (
          Out-bind (modify_area (set_dynamic (bytes "SELECT") (pos 41))) _
            λ _. Out-pure true refl)))

only_row-Agrees : (h : ℕ) → Keeps Agrees (only_row h)
unfolding only_row
only_row-Agrees h = search agree_keeps

one_row-Agrees : (h : ℕ) (output : Output) → Ends Agrees (one_row h output)
unfolding one_row
one_row-Agrees h output =
    Ends-bind _ _
      λ r. Ends-first _ _ (into-Agrees h _ output) λ done. search (agree_keeps, only_row-Agrees)

pub execute_prepared-Agrees :
    (name : Bytes) (input : Input) (output : Output)
    → Ends Agrees (execute_prepared name input output)
unfolding execute_prepared for_some
execute_prepared-Agrees name input output = Ends-Out _ (
    Out-option _ _ (prepared_statement-Agrees name) (Keeps-pure _) λ p. Out-bind _ _ λ _.
      Out-bind _ _ λ columns.
        Out-bool _ _ (check_output-Agrees p columns output)
          (Keeps-bind _ _ (Keeps-pure false)
            λ b. Keeps-if (not b) _ _ (Keeps-pure _) (Ends-Keeps _ (executed p columns)))
          (Out-bool _ _ (bind-Agrees p.stmt p.sql input) (Keeps-pure _)
            (Out-Ends _ (executed p columns))))
  where
    executed :
        (p : Prepared) (columns : ℤ)
        → Ends Agrees (
            execute_current p.stmt >>= λ rc.
            if eqz columns (pos 0) || failed rc
            then diag rc stmt p.stmt >> pure (false, output.targets)
            else one_row p.stmt output)
    executed p columns = Ends-bind _ _ λ rc.
        Ends-if _ _ _ (Ends-first _ _ (diag-Agrees _ _ _) λ _. Keeps-pure _)
          (one_row-Agrees p.stmt output)

immediate_on-Agrees : (c h : ℕ) (sql : Bytes) → Ends Agrees (immediate_on c h sql)
unfolding immediate_on
immediate_on-Agrees c h sql = Ends-bind _ _ λ p. Ends-bind _ _ λ n.
    Ends-first _ _ (Ends-if _ _ _ (status-Agrees _) (Ends-bind _ _ λ rc. diag-Agrees _ _ _))
      λ _. search agree_keeps

pub execute_immediate-Agrees : (sql : Bytes) → Ends Agrees (execute_immediate sql)
unfolding execute_immediate for_some
execute_immediate-Agrees sql = Ends-Out _ (
    in_connection _ (Keeps-pure tt) λ id. Out-bind _ _ λ s. Out-Ends _ (
      Ends-if _ _ _ (status-Agrees _)
        (Ends-bind _ _ λ r. Ends-if _ _ _ (diag-Agrees _ _ _) (immediate_on-Agrees id _ sql))))

open_bound-Agrees : (c h : ℕ) (sql : Bytes) (input : Input) → Ends Agrees (open_bound c h sql input)
unfolding open_bound
open_bound-Agrees c h sql input = Ends-Out _ (
    Out-bool _ _ (bind-Agrees h sql input) (Keeps-pure false)
      (Out-bind _ _ λ rc. Out-first _ _ (diag-Agrees _ _ _) λ _. Keeps-pure _))

open_on-Agrees : (c i h : ℕ) (sql : Bytes) (input : Input) → Ends Agrees (open_on c i h sql input)
unfolding open_on
open_on-Agrees c i h sql input = Ends-bind _ _ λ r.
    Ends-if _ _ _ (Ends-first _ _ (diag-Agrees _ _ _) λ _. search (agree_keeps, drop_cursor-Agrees))
      (Ends-first _ _ (open_bound-Agrees c h sql input)
        λ done. search (agree_keeps, drop_cursor-Agrees))

pub open_dynamic-Agrees :
    (i : ℕ) (name : Bytes) (hold : Bool) (statement : Bytes) (input : Input)
    → Ends Agrees (open_dynamic i name hold statement input)
unfolding open_dynamic for_some on_current
open_dynamic-Agrees i name hold statement input = Ends-Out _ (
    Out-option _ _ (prepared_statement-Agrees statement) (Keeps-pure tt) λ p.
      Out-bind _ _ λ columns. Out-if _ _ _ (Out-Ends _ (status-Agrees _)) (
        Out-option _ _ (cursor-Agrees i (some name) hold) (Keeps-pure tt)
          λ h. Out-bind _ _ λ s. Out-Ends _ (open_on-Agrees _ i h p.sql input)))

pub fetch_dynamic-Agrees : (i : ℕ) (output : Output) → Ends Agrees (fetch_dynamic i output)
unfolding fetch_dynamic for_some
fetch_dynamic-Agrees i output = Ends-Out _ (
    Out-option _ _ (cursor-Agrees i none false) (Keeps-pure _)
      λ h. Out-bind _ _ λ r. Out-Ends _ (into-Agrees h _ output))
