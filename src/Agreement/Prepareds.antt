-- ===== src/Agreement/Prepareds.antt =====
-- The status after the statements of prepared statements, up to the using clauses
-- (vsql/std_2_20_7_prepare_statement.c).
use vsql.Base.{
  ℕ, zero, suc, ◌+◌, refl, true, false, not, Option, none, some, List, [], ◌∷◌, if◌then◌else◌,
}
use vsql.Base.Ints.{ℤ}
use vsql.Base.Bytes.{Bytes, bytes, holds}
use vsql.Runtime.{Prepared}
use vsql.Item.{reset_item, Item, NumberField, StringField}
use vsql.Action.{pure, ◌>>=◌, for_some, modify_area}
use vsql.Action.Hoare.{
  Keeps, Ends, Out, is_none, Keeps-pure, Keeps-if, Keeps-bind, Keeps-modify, Keeps-this_module,
  Keeps-for_some, Out-pure, Out-bind, Out-first, Out-Ends, Out-for_some, Out-option, Out-bool,
  Ends-Out, Ends-bind, Ends-if, Ends-for_some, Ends-first,
}
use vsql.Diagnostics.{status}
use vsql.Diagnostics.Agrees.{Agrees, status-Agrees, diag-Agrees}
use vsql.Session.{with_connection}
use vsql.Prepared.{
  find, is_open, open_cursor_of, deallocate, prepared_statement, prepare_on, prepare_new, prepare,
  deallocate_prepare, number_codes, string_codes, describe_numbers, copy_unless_empty,
  describe_strings, describe_column, describe,
}
use vsql.Descriptor.{active_connection}
use vsql.Agreement.Rules.{agree_keeps}
use vsql.Agreement.Sessions.{refuse}
use vsql.Agreement.Statements.{in_connection}
use vsql.Agreement.Descriptors.{descriptor-Agrees, on_active}

is_open-Agrees : (h : ℕ) → Keeps Agrees (is_open h)
unfolding is_open
is_open-Agrees h = search agree_keeps depth 9

open_cursor_of-Agrees :
    (left i : ℕ) (name : Bytes) (stmts : List (Option ℕ))
    → Keeps Agrees (open_cursor_of left i name stmts)
unfolding open_cursor_of
open_cursor_of-Agrees zero i name stmts = Keeps-pure none
open_cursor_of-Agrees (suc left) i name [] = Keeps-pure none
open_cursor_of-Agrees (suc left) i name (slot ∷ slots) = Keeps-bind _ _ Keeps-this_module λ m.
    Keeps-bind _ _
      (Keeps-if (holds (m.cursor_statements i) name) _ _
        (Keeps-for_some slot _ _ (Keeps-pure false) is_open-Agrees) (Keeps-pure false))
      λ opened.
        Keeps-if opened _ _ (Keeps-pure (some i)) (open_cursor_of-Agrees left (i + 1) name slots)

area_keeps : (name : Bytes) → Keeps Agrees (modify_area (λ a. record a { cursor_name = some name }))
unfolding modify_area
area_keeps name = Keeps-modify _ (λ s h. h)

-- A prepared statement that is not deallocated has said why.
deallocate-Agrees : (c : ℕ) (p : Prepared) → Out not Agrees (deallocate c p)
unfolding deallocate
deallocate-Agrees c p = Out-bind _ _ λ m. Out-bind _ _ λ stmts. Out-bind _ _ λ opened.
    Out-for_some opened _ _ (Out-bind _ _ λ _. Out-bind _ _ λ _. Out-pure true refl) λ i.
      Out-first _ _ (status-Agrees _)
        λ _. Keeps-bind _ _ (area_keeps (m.cursor_names i)) λ _. Keeps-pure false

pub prepared_statement-Agrees : (name : Bytes) → Out is_none Agrees (prepared_statement name)
unfolding prepared_statement for_some
prepared_statement-Agrees name = Out-bind _ _ λ m. in_connection _ (Keeps-pure none) λ id.
    Out-bind _ _ λ s.
      Out-for_some (find m.id name _) _ _ (refuse _ none (status-Agrees _))
        λ p. Out-pure (some p) refl

prepare_on-Agrees : (c h : ℕ) (name sql : Bytes) → Ends Agrees (prepare_on c h name sql)
unfolding prepare_on
prepare_on-Agrees c h name sql = Ends-bind _ _ λ m.
    Ends-bind _ _
      λ _. Ends-bind _ _ λ r. Ends-first _ _ (diag-Agrees _ _ _) λ _. search agree_keeps depth 9

prepare_new-Agrees : (c handle : ℕ) (name sql : Bytes) → Ends Agrees (prepare_new c handle name sql)
unfolding prepare_new
prepare_new-Agrees c handle name sql = Ends-bind _ _ λ there. Ends-bind _ _ λ copied.
    Ends-for_some copied _ _ (status-Agrees _)
      λ text. Ends-bind _ _ λ r. Ends-if _ _ _ (diag-Agrees _ _ _) (prepare_on-Agrees _ _ _ _)

-- The statement that has the name is deallocated first, if there is one.
replaced-Agrees :
    (c handle : ℕ) (name sql : Bytes) (there : Option Prepared)
    → Ends Agrees (
        for_some there (pure true) (deallocate c) >>= λ gone.
        if gone then prepare_new c handle name sql else pure tt)
replaced-Agrees c handle name sql there = Ends-Out _ (
    Out-bool _ _ (Out-for_some there _ _ (Out-pure true refl) λ p. deallocate-Agrees c p)
      (Keeps-pure tt) (Out-Ends _ (prepare_new-Agrees c handle name sql)))

pub prepare-Agrees : (name sql : Bytes) → Ends Agrees (prepare name sql)
unfolding prepare for_some
prepare-Agrees name sql = Ends-bind _ _ λ m. Ends-Out _ (
    in_connection _ (Keeps-pure tt)
      λ id. Out-bind _ _ λ s. Out-Ends _ (replaced-Agrees id _ name sql _))

deallocated-Agrees :
    (c : ℕ) (p : Prepared)
    → Ends Agrees (deallocate c p >>= λ gone. if gone then status (bytes "00000") else pure tt)
deallocated-Agrees c p =
    Ends-Out _ (Out-bool _ _ (deallocate-Agrees c p) (Keeps-pure tt) (Out-Ends _ (status-Agrees _)))

pub deallocate_prepare-Agrees : (name : Bytes) → Ends Agrees (deallocate_prepare name)
unfolding deallocate_prepare active_connection with_connection
deallocate_prepare-Agrees name = Ends-bind _ _ λ m. Ends-Out _ (
    on_active tt
      (λ id d.
        for_some (find m.id name d.prepared) (status (bytes "26000"))
          λ p. deallocate id p >>= λ gone. if gone then status (bytes "00000") else pure tt)
      λ id d. Out-Ends _ (Ends-for_some _ _ _ (status-Agrees _) λ p. deallocated-Agrees id p))

describe_numbers-Agrees :
    (h column : ℕ) (codes : List (ℤ × NumberField)) (item : Item)
    → Keeps Agrees (describe_numbers h column codes item)
unfolding describe_numbers
describe_numbers-Agrees h column [] item = Keeps-pure item
describe_numbers-Agrees h column ((code, field) ∷ rest) item =
    Keeps-bind _ _ (search agree_keeps) λ r. describe_numbers-Agrees h column rest _

copy_unless_empty-Agrees :
    (s : Bytes) (f : StringField) (item : Item) → Keeps Agrees (copy_unless_empty s f item)
unfolding copy_unless_empty
copy_unless_empty-Agrees [] f item = Keeps-pure item
copy_unless_empty-Agrees (b ∷ s) f item = search agree_keeps

describe_strings-Agrees :
    (h column : ℕ) (codes : List (ℤ × StringField)) (item : Item)
    → Keeps Agrees (describe_strings h column codes item)
unfolding describe_strings
describe_strings-Agrees h column [] item = Keeps-pure item
describe_strings-Agrees h column ((code, field) ∷ rest) item =
    Keeps-bind _ _ (search agree_keeps) λ r.
      Keeps-bind _ _ (copy_unless_empty-Agrees _ field item)
        λ changed. describe_strings-Agrees h column rest changed

describe_column-Agrees : (h column : ℕ) (item : Item) → Keeps Agrees (describe_column h column item)
unfolding describe_column
describe_column-Agrees h column item =
    Keeps-bind _ _ (describe_numbers-Agrees h column number_codes (reset_item item)) λ numbers.
      Keeps-bind _ _ (describe_strings-Agrees h column string_codes numbers)
        λ described. Keeps-pure _

pub describe-Agrees :
    (statement name : Bytes) (scope : Option ℕ) → Ends Agrees (describe statement name scope)
unfolding describe for_some
describe-Agrees statement name scope = Ends-Out _ (
    Out-option _ _ (prepared_statement-Agrees statement) (Keeps-pure tt) λ p.
      Out-option _ _ (descriptor-Agrees name scope) (Keeps-pure tt) λ (c, d). Out-Ends _ (
        Ends-bind _ _ λ r. Ends-bind _ _ λ _.
          Ends-if _ _ _ (status-Agrees _)
            (Ends-bind _ _ λ items. Ends-bind _ _ λ _. status-Agrees _)))
