-- ===== src/Agreement/Descriptors.antt =====
-- The status after the statements of an SQL descriptor area
-- (vsql/std_2_20_1_description_of_sql_descriptor_areas.c).
use vsql.Base.{◌-◌, ℕ, refl, Bool, true, false, not, Option, none, some, if◌then◌else◌}
use vsql.Base.Ints.{ℤ, pos, between, to_ℕ}
use vsql.Base.Bytes.{Bytes, bytes}
use vsql.Runtime.{Connection, Descriptor}
use vsql.Action.{Action, pure, ◌>>=◌, ◌>>◌, for_some, get}
use vsql.Action.Hoare.{
  Ends, Out, is_none, Keeps-pure, Out-pure, Out-if, Out-bind, Out-Ends, Out-for_some, Out-option,
  Ends-Out, Ends-bind, Ends-if, Ends-for_some,
}
use vsql.Diagnostics.Agrees.{Agrees, status-Agrees}
use vsql.Descriptor.{
  find, remove, allocate_new, write_descriptors, active_connection, descriptor, allocate_descriptor,
  deallocate_descriptor, items, select_item, get_item, set_count, set_item,
}
use vsql.Diagnostics.{lookup, status}
use vsql.Session.{found_or, connection, modify_connection, with_connection}
use vsql.Statement.{set_active}
use vsql.Agreement.Sessions.{refuse}
use vsql.Agreement.Statements.{in_connection}

-- The body of a statement of an SQL descriptor area.
pub on_active :
    {A : Type 0} {test : A → Bool} (otherwise : A) (f : ℕ → Connection → Action A)
    → ((id : ℕ) (c : Connection) → Out test Agrees (f id c))
    → Out test Agrees (
        connection >>= λ c. for_some c (pure otherwise) λ id.
          modify_connection id (set_active true) >>= λ _.
          get >>= λ s. f id (found_or id (lookup id s.connections)))
unfolding for_some
on_active otherwise f h =
    in_connection _ (Keeps-pure otherwise) λ id. Out-bind _ _ λ _. Out-bind _ _ λ s. h id _

pub descriptor-Agrees :
    (name : Bytes) (scope : Option ℕ) → Out is_none Agrees (descriptor name scope)
unfolding descriptor active_connection with_connection
descriptor-Agrees name scope =
    on_active none
      (λ id c.
        for_some (find name scope c.descriptors) (status (bytes "33000") >> pure none)
          λ d. pure (some (id, d)))
      λ id c. Out-for_some _ _ _ (refuse _ none (status-Agrees _)) λ d. Out-pure (some (id, d)) refl

allocated-Agrees :
    (name : Bytes) (scope : Option ℕ) (max : ℕ) (id : ℕ)
    → Ends Agrees (allocate_new name scope max id)
unfolding allocate_new
allocated-Agrees name scope max id =
    Ends-bind _ _ λ _.
      Ends-bind _ _ λ items. Ends-if _ _ _ (status-Agrees _) (Ends-bind _ _ λ _. status-Agrees _)

pub allocate_descriptor-Agrees :
    (name : Bytes) (scope : Option ℕ) (max : ℤ) → Ends Agrees (allocate_descriptor name scope max)
unfolding allocate_descriptor active_connection with_connection
allocate_descriptor-Agrees name scope max = Ends-Out _ (
    on_active tt
      (λ id c.
        if not (between (pos 1) (pos 32767) max)
        then status (bytes "07009")
        else for_some (find name scope c.descriptors) (allocate_new name scope (to_ℕ max) id)
            λ d. status (bytes "33000"))
      λ id c. Out-Ends _ (
        Ends-if _ _ _ (status-Agrees _)
          (Ends-for_some _ _ _ (allocated-Agrees name scope _ id) λ d. status-Agrees _)))

pub deallocate_descriptor-Agrees :
    (name : Bytes) (scope : Option ℕ) → Ends Agrees (deallocate_descriptor name scope)
unfolding deallocate_descriptor active_connection with_connection
deallocate_descriptor-Agrees name scope = Ends-Out _ (
    on_active tt
      (λ id c.
        for_some (find name scope c.descriptors) (status (bytes "33000")) λ d.
          modify_connection id (write_descriptors (remove name scope)) >> status (bytes "00000"))
      λ id c.
        Out-Ends _ (Ends-for_some _ _ _ (status-Agrees _) λ d. Ends-bind _ _ λ _. status-Agrees _))

pub set_count-Agrees :
    (name : Bytes) (scope : Option ℕ) (count : ℤ) → Ends Agrees (set_count name scope count)
unfolding set_count for_some
set_count-Agrees name scope count = Ends-Out _ (
    Out-option _ _ (descriptor-Agrees name scope) (Keeps-pure tt)
      λ (id, d). Out-Ends _ (Ends-if _ _ _ (status-Agrees _) (Ends-bind _ _ λ _. status-Agrees _)))

pub items-Agrees : (d : Descriptor) (n : ℤ) (code : Bytes) → Out not Agrees (items d n code)
unfolding items
items-Agrees d n code =
    Out-for_some _ _ _ (Out-pure true refl) λ e. refuse _ false (status-Agrees e)

-- If vsql_m_get_item returns no item, the status parameter is the SQLSTATE of the first condition
-- in the area, if there is one.
pub get_item-Agrees :
    (name : Bytes) (scope : Option ℕ) (n type length : ℤ) (indicator : Bool)
    → Out is_none Agrees (get_item name scope n type length indicator)
unfolding get_item for_some
get_item-Agrees name scope n type length indicator =
    Out-option _ _ (descriptor-Agrees name scope) (Keeps-pure none) λ (id, d).
      Out-for_some (select_item d n type length indicator).1 _ _ (refuse _ none (status-Agrees _))
        λ i. Out-pure (some i) refl

pub set_item-Agrees :
    (name : Bytes) (scope : Option ℕ) (n : ℤ) → Out is_none Agrees (set_item name scope n)
unfolding set_item for_some
set_item-Agrees name scope n =
    Out-option _ _ (descriptor-Agrees name scope) (Keeps-pure none)
      λ (id, d). Out-if _ _ _ (refuse _ none (status-Agrees _)) (Out-pure (some (to_ℕ n - 1)) refl)
