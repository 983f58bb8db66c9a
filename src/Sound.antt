-- ===== src/Sound.antt =====
-- No pointer to an SQL-connection dangles: the invariant of the linked list of SQL-connections, which
-- every statement keeps (vsql/std_2_13_1_sql_client_module_definition.c).
pub mod Lists
pub mod Rules
pub mod Sessions
pub mod Statements
pub mod Dynamic
pub mod Procedures
use vsql.Base.{ℕ, ◌<◌, ◌≡◌, Bool, true, false, ◌||◌, ◌==◌, Option, none, some, List, [], ◌∷◌}
use vsql.Runtime.{Runtime, Connection}
use vsql.Session.{same}

-- Each address is below the one before it, so no two are the same.
abbrev pub IsBelow : ℕ → List Connection → Type 0
IsBelow n [] = Unit
IsBelow n (c ∷ cs) = (c.id < n) × IsBelow c.id cs

-- Is there an SQL-connection at the address?
abbrev pub has : ℕ → List Connection → Bool
has id [] = false
has id (c ∷ cs) = c.id == id || has id cs

abbrev pub HasWanted : Option ℕ → List Connection → Type 0
HasWanted none cs = Unit
HasWanted (some id) cs = has id cs ≡ true

-- The SQL-connection is in the list, and is not the one to avoid.
abbrev pub HasCurrent : Option ℕ → Option ℕ → List Connection → Type 0
HasCurrent avoid none cs = Unit
HasCurrent avoid (some id) cs = (has id cs ≡ true) × (same (some id) avoid ≡ false)

-- The addresses are distinct and below the next one, the current SQL-connection is in the list and
-- is not `avoid`, and `wanted` is in it.
unfoldable pub Inv : Option ℕ → Option ℕ → Runtime → Type 0
Inv avoid wanted s =
    IsBelow s.fresh s.connections
    × HasCurrent avoid s.current s.connections
    × HasWanted wanted s.connections

abbrev pub IsSound : Runtime → Type 0
IsSound = Inv none none

-- An SQL-connection that has been made and is not the current one yet.
abbrev pub IsOpened : ℕ → Runtime → Type 0
IsOpened id = Inv (some id) (some id)
