-- ===== src/Action.antt =====
-- Actions on the shared state: what the procedures of a module do to it, and the calls that they
-- make of the CLI and of the C library.
pub mod Hoare
pub mod Triple
use vsql.Base.{
  ℕ, suc, ◌+◌, Bool, true, false, not, Option, none, some, List, [], ◌∷◌, length, if◌then◌else◌,
}
use vsql.Base.Bytes.{Bytes}
use vsql.Cli.{Call, Reply, malloc, failed}
use vsql.Runtime.{Runtime, Module, Area, Connection}

abbrev pub Done : Type 0
Done = Unit {0}

abbrev pub Action : Type 0 → Type 0
Action A = Module → Runtime → A × Runtime

unfoldable pub pure : {A : Type 0} → A → Action A
pure a m s = (a, s)

module _ {A B : Type 0} where
  abbrev pub resume : A × Runtime → Module → (A → Action B) → B × Runtime
  resume (a, s) m f = f a m s

  infixl 5 ◌>>=◌ ◌>>◌
  unfoldable pub ◌>>=◌ : Action A → (A → Action B) → Action B
  ◌>>=◌ x f m s = resume (x m s) m f

  abbrev pub ◌>>◌ : Action A → Action B → Action B
  x >> y = x >>= λ _. y

-- if (o == NULL) x, otherwise the rest
unfoldable pub for_some : {A B : Type 0} → Option A → Action B → (A → Action B) → Action B
for_some none x f = x
for_some (some a) x f = f a

unfoldable pub get : Action Runtime
get m s = (s, s)

-- The module whose procedure is executed.
unfoldable pub this_module : Action Module
this_module m s = (m, s)

unfoldable pub modify : (Runtime → Runtime) → Action Done
modify f m s = (tt, f s)

-- A call of the CLI or of the C library.
unfoldable pub call : Call → Action Reply
call c m s = let r = m.cli s.log c in (r, record s { log = (c, r) ∷ s.log })

-- malloc, calloc or realloc: is the memory there?
unfoldable pub allocate : ℕ → Action Bool
allocate n = do r ← call (malloc n); pure (not (failed r.rc))

-- vsql_m_copy, which replaces a string. It is NULL if there is no memory for the copy.
unfoldable pub copy : Bytes → Action (Option Bytes)
copy value = do there ← allocate (length value + 1); pure (if there then some value else none)

unfoldable pub modify_area : (Area → Area) → Action Done
modify_area f = modify (λ s. record s { area = f s.area })

-- vsql_m_sqlstate
unfoldable pub set_sqlstate : Bytes → Action Done
set_sqlstate code = modify (λ s. record s { sqlstate = code })
