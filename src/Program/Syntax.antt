-- ===== src/Program/Syntax.antt =====
-- The statements of a module (vsql/*.c), by the function that executes each.
use vsql.Base.{ℕ, Bool, Option, List}
use vsql.Base.Ints.{ℤ}
use vsql.Base.Bytes.{Bytes}
use vsql.Cli.{Param}
use vsql.Connect.{Which}
use vsql.Target.{Target}
use vsql.Using.{Input, Output}

-- One constructor for each function of the runtime that is a whole statement, with its arguments.
pub data Statement : Type 0 where
  connect : Option Bytes → Option Bytes → Option Bytes → Statement
  set_connection : Option Bytes → Statement
  disconnect : Which → Statement
  execute_statement : Bytes → List Param → Statement
  start : Statement
  end_transaction : ℤ → Statement
  select : Bytes → List Param → List Target → Statement
  open_cursor : ℕ → Bytes → Bool → Bytes → List Param → Statement
  fetch_cursor : ℕ → List Target → Statement
  close_cursor : ℕ → Statement
  allocate_descriptor : Bytes → Option ℕ → ℤ → Statement
  deallocate_descriptor : Bytes → Option ℕ → Statement
  set_count : Bytes → Option ℕ → ℤ → Statement
  prepare : Bytes → Bytes → Statement
  deallocate_prepare : Bytes → Statement
  describe : Bytes → Bytes → Option ℕ → Statement
  execute_prepared : Bytes → Input → Output → Statement
  execute_immediate : Bytes → Statement
  open_dynamic : ℕ → Bytes → Bool → Bytes → Input → Statement
  fetch_dynamic : ℕ → Output → Statement
