-- ===== src/Cli.antt =====
-- The SQL/CLI, as the runtime calls it: the routines and codes of libvsql/libvsql.h that the
-- vsql/*.c files use. What a routine answers is a parameter of the model, a function of the calls
-- so far. The C library's malloc, calloc and realloc are calls of the same kind.
pub mod SqlType
pub mod DiagField
use vsql.Base.{ℕ, Bool, true, false, not, ◌&&◌, Option, List, ◌==◌, if◌then◌else◌}
use vsql.Base.Ints.{ℤ, pos, negsuc, eqz}
use vsql.Base.Bytes.{Bytes}

pub data HandleType : Type 0 where
  env dbc stmt : HandleType

-- The bytes behind a pointer, by the C type that they were written as.
pub data Value : Type 0 where
  short int long long_long : ℤ → Value
  float double : ℕ → Value
  text : Bytes → Value

-- struct vsql_m_param
pub record Param : Type 0 where
  pub value_type : ℤ
  pub parameter_type : ℤ
  pub length : ℤ
  pub scale : ℤ
  pub value : Option Value
  pub indicator : ℤ

pub data Call : Type 0 where
  alloc_handle free_handle : HandleType → ℕ → Call
  connect : ℕ → Bytes → Option Bytes → Call
  disconnect start_tran execute fetch num_result_cols close_cursor get_holdable : ℕ → Call
  end_tran : ℕ → ℤ → Call
  exec_direct prepare set_cursor_name : ℕ → Bytes → Call
  set_holdable : ℕ → ℤ → Call
  bind_parameter : ℕ → ℕ → Param → Call
  get_data : ℕ → ℕ → ℤ → ℤ → Bool → Call
  col_attribute : ℕ → ℕ → ℤ → Call
  get_diag_field : HandleType → ℕ → ℕ → ℤ → Call
  get_diag_rec : HandleType → ℕ → ℕ → Call
  malloc : ℕ → Call

-- The return code, and what the routine wrote through its pointers (`none` if it wrote nothing).
pub record Reply : Type 0 where
  pub rc : ℤ
  pub handle : ℕ
  pub number : Option ℤ
  pub state : Option Bytes
  pub string : Option Bytes
  pub value : Option Value
  pub indicator : ℤ

-- The calls so far with their replies, the last one first.
abbrev pub Log : Type 0
Log = List (Call × Reply)

abbrev pub Cli : Type 0
Cli = Log → Call → Reply

-- The return codes.
abbrev pub success : ℤ
success = pos 0

abbrev pub success_with_info : ℤ
success_with_info = pos 1

abbrev pub no_data : ℤ
no_data = pos 100

abbrev pub error : ℤ
error = negsuc 0

-- VSQL_M_INDICATOR_OVERFLOW
abbrev pub indicator_overflow : ℤ
indicator_overflow = negsuc 99

-- vsql_m_failed
unfoldable pub failed : ℤ → Bool
failed rc = not (eqz rc success) && not (eqz rc success_with_info)

-- SQL_NULL_DATA, SQL_NTS
abbrev pub null_data : ℤ
null_data = negsuc 0

abbrev pub nts : ℤ
nts = negsuc 2

-- SQL_COMMIT, SQL_ROLLBACK
abbrev pub commit : ℤ
commit = pos 0

abbrev pub rollback : ℤ
rollback = pos 1
