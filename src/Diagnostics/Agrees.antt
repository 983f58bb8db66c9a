-- ===== src/Diagnostics/Agrees.antt =====
-- The status parameter and the first condition of the diagnostics area agree.
use vsql.Base.{ℕ, ◌≡◌, refl, Option, List, [], ◌∷◌, ◌++◌, arith, All}
use vsql.Base.Ints.{ℤ}
use vsql.Base.Bytes.{Bytes, bytes, str_eq}
use vsql.Cli.{HandleType, Call}
use vsql.Runtime.{Runtime, Module, Condition}
use vsql.Action.{pure, ◌>>=◌, get, modify, call, allocate, copy, modify_area, set_sqlstate}
use vsql.Action.Hoare.{
  Keeps, Ends, Keeps-pure, Keeps-if, Keeps-bind, Keeps-get, Keeps-modify, Ends-if, Ends-bind,
  keeps_rules, Ends-weaken,
}
use vsql.Diagnostics.{
  clear, condition, add_condition, set_origin, raise, status, first_status, diag_handle, diag,
  current_connection, raising_server,
}
use vsql.Diagnostics.Messages.{message_of}

abbrev pub HasStatus : Bytes → List Condition → Type 0
HasStatus code [] = Unit
HasStatus code (c ∷ cs) = c.sqlstate ≡ code

-- The area is empty, or its first condition has the SQLSTATE of the status parameter.
abbrev pub Agrees : Runtime → Type 0
Agrees s = HasStatus s.sqlstate s.area.conditions

-- The status parameter is the code, and no condition of the area has another one.
abbrev pub Only : Bytes → Runtime → Type 0
Only code s = (s.sqlstate ≡ code) × All (λ (c : Condition). c.sqlstate ≡ code) s.area.conditions

HasStatus-Only :
    (code state : Bytes) (cs : List Condition)
    → state ≡ code
    → All (λ (c : Condition). c.sqlstate ≡ code) cs
    → HasStatus state cs
HasStatus-Only code state [] e h = tt
HasStatus-Only code state (c ∷ cs) e h = ground (arith, h.0)

pub Only-Agrees : (code : Bytes) (s : Runtime) → Only code s → Agrees s
Only-Agrees code s h = HasStatus-Only code s.sqlstate s.area.conditions h.0 h.1

All-add :
    (code : Bytes) (m : Option Bytes) (cs : List Condition)
    → All (λ (c : Condition). c.sqlstate ≡ code) cs
    → All (λ (c : Condition). c.sqlstate ≡ code) (cs ++ condition code m ∷ [])
All-add code m [] h = (refl, tt)
All-add code m (c ∷ cs) h = (h.0, All-add code m cs h.1)

module _ (code : Bytes) where
  call-Only : (c : Call) → Keeps (Only code) (call c)
  unfolding call
  call-Only c = record { at = λ m s h. h }

  allocate-Only : (n : ℕ) → Keeps (Only code) (allocate n)
  unfolding allocate
  allocate-Only n = search (keeps_rules, call-Only)

  copy-Only : (v : Bytes) → Keeps (Only code) (copy v)
  unfolding copy
  copy-Only v = search (keeps_rules, allocate-Only)

  set_origin-Only : Keeps (Only code) set_origin
  unfolding set_origin modify_area
  set_origin-Only = Keeps-bind _ _ Keeps-get λ s. Keeps-bind _ _ (Keeps-modify _ (λ t h. h)) λ _.
      Keeps-bind _ _ (copy-Only (raising_server (current_connection s)))
        λ server. Keeps-modify _ (λ t h. h)

  add-Only : (m : Option Bytes) → Keeps (Only code) (modify_area (add_condition (condition code m)))
  unfolding modify_area
  add-Only m = Keeps-modify _ (λ s h. (h.0, All-add code m s.area.conditions h.1))

  raise-Only : (text : Bytes) → Keeps (Only code) (raise code text)
  unfolding raise
  raise-Only text =
      search (keeps_rules, allocate-Only, copy-Only, add-Only, set_origin-Only) depth 9

  -- vsql_m_status sets the status parameter to its code, and leaves no condition with another
  -- SQLSTATE in the area.
  pub status-Only : Ends (Only code) (status code)
  unfolding status set_sqlstate clear modify_area modify ◌>>=◌
  status-Only = record {
    after = λ m s.
        (Keeps-if (str_eq code (bytes "00000")) (pure tt) (raise code (message_of code))
            (Keeps-pure tt) (raise-Only (message_of code))).at
          m _ (refl, tt);
  }

pub status-Agrees : (code : Bytes) → Ends Agrees (status code)
status-Agrees code = Ends-weaken (status code) (status-Only code) (Only-Agrees code)

first_status-Agrees :
    (rc : ℤ) (cs : List Condition) (m : Module) (s : Runtime)
    → s.area.conditions ≡ cs
    → Agrees (first_status rc cs m s).1
unfolding first_status set_sqlstate modify
first_status-Agrees rc [] m s e = (status-Agrees _).after m s
first_status-Agrees rc (c ∷ cs) m s e = rw e refl

last_status-Agrees : (rc : ℤ) → Ends Agrees (get >>= λ s. first_status rc s.area.conditions)
unfolding ◌>>=◌ get
last_status-Agrees rc = record { after = λ m s. first_status-Agrees rc s.area.conditions m s refl }

diag_handle-Agrees :
    (rc : ℤ) (type : HandleType) (handle : ℕ) → Ends Agrees (diag_handle rc type handle)
unfolding diag_handle
diag_handle-Agrees rc type handle =
    Ends-bind _ _ λ _. Ends-bind _ _ λ n. Ends-bind _ _ λ _. last_status-Agrees rc

-- After vsql_m_diag, whatever the return code is and the CLI answers, the status parameter is the
-- SQLSTATE of the first condition in the area, if there is one.
pub diag-Agrees : (rc : ℤ) (type : HandleType) (handle : ℕ) → Ends Agrees (diag rc type handle)
unfolding diag
diag-Agrees rc type handle = search (Ends-if, status-Agrees, diag_handle-Agrees)
