-- ===== src/Diagnostics/Violated.antt =====
-- When a WHENEVER CONSTRAINT applies (vsql/std_2_21_2_embedded_exception_declaration.c).
use vsql.Base.{◌≡◌, refl, ◌↔◌, Bool, true, false, ◌||◌, Option, none, some, List, [], ◌∷◌, arith}
use vsql.Base.Bytes.{Bytes, str_eq_refl, eq_of_str_eq, holds}
use vsql.Runtime.{Condition}
use vsql.Diagnostics.Items.{is_violation, violated}

holds_iff : (o : Option Bytes) (t : Bytes) → (holds o t ≡ true) ↔ (o ≡ some t)
holds_iff none t = ground arith
holds_iff (some s) t = ground (arith, eq_of_str_eq s t, str_eq_refl t)

-- The condition names the constraint. The catalog is not compared if there is none.
abbrev pub IsViolation : Option Bytes → Bytes → Bytes → Condition → Type 0
IsViolation none schema name c =
    (c.constraint_name ≡ some name) × (c.constraint_schema ≡ some schema)
IsViolation (some catalog) schema name c =
    (c.constraint_name ≡ some name)
    × (c.constraint_schema ≡ some schema)
    × (c.constraint_catalog ≡ some catalog)

-- A condition of the list is the violation of the constraint.
pub data Some (catalog : Option Bytes) (schema name : Bytes) : List Condition → Type 0 where
  here :
      (c : Condition) (cs : List Condition)
      → IsViolation catalog schema name c
      → Some catalog schema name (c ∷ cs)
  there :
      (c : Condition) (cs : List Condition)
      → Some catalog schema name cs
      → Some catalog schema name (c ∷ cs)

IsViolation-is_violation :
    (catalog : Option Bytes) (schema name : Bytes) (c : Condition)
    → is_violation catalog schema name c ≡ true
    → IsViolation catalog schema name c
unfolding is_violation
IsViolation-is_violation none schema name c h = (
  (holds_iff c.constraint_name name).0 (ground arith),
  (holds_iff c.constraint_schema schema).0 (ground arith),
)
IsViolation-is_violation (some t) schema name c h = (
  (holds_iff c.constraint_name name).0 (ground arith),
  (holds_iff c.constraint_schema schema).0 (ground arith),
  (holds_iff c.constraint_catalog t).0 (ground arith),
)

is_violation-IsViolation :
    (catalog : Option Bytes) (schema name : Bytes) (c : Condition)
    → IsViolation catalog schema name c
    → is_violation catalog schema name c ≡ true
unfolding is_violation
is_violation-IsViolation none schema name c (h, k) =
    rw ((holds_iff c.constraint_name name).1 h, (holds_iff c.constraint_schema schema).1 k) refl
is_violation-IsViolation (some t) schema name c (h, k, l) =
    rw
      (
        (holds_iff c.constraint_name name).1 h,
        (holds_iff c.constraint_schema schema).1 k,
        (holds_iff c.constraint_catalog t).1 l,
      )
      refl

Some-violated :
    (catalog : Option Bytes) (schema name : Bytes) (cs : List Condition)
    → violated catalog schema name cs ≡ true
    → Some catalog schema name cs
unfolding violated
Some-violated catalog schema name [] h = absurd (cc h)
Some-violated catalog schema name (c ∷ cs) h =
    first (is_violation catalog schema name c) refl (Some-violated catalog schema name cs) h
  where
    first :
        (b : Bool)
        → is_violation catalog schema name c ≡ b
        → (violated catalog schema name cs ≡ true → Some catalog schema name cs)
        → (b || violated catalog schema name cs) ≡ true
        → Some catalog schema name (c ∷ cs)
    first true e f k = here c cs (IsViolation-is_violation catalog schema name c e)
    first false e f k = there c cs (f k)

violated-Some :
    (catalog : Option Bytes) (schema name : Bytes) (cs : List Condition)
    → Some catalog schema name cs
    → violated catalog schema name cs ≡ true
unfolding violated
violated-Some catalog schema name _ (here c cs h) =
    rw (is_violation-IsViolation catalog schema name c h) refl
violated-Some catalog schema name _ (there c cs h) =
    ground (arith, violated-Some catalog schema name cs h)

-- vsql_m_violated is 1 exactly if a condition in the area has the name, the schema and, if the
-- WHENEVER names one, the catalog of the constraint.
pub violated_iff :
    (catalog : Option Bytes) (schema name : Bytes) (cs : List Condition)
    → (violated catalog schema name cs ≡ true) ↔ Some catalog schema name cs
violated_iff catalog schema name cs =
    (Some-violated catalog schema name cs, violated-Some catalog schema name cs)
