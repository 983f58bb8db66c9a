-- ===== src/Statement/Inactive.antt =====
-- The SQL-connection whose SQL-transaction has been ended (vsql_m_end of
-- vsql/std_2_13_1_sql_client_module_definition.c).
use vsql.Base.{
  ℕ, ◌≡◌, refl, Bool, false, Option, none, some, List, [], ◌∷◌, ◌==◌, Bool-cases, inl, inr,
}
use mathlib.Core.Path.{subst⁻¹}
use vsql.Base.Ints.{ℤ}
use vsql.Runtime.{Runtime, Module, Connection}
use vsql.Action.{Action, ◌>>=◌, for_some}
use vsql.Action.Hoare.{Ends, Ends-bind, Ends-modify}
use vsql.Diagnostics.{lookup}
use vsql.Session.{update, modify_connection, connection, with_connection}
use vsql.Statement.{set_active, end_transaction}

-- Has the SQL-connection at the address an active SQL-transaction?
abbrev pub has_active : ℕ → List Connection → Bool
has_active id cs = elim (lookup id cs) [ none ↦ false | some c ↦ c.active ]

active-update :
    (id : ℕ) (cs : List Connection) → has_active id (update id (set_active false) cs) ≡ false
unfolding lookup update
active-update id [] = refl
active-update id (c ∷ cs) = elim (Bool-cases (c.id == id)) [
  | inl k ↦ rw k (rw (k, has_active) refl)
  | inr k ↦ rw k (rw (k, has_active) (active-update id cs))
]

inactivated :
    (id : ℕ)
    → Ends (λ s. has_active id s.connections ≡ false) (modify_connection id (set_active false))
unfolding modify_connection
inactivated id = Ends-modify _ λ s. active-update id s.connections

after_some :
    {A B : Type 0} {P : Runtime → Type 0} (x : Action (Option A)) (f : Option A → Action B) (a : A)
    (m : Module) (s : Runtime)
    → (x m s).0 ≡ some a
    → Ends P (f (some a))
    → P ((x >>= f) m s).1
unfolding ◌>>=◌
after_some {B = B} {P = P} x f a m s e h =
    subst⁻¹ (λ (o : Option _). P (f o m (x m s).1).1) e (h.after m (x m s).1)

-- After COMMIT or ROLLBACK, the SQL-connection that the statement was executed in has no active
-- SQL-transaction, whether the CLI could end it or not.
pub end_transaction-inactive :
    (completion : ℤ) (id : ℕ) (m : Module) (s : Runtime)
    → (connection m s).0 ≡ some id
    → has_active id (end_transaction completion m s).1.connections ≡ false
unfolding end_transaction for_some with_connection
end_transaction-inactive completion id m s e =
    after_some {P = λ t. has_active id t.connections ≡ false} connection _ id m s e (
      Ends-bind _ _ λ t.
        Ends-bind _ _ λ r. Ends-bind _ _ λ x. Ends-bind _ _ λ u. Ends-bind _ _ λ y. inactivated id)
