-- ===== src/Session/Closed.antt =====
-- Closing SQL-connections (vsql_m_close and the loop of vsql_m_exit and vsql_m_disconnect,
-- vsql/std_2_13_1_sql_client_module_definition.c).
use vsql.Base.{
  ℕ, zero, suc, ◌≤◌, ◌≡◌, refl, ap, ◌∙◌, Option, none, some, List, [], ◌∷◌, arith, length, ==_refl,
}
use mathlib.Core.Path.{subst⁻¹}
use vsql.Base.Bytes.{Bytes}
use vsql.Cli.{Log}
use vsql.Runtime.{Runtime, Module, Connection, Area, Cursors, Prepared}
use vsql.Action.{Action, Done, pure, ◌>>=◌, for_some, get, modify}
use vsql.Action.Hoare.{Keeps, Keeps-pure, Keeps-bind, Keeps-for_some}
use vsql.Diagnostics.{lookup}
use vsql.Diagnostics.Frame.{call-Frame}
use vsql.Session.{
  free_stmts, free_cursors, free_all_prepared, release, close, close_all, close_connections, unlink,
  without,
}

module _ (P : Runtime → Type 0)
    (frame : (s : Runtime) (l : Log) (a : Area) (q : Bytes)
      → P s
      → P (record s { log = l; area = a; sqlstate = q })) where
  free_stmts-Frame : (hs : List (Option ℕ)) → Keeps P (free_stmts hs)
  unfolding free_stmts
  free_stmts-Frame [] = Keeps-pure tt
  free_stmts-Frame (h ∷ hs) =
      Keeps-bind _ _
        (Keeps-for_some h _ _ (Keeps-pure tt)
          λ x. Keeps-bind _ _ (call-Frame P frame _) λ r. Keeps-pure tt)
        λ _. free_stmts-Frame hs

  free_cursors-Frame : (ms : List Cursors) → Keeps P (free_cursors ms)
  unfolding free_cursors
  free_cursors-Frame [] = Keeps-pure tt
  free_cursors-Frame (m ∷ ms) = Keeps-bind _ _ (free_stmts-Frame m.stmts) λ _. free_cursors-Frame ms

  free_all_prepared-Frame : (ps : List Prepared) → Keeps P (free_all_prepared ps)
  unfolding free_all_prepared
  free_all_prepared-Frame [] = Keeps-pure tt
  free_all_prepared-Frame (p ∷ ps) =
      Keeps-bind _ _ (call-Frame P frame _) λ _. free_all_prepared-Frame ps

  pub release-Frame : (c : Connection) → Keeps P (release c)
  unfolding release
  release-Frame c = Keeps-bind _ _ (call-Frame P frame _) λ r.
      Keeps-bind _ _ (free_cursors-Frame c.cursors) λ _.
        Keeps-bind _ _ (free_all_prepared-Frame c.prepared) λ _.
          Keeps-bind _ _ (call-Frame P frame _)
            λ x. Keeps-bind _ _ (call-Frame P frame _) λ y. Keeps-pure tt

lookup_first : (c : Connection) (cs : List Connection) → lookup c.id (c ∷ cs) ≡ some c
unfolding lookup
lookup_first c cs = rw (==_refl _) refl

without_first : (c : Connection) (cs : List Connection) → without c.id (c ∷ cs) ≡ cs
unfolding without
without_first c cs = rw (==_refl _) refl

released :
    (c : Connection) (m : Module) (s : Runtime) → (release c m s).1.connections ≡ s.connections
released c m s = (release-Frame (λ t. t.connections ≡ s.connections) (λ t l a q h. h) c).at m s refl

-- Closing the first SQL-connection leaves the others.
close_first :
    (c : Connection) (cs : List Connection) (m : Module) (s : Runtime)
    → s.connections ≡ c ∷ cs
    → (close c.id m s).1.connections ≡ cs
unfolding close for_some get modify ◌>>=◌
close_first c cs m s h = found (lookup c.id s.connections) (ap (lookup c.id) h ∙ lookup_first c cs)
  where
    found :
        (o : Option Connection)
        → o ≡ some c
        → (for_some o (pure tt) (λ d. modify (unlink c.id) >>= λ _. release d) m s).1.connections
          ≡ cs
    found none e = absurd (cc e)
    found (some d) e = released d m (unlink c.id s) ∙ ap (without c.id) h ∙ without_first c cs

-- A round of the loop.
abbrev round : Action Done → List Connection → Action Done
round next cs = elim cs [ [] ↦ pure tt | c ∷ rest ↦ close c.id >>= λ _. next ]

closed :
    (rounds : ℕ) (cs : List Connection) (m : Module) (s : Runtime)
    → s.connections ≡ cs
    → length cs ≤ rounds
    → (close_all rounds m s).1.connections ≡ []
unfolding close_all pure get ◌>>=◌
closed zero [] m s h k = h
closed zero (c ∷ cs) m s h k = absurd (omega arith)
closed (suc rounds) [] m s h k =
    subst⁻¹ (λ (xs : List Connection). (round (close_all rounds) xs m s).1.connections ≡ []) h h
closed (suc rounds) (c ∷ cs) m s h k =
    subst⁻¹ (λ (xs : List Connection). (round (close_all rounds) xs m s).1.connections ≡ []) h
      (closed rounds cs m (close c.id m s).1 (close_first c cs m s h) (omega arith))

-- The loop that closes the SQL-connections one by one leaves none, with as many rounds as there
-- are SQL-connections.
pub close_connections_lem : (m : Module) (s : Runtime) → (close_connections m s).1.connections ≡ []
unfolding close_connections get ◌>>=◌
close_connections_lem m s = closed (length s.connections) s.connections m s refl (omega arith)
