-- ===== src/Prepared/Kept.antt =====
-- A prepared statement that cannot be deallocated (vsql_m_deallocate of
-- vsql/std_2_20_7_prepare_statement.c).
use vsql.Base.{ℕ, refl, true, false, not, some}
use vsql.Base.Bytes.{Bytes, bytes}
use vsql.Runtime.{Prepared}
use vsql.Action.{modify_area}
use vsql.Action.Hoare.{
  Keeps, Out, Keeps-bind, Keeps-pure, Keeps-modify, Out-pure, Out-bind, Out-first, Out-for_some,
}
use vsql.Diagnostics.Agrees.{Only, status-Only}
use vsql.Prepared.{deallocate}

cursor_name-Only :
    (code name : Bytes)
    → Keeps (Only code) (modify_area (λ a. record a { cursor_name = some name }))
unfolding modify_area
cursor_name-Only code name = Keeps-modify _ (λ s h. h)

-- If vsql_m_deallocate does not deallocate the prepared statement, the status parameter is 24000,
-- and the area has no condition with another SQLSTATE.
pub deallocate-Only : (c : ℕ) (p : Prepared) → Out not (Only (bytes "24000")) (deallocate c p)
unfolding deallocate
deallocate-Only c p = Out-bind _ _ λ m. Out-bind _ _ λ stmts. Out-bind _ _ λ opened.
    Out-for_some opened _ _ (Out-bind _ _ λ _. Out-bind _ _ λ _. Out-pure true refl) λ i.
      Out-first _ _ (status-Only (bytes "24000")) λ _.
        Keeps-bind _ _ (cursor_name-Only (bytes "24000") (m.cursor_names i)) λ _. Keeps-pure false
