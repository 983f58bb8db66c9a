-- ===== src/Agreement/Rules.antt =====
-- The actions that change neither the status parameter nor the conditions of the area.
use vsql.Base.{ℕ, zero, suc, Option, List, [], ◌∷◌}
use vsql.Base.Ints.{ℤ}
use vsql.Base.Bytes.{Bytes}
use vsql.Cli.{Call, HandleType}
use vsql.Runtime.{Connection, Cursors, Prepared}
use vsql.Action.{get, modify, call, allocate, copy, modify_area}
use vsql.Action.Hoare.{
  Keeps, Ends, Out, keeps_rules, Keeps-get, Keeps-this_module, Keeps-bind, Keeps-modify,
  Keeps-first, Ends-bind, Ends-modify, Ends-Keeps, Keeps-pure, Out-pure, Out-if, Out-bind,
  Out-first, Out-Ends, Out-for_some, Out-option, Out-bool,
}
use vsql.Diagnostics.{clear, status, diag}
use vsql.Diagnostics.Agrees.{Agrees, status-Agrees, diag-Agrees}
use vsql.Session.{
  close_all, close_connections, exit, modify_connection, free_stmts, free_cursors,
  free_all_prepared, release, close, unlink,
}

pub call-Agrees : (c : Call) → Keeps Agrees (call c)
unfolding call
call-Agrees c = record { at = λ m s h. h }

pub allocate-Agrees : (n : ℕ) → Keeps Agrees (allocate n)
unfolding allocate
allocate-Agrees n = search (keeps_rules, call-Agrees)

pub copy-Agrees : (v : Bytes) → Keeps Agrees (copy v)
unfolding copy
copy-Agrees v = search (keeps_rules, allocate-Agrees)

pub modify_connection-Agrees :
    (id : ℕ) (f : Connection → Connection) → Keeps Agrees (modify_connection id f)
unfolding modify_connection
modify_connection-Agrees id f = Keeps-modify _ (λ s h. h)

pub status_keeps : (code : Bytes) → Keeps Agrees (status code)
status_keeps code = Ends-Keeps (status code) (status-Agrees code)

pub diag_keeps : (rc : ℤ) (type : HandleType) (handle : ℕ) → Keeps Agrees (diag rc type handle)
diag_keeps rc type handle = Ends-Keeps (diag rc type handle) (diag-Agrees rc type handle)

pub ruleset agree_keeps = (
  keeps_rules, call-Agrees, allocate-Agrees, copy-Agrees, modify_connection-Agrees, status_keeps,
  diag_keeps,
)

free_stmts-Agrees : (hs : List (Option ℕ)) → Keeps Agrees (free_stmts hs)
unfolding free_stmts
free_stmts-Agrees [] = Keeps-pure tt
free_stmts-Agrees (h ∷ hs) = Keeps-bind _ _ (search agree_keeps) λ _. free_stmts-Agrees hs

free_cursors-Agrees : (ms : List Cursors) → Keeps Agrees (free_cursors ms)
unfolding free_cursors
free_cursors-Agrees [] = Keeps-pure tt
free_cursors-Agrees (m ∷ ms) =
    Keeps-bind _ _ (free_stmts-Agrees m.stmts) λ _. free_cursors-Agrees ms

free_all_prepared-Agrees : (ps : List Prepared) → Keeps Agrees (free_all_prepared ps)
unfolding free_all_prepared
free_all_prepared-Agrees [] = Keeps-pure tt
free_all_prepared-Agrees (p ∷ ps) =
    Keeps-bind _ _ (search agree_keeps) λ _. free_all_prepared-Agrees ps

release-Agrees : (c : Connection) → Keeps Agrees (release c)
unfolding release
release-Agrees c = search (agree_keeps, free_cursors-Agrees, free_all_prepared-Agrees) depth 12

unlink-Agrees : (id : ℕ) → Keeps Agrees (modify (unlink id))
unlink-Agrees id = Keeps-modify _ (λ s h. h)

pub close-Agrees : (id : ℕ) → Keeps Agrees (close id)
unfolding close
close-Agrees id = search (agree_keeps, release-Agrees, unlink-Agrees) depth 9

clear-Agrees : Ends Agrees clear
unfolding clear modify_area
clear-Agrees = Ends-modify _ (λ s. tt)

pub ruleset agree_rules = (agree_keeps, close-Agrees, status-Agrees, diag-Agrees)

close_all-Agrees : (rounds : ℕ) → Keeps Agrees (close_all rounds)
unfolding close_all
close_all-Agrees zero = Keeps-pure tt
close_all-Agrees (suc rounds) = Keeps-bind get _ Keeps-get λ s.
    Keeps-first s.connections (Keeps-pure tt)
      λ c cs. Keeps-bind (close c.id) _ (close-Agrees c.id) λ _. close_all-Agrees rounds

pub exit-Agrees : Ends Agrees exit
unfolding exit close_connections
exit-Agrees =
    Ends-bind _ _ λ _. Ends-bind _ _ λ s. Ends-bind _ _ λ r. Ends-bind _ _ λ _. clear-Agrees
