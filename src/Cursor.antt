-- ===== src/Cursor.antt =====
-- The cursors of a module: vsql_m_cursors to vsql_m_close_cursor (vsql/std_2_14_1_declare_cursor.c).
use vsql.Base.{
  ℕ, zero, suc, ◌+◌, ◌==◌, Bool, true, false, not, ◌&&◌, ◌||◌, Option, none, some, List, [], ◌∷◌,
  if◌then◌else◌, length, set, replicate,
}
use vsql.Base.Ints.{ℤ, pos, eqz}
use vsql.Base.Bytes.{Bytes, bytes, str_eq}
use vsql.Cli.{
  Param, dbc, stmt, alloc_handle, free_handle, set_cursor_name, set_holdable, num_result_cols,
  fetch, close_cursor, failed, no_data,
}
use vsql.Runtime.{Connection, Cursors}
use vsql.Action.{Action, Done, pure, ◌>>=◌, ◌>>◌, for_some, get, this_module, call, allocate}
use vsql.Diagnostics.{status, diag}
use vsql.Session.{modify_connection, connection, with_connection}
use vsql.Statement.{exec, number_or}
use vsql.Target.{Target, is_ok, assign_row, row_status}

-- The handles of the cursors of a module.
unfoldable pub cursors_of : ℕ → List Cursors → Option (List (Option ℕ))
cursors_of m [] = none
cursors_of m (c ∷ cs) = if c.module_id == m then some c.stmts else cursors_of m cs

-- stmts[i] = h, in the cursors of a module
unfoldable pub set_handle : ℕ → ℕ → Option ℕ → List Cursors → List Cursors
set_handle m i h [] = []
set_handle m i h (c ∷ cs) =
    if c.module_id == m then record c { stmts = set c.stmts i h } ∷ cs else c ∷ set_handle m i h cs

abbrev pub add_cursors : ℕ → ℕ → Connection → Connection
add_cursors m n c = record c {
  cursors = record { module_id = m; stmts = replicate (n + 1) none } ∷ c.cursors;
}

-- vsql_m_cursors, of the SQL-connection `c`
unfoldable pub module_cursors : ℕ → Action (Option (List (Option ℕ)))
unfolding cursors_of with_connection modify_connection
module_cursors c = do
  m ← this_module
  with_connection c λ d.
      for_some (cursors_of m.id d.cursors)
        (do
          list ← allocate 1
          if not list then pure none else do
            stmts ← allocate (m.cursor_count + 1)
            if not stmts then pure none else do
              modify_connection c (add_cursors m.id m.cursor_count)
              pure (some (replicate (m.cursor_count + 1) none)))
        λ stmts. pure (some stmts)

-- vsql_m_cursors(c)[i] = h
unfoldable pub write_cursor : ℕ → ℕ → Option ℕ → Action Done
unfolding set_handle modify_connection
write_cursor c i h = do
  m ← this_module
  modify_connection c (λ d. record d { cursors = set_handle m.id i h d.cursors })

abbrev pub holdability : Bool → ℤ
holdability hold = if hold then pos 1 else pos 0

-- A statement handle for cursor `i`, with its name and holdability.
unfoldable pub allocate_cursor : ℕ → ℕ → ℕ → Bytes → Bool → Action (Option ℕ)
unfolding write_cursor
allocate_cursor c handle i name hold = do
  r ← call (alloc_handle stmt handle)
  if failed r.rc then (do diag r.rc dbc handle; write_cursor c i none; pure none) else do
    write_cursor c i (some r.handle)
    named ← call (set_cursor_name r.handle name)
    rc ←
        if failed named.rc
        then pure named.rc
        else (do x ← call (set_holdable r.handle (holdability hold)); pure x.rc)
    if failed rc
        then (do
          diag rc stmt r.handle
          call (free_handle stmt r.handle)
          write_cursor c i none
          pure none)
        else pure (some r.handle)

-- cursors[i]
abbrev pub handle_at : List (Option ℕ) → ℕ → Option ℕ
handle_at [] i = none
handle_at (h ∷ hs) zero = h
handle_at (h ∷ hs) (suc i) = handle_at hs i

-- The handle of cursor `i` of the SQL-connection, which has one already, or is given one if the
-- cursor is opened (`name` is `none` if it is not).
unfoldable pub cursor_on : ℕ → ℕ → Option Bytes → Bool → List (Option ℕ) → Action (Option ℕ)
unfolding allocate_cursor with_connection
cursor_on c i name hold stmts =
    for_some (handle_at stmts i)
      (for_some name (status (bytes "24000") >> pure none)
        λ n. with_connection c λ d. allocate_cursor c d.dbc i n hold)
      λ h. pure (some h)

-- vsql_m_cursor
unfoldable pub cursor : ℕ → Option Bytes → Bool → Action (Option ℕ)
unfolding connection module_cursors cursor_on
cursor i name hold = do
  c ← connection
  for_some c (pure none) λ id. do
    stmts ← module_cursors id
    for_some stmts (status (bytes "HY001") >> pure none) λ list. cursor_on id i name hold list

-- The handle of a cursor that is not open is freed.
unfoldable pub drop_cursor : ℕ → ℕ → ℕ → Action Done
unfolding write_cursor
drop_cursor c i h = do call (free_handle stmt h); write_cursor c i none

-- The current SQL-connection, which a statement that has a cursor has found.
abbrev pub address : Option ℕ → ℕ
address none = 0
address (some c) = c

unfoldable pub on_current : {A : Type 0} → (ℕ → Action A) → Action A
on_current f = do s ← get; f (address s.current)

-- vsql_m_open_cursor
unfoldable pub open_cursor : ℕ → Bytes → Bool → Bytes → List Param → Action Done
unfolding cursor exec drop_cursor on_current
open_cursor i name hold sql params = do
  slot ← cursor i (some name) hold
  for_some slot (pure tt) λ h. on_current λ c. do
    done ← exec c h sql params
    s ← get
    if not done && not (str_eq s.sqlstate (bytes "24000")) then drop_cursor c i h else pure tt

-- The row that the cursor has been moved to, with return code `rc`
unfoldable pub fetch_row : ℕ → ℤ → List Target → Action (Bool × List Target)
unfolding assign_row
fetch_row h rc targets = do
  row ← assign_row h 0 rc targets
  if failed row.rc || eqz row.rc no_data
      then (do diag row.rc stmt h; pure (false, row.targets))
      else (do status (row_status row.truncated); pure (true, row.targets))

-- vsql_m_fetch
unfoldable pub fetch_cursor : ℕ → List Target → Action (Bool × List Target)
unfolding cursor fetch_row
fetch_cursor i targets = do
  slot ← cursor i none false
  for_some slot (pure (false, targets)) λ h. do
    r ← call (fetch h)
    if not (is_ok r.rc) then fetch_row h r.rc targets else do
      n ← call (num_result_cols h)
      if not (failed n.rc) && not (eqz (number_or (pos 0) n.number) (pos (length targets)))
          then (do status (bytes "07002"); pure (false, targets))
          else fetch_row h n.rc targets

-- vsql_m_close_cursor
unfoldable pub close : ℕ → Action Done
unfolding cursor
close i = do
  slot ← cursor i none false
  for_some slot (pure tt) λ h. do r ← call (close_cursor h); diag r.rc stmt h
