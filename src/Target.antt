-- ===== src/Target.antt =====
-- The targets of a row: vsql_m_target to vsql_m_select
-- (vsql/std_2_14_7_select_statement_single_row.c).
use vsql.Base.{
  ℕ, zero, suc, ◌+◌, ◌*◌, Bool, true, false, not, ◌&&◌, ◌||◌, Option, none, some, List, [], ◌∷◌,
  if◌then◌else◌, length,
}
use vsql.Base.Ints.{ℤ, pos, eqz, is_negative, lez, to_ℕ}
use vsql.Base.Bytes.{Bytes, bytes, str_eq, or_empty}
use vsql.Cli.{
  Value, long, text, Param, Reply, stmt, free_handle, num_result_cols, fetch, get_data, failed,
  success, success_with_info, no_data, indicator_overflow,
}
use vsql.Cli.SqlType
use vsql.Text.Put.{characters, put}
use vsql.Action.{Action, Done, pure, ◌>>=◌, ◌>>◌, for_some, this_module, call}
use vsql.Diagnostics.{status, diag}
use vsql.Statement.{run, number_or, text_or}

-- struct vsql_m_target. `value` is what the host parameter holds.
pub record Target : Type 0 where
  pub type : ℤ
  pub length : ℤ
  pub value : Value
  pub max_indicator : ℤ
  pub indicator : ℤ

-- Is there an indicator parameter?
abbrev pub has_indicator : Target → Bool
has_indicator t = not (lez t.max_indicator (pos 0))

-- What SQLGetData writes to the indicator, if there is one.
abbrev pub indicated : Reply → Target → Target
indicated r t = if has_indicator t then record t { indicator = r.indicator } else t

-- A value that is not null has been retrieved.
abbrev pub is_retrieved : Reply → Target → Bool
is_retrieved r t = not (failed r.rc) && (not (has_indicator t) || not (is_negative r.indicator))

abbrev pub assigned : Value → Target → Target
assigned v t = record t { value = v; indicator = pos 0 }

abbrev pub value_or : Value → Option Value → Value
value_or d none = d
value_or d (some v) = v

abbrev pub one_if : Bool → ℤ
one_if true = pos 1
one_if false = pos 0

abbrev pub string_of : Value → Bytes
string_of (text t) = t
string_of _ = []

-- The loop over the rest of a long value, for at most `pieces` pieces: the last return code, and
-- the characters.
unfoldable pub rest_characters : ℕ → ℕ → ℕ → ℤ → ℕ → Action (ℤ × ℕ)
rest_characters zero h i rc n = pure (rc, n)
rest_characters (suc pieces) h i rc n = if not (eqz rc success_with_info) then pure (rc, n) else do
  r ← call (get_data h i SqlType.char (pos 256) false)
  if failed r.rc
      then pure (r.rc, n)
      else rest_characters pieces h i r.rc (n + characters (or_empty r.string))

-- The indicator of a string that was cut: its length in characters.
unfoldable pub truncated_length : ℤ × ℕ → Target → ℤ × Target
truncated_length (rc, n) t =
    if failed rc
    then (rc, t)
    else if not (lez (pos n) t.max_indicator)
    then (indicator_overflow, t)
    else (success_with_info, record t { indicator = pos n })

-- A string that has been retrieved into the target, with return code `rc`, is cut or padded.
unfoldable pub assign_string : ℕ → ℕ → ℤ → Bytes → Target → Action (ℤ × Target)
unfolding rest_characters truncated_length
assign_string h i rc s t = do
  m ← this_module
  if not (put (to_ℕ t.length) s).truncated
      then pure (rc, assigned (text (put (to_ℕ t.length) s).target) t)
      else if not (has_indicator t)
      then pure (success_with_info, record t { value = text (put (to_ℕ t.length) s).target })
      else (do
        rest ← rest_characters m.pieces h i rc (characters s)
        pure (truncated_length rest (record t { value = text (put (to_ℕ t.length) s).target })))

-- vsql_m_assign: the return code, and the target after it
unfoldable pub assign : ℕ → ℕ → Target → Action (ℤ × Target)
unfolding assign_string
assign h i t =
    if eqz t.type SqlType.integer
    then (do
      r ← call (get_data h i SqlType.integer (pos 0) (has_indicator t))
      pure (
        r.rc,
        if is_retrieved r t
            then assigned (long (number_or (pos 0) r.number)) (indicated r t)
            else indicated r t,
      ))
    else if eqz t.type SqlType.boolean
    then (do
      r ← call (get_data h i SqlType.char (pos 256) (has_indicator t))
      pure (
        r.rc,
        if is_retrieved r t
            then assigned (long (one_if (str_eq (or_empty r.string) (bytes "TRUE"))))
                (indicated r t)
            else indicated r t,
      ))
    else if not (eqz t.type SqlType.char) && not (eqz t.type SqlType.varchar)
    then (do
      r ← call (get_data h i t.type (pos 0) (has_indicator t))
      pure (r.rc, record (indicated r t) { value = value_or t.value r.value }))
    else (do
      r ← call (get_data h i SqlType.char (pos ((to_ℕ t.length + 1) * 4)) (has_indicator t))
      let u = record (indicated r t) { value = text (text_or (string_of t.value) r.string) }
      if is_retrieved r t
          then assign_string h i r.rc (text_or (string_of t.value) r.string) (indicated r t)
          else pure (r.rc, u))

-- What vsql_m_assign_row leaves.
pub record Row : Type 0 where
  pub rc : ℤ
  pub truncated : Bool
  pub targets : List Target

abbrev pub is_ok : ℤ → Bool
is_ok rc = eqz rc success || eqz rc success_with_info

-- vsql_m_assign_row, from column `i` on, after one that was assigned with the return code `rc`
unfoldable pub assign_row : ℕ → ℕ → ℤ → List Target → Action Row
unfolding assign
assign_row h i rc [] = pure (record { rc = rc; truncated = false; targets = [] })
assign_row h i rc (t ∷ ts) =
    if not (is_ok rc) then pure (record { rc = rc; truncated = false; targets = t ∷ ts }) else do
      a ← assign h (i + 1) t
      row ← assign_row h (i + 1) a.0 ts
      pure (record {
        rc = row.rc;
        truncated = eqz a.0 success_with_info || row.truncated;
        targets = a.1 ∷ row.targets;
      })

abbrev pub row_status : Bool → Bytes
row_status truncated = if truncated then bytes "01004" else bytes "00000"

-- The second row of a <select statement: single row>, which there must not be.
unfoldable pub single_row : ℕ → Bool → Action Done
single_row h truncated = do
  r ← call (fetch h)
  if eqz r.rc no_data
      then status (row_status truncated)
      else if failed r.rc
      then diag r.rc stmt h
      else status (bytes "21000")

-- The targets of a query that has been executed.
unfoldable pub select_row : ℕ → List Target → Action (Bool × List Target)
unfolding assign_row single_row
select_row h targets = do
  n ← call (num_result_cols h)
  if not (failed n.rc) && not (eqz (number_or (pos 0) n.number) (pos (length targets)))
      then (do status (bytes "07002"); call (free_handle stmt h); pure (false, targets))
      else (do
        fetched ← if failed n.rc then pure n.rc else (do r ← call (fetch h); pure r.rc)
        row ← assign_row h 0 fetched targets
        if failed row.rc || eqz row.rc no_data
            then (do diag row.rc stmt h; call (free_handle stmt h); pure (false, row.targets))
            else (do
              single_row h row.truncated
              call (free_handle stmt h)
              pure (true, row.targets)))

-- vsql_m_select
unfoldable pub select : Bytes → List Param → List Target → Action (Bool × List Target)
unfolding run select_row
select sql params targets = do
  h ← run sql params
  for_some h (pure (false, targets)) λ handle. select_row handle targets
