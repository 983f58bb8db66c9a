-- ===== src/Sound/Rules.antt =====
-- The actions that keep every SQL-connection where it is.
use vsql.Base.{ℕ, ◌≡◌, true, false, Option, none}
use vsql.Base.Ints.{ℤ}
use vsql.Base.Bytes.{Bytes}
use vsql.Cli.{Call, HandleType, Log}
use vsql.Runtime.{Runtime, Connection, Area}
use vsql.Action.{call, allocate, copy, modify_area, set_sqlstate}
use vsql.Action.Hoare.{
  Keeps, Keeps-pure, Keeps-if, Keeps-bind, Keeps-get, Keeps-modify, Keeps-for_some, keeps_rules,
}
use vsql.Diagnostics.{clear, begin, status, diag}
use vsql.Diagnostics.Frame.{
  call-Frame, area-Frame, sqlstate-Frame, allocate-Frame, copy-Frame, clear-Frame, begin-Frame,
  status-Frame, diag-Frame,
}
use vsql.Session.{
  modify_connection, release, close, with_connection, schema_set, set_schema, schema, make_ready,
}
use vsql.Session.Closed.{release-Frame}
use vsql.Sound.{Inv}
use vsql.Sound.Lists.{update-Inv, unlink-Inv}

frame :
    (a w : Option ℕ) (s : Runtime) (l : Log) (r : Area) (q : Bytes)
    → Inv a w s
    → Inv a w (record s { log = l; area = r; sqlstate = q })
unfolding Inv
frame a w s l r q h = h

module _ (a w : Option ℕ) where
  pub call-Inv : (c : Call) → Keeps (Inv a w) (call c)
  call-Inv c = call-Frame (Inv a w) (frame a w) c

  pub area-Inv : (f : Area → Area) → Keeps (Inv a w) (modify_area f)
  area-Inv f = area-Frame (Inv a w) (frame a w) f

  pub sqlstate-Inv : (code : Bytes) → Keeps (Inv a w) (set_sqlstate code)
  sqlstate-Inv code = sqlstate-Frame (Inv a w) (frame a w) code

  pub allocate-Inv : (n : ℕ) → Keeps (Inv a w) (allocate n)
  allocate-Inv n = allocate-Frame (Inv a w) (frame a w) n

  pub copy-Inv : (v : Bytes) → Keeps (Inv a w) (copy v)
  copy-Inv v = copy-Frame (Inv a w) (frame a w) v

  pub clear-Inv : Keeps (Inv a w) (clear)
  clear-Inv = clear-Frame (Inv a w) (frame a w)

  pub begin-Inv : (function : Bytes) (code : ℤ) → Keeps (Inv a w) (begin function code)
  begin-Inv function code = begin-Frame (Inv a w) (frame a w) function code

  pub status-Inv : (code : Bytes) → Keeps (Inv a w) (status code)
  status-Inv code = status-Frame (Inv a w) (frame a w) code

  pub diag-Inv : (rc : ℤ) (type : HandleType) (h : ℕ) → Keeps (Inv a w) (diag rc type h)
  diag-Inv rc type h = diag-Frame (Inv a w) (frame a w) rc type h

  pub connection-Inv :
      (id : ℕ) (f : Connection → Connection)
      → ((c : Connection) → (f c).id ≡ c.id)
      → Keeps (Inv a w) (modify_connection id f)
  unfolding modify_connection
  connection-Inv id f e = Keeps-modify _ (update-Inv id f e a w)

  schema_set-Inv : (c : Connection) → Keeps (Inv a w) (schema_set c)
  unfolding schema_set
  schema_set-Inv c = search (keeps_rules, call-Inv, connection-Inv) depth 12

  set_schema-Inv : (c : Connection) → Keeps (Inv a w) (set_schema c)
  unfolding set_schema
  set_schema-Inv c = search (keeps_rules, call-Inv, diag-Inv, schema_set-Inv) depth 14

  pub schema-Inv : (id : ℕ) → Keeps (Inv a w) (schema id)
  unfolding schema with_connection
  schema-Inv id = search (keeps_rules, set_schema-Inv) depth 9

  pub make_ready-Inv : Keeps (Inv a w) make_ready
  unfolding Inv make_ready
  make_ready-Inv = Keeps-bind _ _ Keeps-get λ s. Keeps-if _ _ _ (Keeps-pure true) (
      Keeps-bind _ _ (call-Inv _) λ r.
        Keeps-if _ _ _ (Keeps-bind _ _ (status-Inv _) λ _. Keeps-pure false)
          (Keeps-bind _ _ (Keeps-modify _ (λ t h. h)) λ _. Keeps-pure true))

pub ruleset sound_rules =
    (keeps_rules, call-Inv, area-Inv, allocate-Inv, copy-Inv, status-Inv, diag-Inv, connection-Inv)

pub release-Inv : (a w : Option ℕ) (c : Connection) → Keeps (Inv a w) (release c)
release-Inv a w c = release-Frame (Inv a w) (frame a w) c

pub close-Inv : (a : Option ℕ) (id : ℕ) → Keeps (Inv a none) (close id)
unfolding close
close-Inv a id = Keeps-bind _ _ Keeps-get λ s.
    Keeps-for_some _ _ _ (Keeps-pure tt)
      λ c. Keeps-bind _ _ (Keeps-modify _ (unlink-Inv id a)) λ _. release-Inv a none c
