-- ===== src/Agreement/Sessions.antt =====
-- The status after the connection statements (vsql/std_2_13_1_sql_client_module_definition.c).
use vsql.Base.{ℕ, refl, Bool, true, false, not, Option, none, some}
use vsql.Base.Bytes.{Bytes}
use vsql.Runtime.{Connection}
use vsql.Action.{Action, Done, pure, ◌>>=◌, ◌>>◌, for_some}
use vsql.Action.Hoare.{
  Ends, Out, is_none, Keeps-modify, Keeps-pure, Out-pure, Out-if, Out-bind, Out-first, Out-Ends,
  Out-for_some, Out-option, Out-bool, Ends-Out, Ends-bind, Ends-if, Ends-for_some, Keeps-bind,
}
use vsql.Diagnostics.Agrees.{Agrees, status-Agrees, diag-Agrees}
use vsql.Session.{
  schema_set, set_schema, schema, make_ready, connect_new, open_connection, open_default,
  connection,
}
use vsql.Connect.{
  switch, connected_to, connect_default, connect_named, connect_server, connect, select_connection,
  set_connection, Which, named, default, all, current, disconnect_one, disconnect_all, disconnect,
}
use vsql.Agreement.Rules.{agree_keeps, agree_rules}

module _ {A : Type 0} {test : A → Bool} where
  -- A condition is raised, and the result is returned.
  pub refuse : (x : Action Done) (a : A) → Ends Agrees x → Out test Agrees (x >> pure a)
  refuse x a h = Out-first x _ h λ _. Keeps-pure a

schema_set-Agrees : (c : Connection) → Out not Agrees (schema_set c)
unfolding schema_set
schema_set-Agrees c = Out-bind _ _ λ m. Out-bind _ _ λ _. Out-bind _ _ λ _. Out-pure true refl

set_schema-Agrees : (c : Connection) → Out not Agrees (set_schema c)
unfolding set_schema
set_schema-Agrees c = Out-bind _ _ λ m. Out-bind _ _ λ r.
    Out-if _ _ _ (refuse _ false (diag-Agrees _ _ _)) (
      Out-bind _ _ λ x.
        Out-if _ _ _ (Out-first _ _ (diag-Agrees _ _ _) λ _. search agree_keeps)
          (Out-bind _ _ λ _. schema_set-Agrees c))

pub schema-Agrees : (id : ℕ) → Out not Agrees (schema id)
unfolding schema
schema-Agrees id = Out-bind _ _ λ m. Out-bind _ _ λ s. search (Out-if, Out-pure, set_schema-Agrees)

make_ready-Agrees : Out not Agrees make_ready
unfolding make_ready
make_ready-Agrees =
    Out-bind _ _ λ s. search (Out-if, Out-pure, Out-bind, refuse, status-Agrees) depth 8

connect_new-Agrees :
    (id : ℕ) (server : Bytes) (user : Option Bytes)
    → Out is_none Agrees (connect_new id server user)
unfolding connect_new
connect_new-Agrees id server user = Out-bind _ _ λ s. Out-bind _ _ λ r.
    Out-if _ _ _
      (Out-first _ _ (diag-Agrees _ _ _)
        λ _. Keeps-bind _ _ (Keeps-modify _ (λ t h. h)) λ _. Keeps-pure none)
      (Out-bind _ _ λ _. Out-bind _ _ λ x.
        Out-if _ _ _ (Out-first _ _ (diag-Agrees _ _ _) λ _. search agree_rules)
          (Out-bool _ _ (schema-Agrees id) (search agree_rules) (Out-pure (some id) refl)))

pub open_connection-Agrees :
    (server : Bytes) (user : Option Bytes) → Out is_none Agrees (open_connection server user)
unfolding open_connection
open_connection-Agrees server user = Out-bool _ _ make_ready-Agrees (Keeps-pure none) (
    Out-bind _ _ λ there. Out-if _ _ _ (refuse _ none (status-Agrees _)) (
      Out-bind _ _ λ s.
        Out-bind _ _
          λ _. Out-bind _ _ λ _. Out-bind _ _ λ _. connect_new-Agrees s.fresh server user))

open_default-Agrees : Out is_none Agrees open_default
unfolding open_default for_some
open_default-Agrees =
    Out-option _ _ (open_connection-Agrees _ _)
      (Keeps-bind _ _ (Keeps-modify _ (λ s h. h)) λ _. Keeps-pure none)
      λ id. Out-bind _ _ λ _. Out-bind _ _ λ _. Out-pure (some id) refl

pub connection-Agrees : Out is_none Agrees connection
unfolding connection
connection-Agrees = Out-bind _ _ λ s.
    Out-for_some _ _ _ (Out-if _ _ _ (refuse _ none (status-Agrees _)) open_default-Agrees)
      λ id. Out-bool _ _ (schema-Agrees id) (Keeps-pure none) (Out-pure (some id) refl)

switch-Agrees : Out not Agrees switch
unfolding switch
switch-Agrees = Out-bind _ _ λ _. Out-bind _ _ λ s. search (Out-if, Out-pure, refuse, status-Agrees)

connected_to-Agrees : (id : ℕ) (f : Connection → Connection) → Ends Agrees (connected_to id f)
unfolding connected_to
connected_to-Agrees id f = Ends-bind _ _ λ _. Ends-bind _ _ λ _. status-Agrees _

-- A new SQL-connection that is not made has said why.
opened-Agrees :
    (server : Bytes) (user : Option Bytes) (f : Connection → Connection)
    → Ends Agrees (
        open_connection server user >>= λ opened. for_some opened (pure tt) λ id. connected_to id f)
unfolding for_some
opened-Agrees server user f = Ends-Out _ (
    Out-option _ _ (open_connection-Agrees server user) (Keeps-pure tt)
      λ id. Out-Ends _ (connected_to-Agrees id f))

connect_default-Agrees : Ends Agrees connect_default
unfolding connect_default
connect_default-Agrees =
    Ends-bind _ _ λ s. Ends-for_some _ _ _ (opened-Agrees _ _ _) λ id. status-Agrees _

connect_named-Agrees :
    (server n : Bytes) (user : Option Bytes) → Ends Agrees (connect_named server n user)
unfolding connect_named
connect_named-Agrees server n user =
    Ends-bind _ _ λ s. Ends-for_some _ _ _ (opened-Agrees _ _ _) λ id. status-Agrees _

connect_server-Agrees :
    (server : Bytes) (as_name user : Option Bytes)
    → Ends Agrees (connect_server server as_name user)
unfolding connect_server
connect_server-Agrees server as_name user = search (Ends-if, status-Agrees, connect_named-Agrees)

pub connect-Agrees :
    (server as_name user : Option Bytes) → Ends Agrees (connect server as_name user)
unfolding connect
connect-Agrees server as_name user = Ends-Out _ (
    Out-bool _ _ switch-Agrees (Keeps-pure tt) (
      Out-for_some _ _ _ (Out-Ends _ connect_default-Agrees)
        λ t. Out-Ends _ (connect_server-Agrees t as_name user)))

select_connection-Agrees : (found : Option ℕ) → Ends Agrees (select_connection found)
unfolding select_connection
select_connection-Agrees found =
    Ends-for_some _ _ _ (status-Agrees _) λ id. Ends-bind _ _ λ _. status-Agrees _

pub set_connection-Agrees : (to : Option Bytes) → Ends Agrees (set_connection to)
unfolding set_connection
set_connection-Agrees to = Ends-Out _ (
    Out-bool _ _ switch-Agrees (search agree_rules) (
      Out-bind _ _ λ s. Out-Ends _ (
        Ends-for_some _ _ _ (select_connection-Agrees _)
          λ n. search (Ends-if, status-Agrees, select_connection-Agrees))))

disconnect_one-Agrees : (found : Option ℕ) → Ends Agrees (disconnect_one found)
unfolding disconnect_one
disconnect_one-Agrees found =
    Ends-for_some _ _ _ (status-Agrees _)
      λ id. Ends-bind _ _ λ s. Ends-if _ _ _ (status-Agrees _) (Ends-bind _ _ λ _. status-Agrees _)

disconnect_all-Agrees : Ends Agrees disconnect_all
unfolding disconnect_all
disconnect_all-Agrees =
    Ends-bind _ _ λ s. Ends-if _ _ _ (status-Agrees _) (Ends-bind _ _ λ _. status-Agrees _)

pub disconnect-Agrees : (which : Which) → Ends Agrees (disconnect which)
unfolding disconnect
disconnect-Agrees (named n) =
    Ends-bind _ _ λ _. Ends-bind _ _ λ s. search (Ends-if, status-Agrees, disconnect_one-Agrees)
disconnect-Agrees default = Ends-bind _ _ λ _. Ends-bind _ _ λ s. disconnect_one-Agrees _
disconnect-Agrees current = Ends-bind _ _ λ _. Ends-bind _ _ λ s. disconnect_one-Agrees _
disconnect-Agrees all = Ends-bind _ _ λ _. Ends-bind _ _ λ s. disconnect_all-Agrees
