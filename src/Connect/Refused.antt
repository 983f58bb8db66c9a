-- ===== src/Connect/Refused.antt =====
-- Connection statements that are refused (vsql_m_switch to vsql_m_disconnect of
-- vsql/std_2_13_1_sql_client_module_definition.c).
use vsql.Base.{
  ℕ, none, some, zero, suc, arith, ap, ◌∙◌, List, [], ◌∷◌, get_elem?, ◌≡◌, refl, Bool, true, false,
  not, Option, if◌then◌else◌,
}
use vsql.Base.Bytes.{Bytes, bytes}
use vsql.Runtime.{Runtime, Module, Connection}
use vsql.Action.{Action, Done, pure, ◌>>=◌, ◌>>◌, get, modify}
use vsql.Diagnostics.{status, current_connection}
use vsql.Diagnostics.Agrees.{status-Only}
use vsql.Diagnostics.Frame.{status-Frame}
use vsql.Connect.{
  is_active, switch, connect, set_connection, any_active, disconnect, all, disconnect_all,
}

-- The sessions are as they were, and the status parameter has the code.
abbrev pub IsRefused : Bytes → Runtime → Runtime → Type 0
IsRefused code s t =
    (t.connections ≡ s.connections)
    × (t.current ≡ s.current)
    × (t.env ≡ s.env)
    × (t.sqlstate ≡ code)

status-IsRefused : (code : Bytes) (m : Module) (s : Runtime) → IsRefused code s (status code m s).1
status-IsRefused code m s =
    let (c, u, e) =
      (status-Frame
          (λ t. (t.connections ≡ s.connections) × (t.current ≡ s.current) × (t.env ≡ s.env))
          (λ t l a q h. h) code).at
        m s (refl, refl, refl) in
    (c, u, e, ((status-Only code).after m s).0)

abbrev pub marked : Runtime → Runtime
marked s = record s { connected = true }

switched :
    (m : Module) (s : Runtime) (b : Bool)
    → b ≡ true
    → let r = (if b then status (bytes "0A001") >> pure false else pure true) m (marked s) in
      (r.0 ≡ false) × IsRefused (bytes "0A001") s r.1
unfolding pure ◌>>=◌
switched m s true h = (refl, status-IsRefused (bytes "0A001") m (marked s))
switched m s false h = cc

switch-IsRefused :
    (m : Module) (s : Runtime)
    → is_active (current_connection s) ≡ true
    → (((switch m s).0) ≡ false) × IsRefused (bytes "0A001") s (switch m s).1
unfolding switch modify get ◌>>=◌ current_connection
switch-IsRefused m s h = switched m s _ h

unsettled :
    (A : Type 0) (b : Bool) (x : Action Done) (m : Module) (s t : Runtime) (code : Bytes)
    → b ≡ false
    → IsRefused code s t
    → IsRefused code s ((if not b then pure tt else x) m t).1
unfolding pure
unsettled A true x m s t code h k = cc
unsettled A false x m s t code h k = k

-- While the current SQL-connection has an active SQL-transaction, a CONNECT is refused with SQLSTATE
-- 0A001: the open SQL-connections, the current one and the environment are as they were.
pub connect-IsRefused :
    (server as_name user : Option Bytes) (m : Module) (s : Runtime)
    → is_active (current_connection s) ≡ true
    → IsRefused (bytes "0A001") s (connect server as_name user m s).1
unfolding connect ◌>>=◌
connect-IsRefused server as_name user m s h =
    let r = switch-IsRefused m s h in
    unsettled Done (switch m s).0 _ m s (switch m s).1 (bytes "0A001") r.0 r.1

-- While the current SQL-connection has an active SQL-transaction, a SET CONNECTION is refused
-- with SQLSTATE 0A001: the open SQL-connections, the current one and the environment are as they
-- were.
pub set_connection-IsRefused :
    (to : Option Bytes) (m : Module) (s : Runtime)
    → is_active (current_connection s) ≡ true
    → IsRefused (bytes "0A001") s (set_connection to m s).1
unfolding set_connection get ◌>>=◌
set_connection-IsRefused to m s h =
    let r = switch-IsRefused m s h in
    unsettled Done (switch m s).0 _ m s (switch m s).1 (bytes "0A001") r.0 r.1

active_kept :
    (b : Bool) (x : Action Done) (m : Module) (s : Runtime)
    → b ≡ true
    → IsRefused (bytes "25001") s ((if b then status (bytes "25001") else x) m (marked s)).1
active_kept true x m s h = status-IsRefused (bytes "25001") m (marked s)
active_kept false x m s h = cc

any_active-true :
    (i : ℕ) (c : Connection) (cs : List Connection)
    → get_elem? cs i ≡ some c
    → c.active ≡ true
    → any_active (λ d. true) cs ≡ true
unfolding any_active
any_active-true i c [] h k = absurd (cc h)
any_active-true zero c (d ∷ cs) h k =
    rw (ap (λ (o : Option Connection). elim o [ none ↦ false | some e ↦ e.active ]) h ∙ k) refl
any_active-true (suc i) c (d ∷ cs) h k = ground (arith, any_active-true i c cs h k)

-- If any SQL-connection of the list has an active SQL-transaction, DISCONNECT ALL is refused with
-- SQLSTATE 25001: the SQL-connections, the current one and the environment are as they were.
pub disconnect_all-IsRefused :
    (i : ℕ) (c : Connection) (m : Module) (s : Runtime)
    → get_elem? s.connections i ≡ some c
    → c.active ≡ true
    → IsRefused (bytes "25001") s (disconnect all m s).1
unfolding disconnect disconnect_all modify get ◌>>=◌
disconnect_all-IsRefused i c m s h k = active_kept _ _ m s (any_active-true i c s.connections h k)
