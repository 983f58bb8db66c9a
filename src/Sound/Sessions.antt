-- ===== src/Sound/Sessions.antt =====
-- Making, finding and leaving SQL-connections (vsql_m_open to vsql_m_disconnect of
-- vsql/std_2_13_1_sql_client_module_definition.c).
use vsql.Base.{ℕ, zero, suc, ◌≡◌, refl, Bool, true, false, not, Option, none, some, if◌then◌else◌}
use mathlib.Core.Path.{subst}
use vsql.Base.Bytes.{Bytes, bytes}
use vsql.Runtime.{Runtime, Module, Connection}
use vsql.Action.{Action, Done, pure, ◌>>=◌, ◌>>◌, for_some, get, modify}
use vsql.Action.Hoare.{
  Keeps, Keeps-pure, Keeps-if, Keeps-bind, Keeps-get, Keeps-modify, Keeps-for_some, Keeps-first,
}
use vsql.Action.Triple.{
  Triple, Triple-pure, Triple-if, Triple-get, Triple-first, Triple-bind, Triple-modify,
  Triple-refuse, Keeps_of_Triple,
}
use vsql.Diagnostics.{status}
use vsql.Session.{
  modify_connection, close, close_all, close_connections, exit, connect_new, open_connection,
  open_default, connection, schema, push_connection,
}
use vsql.Connect.{
  is_empty, find, find_default, switch, connected_to, connect_default, connect_named,
  connect_server, connect, select_connection, set_connection, Which, named, default, all, current,
  disconnect_one, disconnect_all, disconnect,
}
use vsql.Text.Name.{name}
use vsql.Sound.{HasWanted, HasCurrent, Inv, IsSound, IsOpened}
use vsql.Sound.Lists.{without-IsSound, IsSound_of_Inv, push-IsOpened, has-find, has-find_default}
use vsql.Sound.Rules.{
  call-Inv, connection-Inv, allocate-Inv, copy-Inv, status-Inv, diag-Inv, schema-Inv,
  make_ready-Inv, close-Inv, clear-Inv,
}

-- What vsql_m_open leaves, by its result.
abbrev pub Opened : Option ℕ → Runtime → Type 0
Opened none s = IsSound s
Opened (some id) s = IsOpened id s

-- What vsql_m_connection leaves: the SQL-connection that it returns is in the list.
abbrev pub Returned : Option ℕ → Runtime → Type 0
Returned none s = IsSound s
Returned (some id) s = Inv none (some id) s

weaken : (id : ℕ) (s : Runtime) → IsOpened id s → Inv (some id) none s
unfolding Inv
weaken id s (b, c, d) = (b, c, tt)

connect_new-Opened :
    (id : ℕ) (server : Bytes) (user : Option Bytes)
    → Triple (IsOpened id) (connect_new id server user) Opened
unfolding connect_new
connect_new-Opened id server user = Triple-first _ _ Keeps-get λ s.
    Triple-first _ _ (call-Inv _ _ _) λ r.
      Triple-if _ _ _
        (Triple-first _ _ (diag-Inv _ _ _ _ _)
          λ _. Triple-modify IsSound _ _ (without-IsSound id) (Triple-pure none λ t h. h))
        (Triple-first _ _ (connection-Inv _ _ id _ λ c. refl) λ _.
          Triple-first _ _ (call-Inv _ _ _) λ x.
            Triple-if _ _ _ (Triple-first _ _ (diag-Inv _ _ _ _ _) λ _. gone) (
              Triple-first _ _ (schema-Inv _ _ id)
                λ done. Triple-if done _ _ (Triple-pure (some id) λ t h. h) gone))
  where
    gone : Triple (IsOpened id) (close id >> pure none) Opened
    gone =
        Triple-refuse (Inv (some id) none) (close id) none (weaken id) (close-Inv (some id) id)
          (IsSound_of_Inv (some id) none)

-- vsql_m_open puts a new SQL-connection at the head of the list, or leaves the list without one.
pub open_connection-Opened :
    (server : Bytes) (user : Option Bytes) → Triple IsSound (open_connection server user) Opened
unfolding open_connection
open_connection-Opened server user = Triple-first _ _ (make_ready-Inv none none) λ ready.
    Triple-if _ _ _ (Triple-pure none λ s h. h) (
      Triple-first _ _ (allocate-Inv none none 1) λ there.
        Triple-if _ _ _ (Triple-refuse IsSound _ none (λ s h. h) (status-Inv none none _) λ s h. h)
          (Triple-get _ λ m s h.
            (Triple-modify (IsOpened s.fresh) push_connection _ (λ t k. pushed s t k)
                (Triple-first _ _ (copy-Inv _ _ _) λ copied.
                  Triple-first _ _ (connection-Inv _ _ s.fresh _ λ c. refl)
                    λ _. connect_new-Opened s.fresh server user)).run
              m s (h, refl)))
  where
    pushed :
        (s t : Runtime) → IsSound t × (t.fresh ≡ s.fresh) → IsOpened s.fresh (push_connection t)
    pushed s t (k, e) = rw⁻¹ e (push-IsOpened t k)

-- The new SQL-connection is the current one.
selected :
    (id : ℕ) (s : Runtime) → IsOpened id s → Inv none (some id) (record s { current = some id })
unfolding Inv
selected id s (b, c, d) = (b, (d, refl), d)

default-Returned :
    (opened : Option ℕ)
    → Triple
        (Opened opened)
        (modify (λ s. record s { current = opened }) >>= λ _.
          for_some opened (pure none) λ id.
            modify_connection id (λ c. record c { is_default = true }) >>= λ _. pure (some id))
        Returned
unfolding Inv for_some
default-Returned none =
    Triple-modify IsSound _ _ (λ s (b, c, d). (b, tt, tt)) (Triple-pure none λ s h. h)
default-Returned (some id) = Triple-modify (Inv none (some id)) _ _ (selected id) (
    Triple-first _ _ (connection-Inv none (some id) id _ λ c. refl)
      λ _. Triple-pure (some id) λ s h. h)

open_default-Returned : Triple IsSound open_default Returned
unfolding open_default
open_default-Returned = Triple-bind Opened _ _ (open_connection-Opened _ _) default-Returned

-- The schema of the current SQL-connection, which is in the list.
current_ready :
    (o : Option ℕ) (b : Bool) (m : Module) (s : Runtime)
    → s.current ≡ o
    → IsSound s
    → let r =
        for_some o
          (if b then status (bytes "08003") >> pure none else open_default)
          (λ id. schema id >>= λ done. pure (if done then some id else none))
          m
          s in
      Returned r.0 r.1
unfolding Inv for_some
current_ready none b m s e h =
    (Triple-if b _ _ (Triple-refuse IsSound _ none (λ t k. k) (status-Inv none none _) λ t k. k)
        open_default-Returned).run
      m s h
current_ready (some id) b m s e (b', c, d) =
    (Triple-first {P = Inv none (some id)} {R = Returned} _ _ (schema-Inv none (some id) id)
        λ done. Triple-pure (if done then some id else none) (returned done id)).run
      m s (b', c, (there s.current e c).0)
  where
    there :
        (o : Option ℕ)
        → o ≡ some id
        → HasCurrent none o s.connections
        → HasCurrent none (some id) s.connections
    there o k q = subst (λ (x : Option ℕ). HasCurrent none x s.connections) k q

    returned :
        (done : Bool) (id : ℕ) (t : Runtime)
        → Inv none (some id) t
        → Returned (if done then some id else none) t
    returned true id t k = k
    returned false id t k = IsSound_of_Inv none (some id) t k

-- From a state in which the addresses descend and the current SQL-connection is in the list,
-- vsql_m_connection returns an SQL-connection that is in the list after it, or none, and the
-- state after it is again such a state.
pub connection-Returned : Triple IsSound connection Returned
unfolding connection
connection-Returned = Triple-get _ λ m s h. current_ready s.current s.connected m s refl h

pub Returned-IsSound : (o : Option ℕ) (s : Runtime) → Returned o s → IsSound s
Returned-IsSound none s h = h
Returned-IsSound (some id) s h = IsSound_of_Inv none (some id) s h

pub connection-IsSound : Keeps IsSound connection
connection-IsSound = Keeps_of_Triple connection Returned-IsSound connection-Returned

switch-IsSound : Keeps IsSound switch
unfolding Inv switch
switch-IsSound = Keeps-bind _ _ (Keeps-modify _ λ s h. h) λ _. Keeps-bind _ _ Keeps-get λ s.
    Keeps-if _ _ _ (Keeps-bind _ _ (status-Inv none none _) λ _. Keeps-pure false) (Keeps-pure true)

connected_to-IsSound :
    (f : Connection → Connection)
    → ((c : Connection) → (f c).id ≡ c.id)
    → (opened : Option ℕ)
    → Triple (Opened opened) (for_some opened (pure tt) λ id. connected_to id f) λ _. IsSound
unfolding for_some connected_to
connected_to-IsSound f e none = Triple-pure tt λ s h. h
connected_to-IsSound f e (some id) = Triple-first _ _ (connection-Inv _ _ id f e) λ _.
    Triple-modify IsSound _ _ (λ s h. IsSound_of_Inv none (some id) _ (selected id s h))
      (finished (status-Inv none none _))
  where
    finished : {x : Action Done} → Keeps IsSound x → Triple IsSound x λ _. IsSound
    finished h = record { run = h.at }

made :
    (f : Connection → Connection)
    → ((c : Connection) → (f c).id ≡ c.id)
    → (server : Bytes) (user : Option Bytes)
    → Keeps IsSound (
        open_connection server user >>= λ opened. for_some opened (pure tt) λ id. connected_to id f)
made f e server user =
    Keeps_of_Triple _ (λ _ s h. h)
      (Triple-bind Opened _ _ (open_connection-Opened server user) (connected_to-IsSound f e))

connect_default-IsSound : Keeps IsSound connect_default
unfolding connect_default
connect_default-IsSound =
    Keeps-bind _ _ Keeps-get
      λ s. Keeps-for_some _ _ _ (made _ (λ c. refl) _ none) λ id. status-Inv none none _

connect_named-IsSound :
    (server n : Bytes) (user : Option Bytes) → Keeps IsSound (connect_named server n user)
unfolding connect_named
connect_named-IsSound server n user =
    Keeps-bind _ _ Keeps-get
      λ s. Keeps-for_some _ _ _ (made _ (λ c. refl) server user) λ id. status-Inv none none _

connect_server-IsSound :
    (server : Bytes) (as_name user : Option Bytes)
    → Keeps IsSound (connect_server server as_name user)
unfolding connect_server
connect_server-IsSound server as_name user = search (Keeps-if, status-Inv, connect_named-IsSound)

pub connect-IsSound :
    (server as_name user : Option Bytes) → Keeps IsSound (connect server as_name user)
unfolding connect
connect-IsSound server as_name user = Keeps-bind _ _ switch-IsSound λ free.
    Keeps-if _ _ _ (Keeps-pure tt)
      (Keeps-for_some server _ _ connect_default-IsSound λ t. connect_server-IsSound t as_name user)

-- An SQL-connection that is in the list is selected.
select_found :
    (found : Option ℕ) (m : Module) (s : Runtime)
    → HasWanted found s.connections
    → IsSound s
    → IsSound (select_connection found m s).1
unfolding Inv select_connection for_some modify ◌>>=◌
select_found none m s w h = (status-Inv none none _).at m s h
select_found (some id) m s w (b, c, d) =
    (status-Inv none none _).at m (record s { current = some id }) (b, (w, refl), tt)

-- The SQL-connection that a SET CONNECTION names, in the state that it is found in.
choose :
    (free : Bool) (to : Option Bytes) (m : Module) (s : Runtime)
    → IsSound s
    → IsSound
        ((if not free
            then pure tt
            else for_some to (select_connection (find_default s.connections)) (λ n.
              if is_empty (name n)
              then status (bytes "2E000")
              else select_connection (find (name n) s.connections)))
          m s).1
unfolding for_some pure
choose false to m s h = h
choose true none m s h = select_found _ m s (has-find_default s.connections) h
choose true (some n) m s h = named_found (is_empty (name n)) (name n) m s h
  where
    named_found :
        (b : Bool) (t : Bytes) (m : Module) (s : Runtime)
        → IsSound s
        → IsSound
            ((if b then status (bytes "2E000") else select_connection (find t s.connections)) m s).1
    named_found true t m s h = (status-Inv none none _).at m s h
    named_found false t m s h = select_found _ m s (has-find t s.connections) h

pub set_connection-IsSound : (to : Option Bytes) → Keeps IsSound (set_connection to)
unfolding set_connection
set_connection-IsSound to = Keeps-bind _ _ switch-IsSound λ free.
    Keeps_of_Triple _ (λ _ s h. h) (Triple-get {Q = λ _. IsSound} _ λ m s h. choose free to m s h)

close_all-IsSound : (rounds : ℕ) → Keeps IsSound (close_all rounds)
unfolding close_all
close_all-IsSound zero = Keeps-pure tt
close_all-IsSound (suc rounds) = Keeps-bind get _ Keeps-get λ s.
    Keeps-first s.connections (Keeps-pure tt)
      λ c cs. Keeps-bind (close c.id) _ (close-Inv none c.id) λ _. close_all-IsSound rounds

pub exit-IsSound : Keeps IsSound exit
unfolding Inv exit close_connections
exit-IsSound = Keeps-bind _ _ (Keeps-bind _ _ Keeps-get λ s. close_all-IsSound _) λ _.
    Keeps-bind _ _ Keeps-get λ s.
      Keeps-bind _ _ (call-Inv none none _)
        λ r. Keeps-bind _ _ (Keeps-modify _ λ t h. h) λ _. clear-Inv none none

disconnect_one-IsSound : (found : Option ℕ) → Keeps IsSound (disconnect_one found)
unfolding disconnect_one
disconnect_one-IsSound found = Keeps-for_some found _ _ (status-Inv none none _) λ id.
    Keeps-bind _ _ Keeps-get λ s.
      Keeps-if _ _ _ (status-Inv none none _)
        (Keeps-bind _ _ (close-Inv none id) λ _. status-Inv none none _)

disconnect_all-IsSound : Keeps IsSound disconnect_all
unfolding disconnect_all close_connections
disconnect_all-IsSound = Keeps-bind _ _ Keeps-get λ s.
    Keeps-if _ _ _ (status-Inv none none _) (
      Keeps-bind _ _ (Keeps-bind _ _ Keeps-get λ t. close_all-IsSound _)
        λ _. status-Inv none none _)

marked : Keeps IsSound (modify (λ s. record s { connected = true }))
unfolding Inv
marked = Keeps-modify _ λ s h. h

pub disconnect-IsSound : (which : Which) → Keeps IsSound (disconnect which)
unfolding disconnect
disconnect-IsSound (named n) = Keeps-bind _ _ marked λ _.
    Keeps-bind _ _ Keeps-get λ s. Keeps-if _ _ _ (status-Inv none none _) (disconnect_one-IsSound _)
disconnect-IsSound default =
    Keeps-bind _ _ marked λ _. Keeps-bind _ _ Keeps-get λ s. disconnect_one-IsSound _
disconnect-IsSound current =
    Keeps-bind _ _ marked λ _. Keeps-bind _ _ Keeps-get λ s. disconnect_one-IsSound _
disconnect-IsSound all =
    Keeps-bind _ _ marked λ _. Keeps-bind _ _ Keeps-get λ s. disconnect_all-IsSound
