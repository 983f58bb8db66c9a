-- ===== src/Sound/Lists.antt =====
-- Lists of SQL-connections that are changed.
use vsql.Base.{
  ℕ, ◌≤◌, ◌<◌, ◌≡◌, refl, ◌∙◌, Bool, true, false, ◌==◌, Option, none, some, List, [], ◌∷◌, arith,
  if◌then◌else◌, inl, inr, Bool-cases,
}
use vsql.Base.Bytes.{Bytes}
use vsql.Runtime.{Runtime, Connection}
use vsql.Session.{same, update, without, unlink, push_connection}
use vsql.Connect.{find, find_default}
use vsql.Sound.{IsBelow, has, HasWanted, HasCurrent, Inv, IsSound, IsOpened}

IsBelow-le : (m n : ℕ) (cs : List Connection) → m ≤ n → IsBelow m cs → IsBelow n cs
IsBelow-le m n [] h k = tt
IsBelow-le m n (c ∷ cs) h k = (omega (arith, k.0), k.1)

has-lt : (n id : ℕ) (cs : List Connection) → IsBelow n cs → has id cs ≡ true → id < n
has-lt n id [] h k = ground arith
has-lt n id (c ∷ cs) h k = ground (arith, h.0, has-lt c.id id cs h.1)

module _ (id : ℕ) (f : Connection → Connection) (e : (c : Connection) → (f c).id ≡ c.id) where
  update-IsBelow : (n : ℕ) (cs : List Connection) → IsBelow n cs → IsBelow n (update id f cs)
  unfolding update
  update-IsBelow n [] h = tt
  update-IsBelow n (c ∷ cs) h = elim (Bool-cases (c.id == id)) [
    | inl k ↦ rw (k, e c) h
    | inr k ↦ rw k (h.0, update-IsBelow c.id cs h.1)
  ]

  pub has-update : (j : ℕ) (cs : List Connection) → has j (update id f cs) ≡ has j cs
  unfolding update
  has-update j [] = refl
  has-update j (c ∷ cs) = elim (Bool-cases (c.id == id)) [
    | inl k ↦ rw (k, e c) refl
    | inr k ↦ rw (k, has-update j cs) refl
  ]

  update-HasWanted :
      (w : Option ℕ) (cs : List Connection) → HasWanted w cs → HasWanted w (update id f cs)
  update-HasWanted none cs h = tt
  update-HasWanted (some j) cs h = has-update j cs ∙ h

  update-HasCurrent :
      (a o : Option ℕ) (cs : List Connection) → HasCurrent a o cs → HasCurrent a o (update id f cs)
  update-HasCurrent a none cs h = tt
  update-HasCurrent a (some j) cs h = (has-update j cs ∙ h.0, h.1)

  pub update-Inv :
      (a w : Option ℕ) (s : Runtime)
      → Inv a w s
      → Inv a w (record s { connections = update id f s.connections })
  unfolding Inv
  update-Inv a w s (b, c, d) = (
    update-IsBelow s.fresh s.connections b,
    update-HasCurrent a s.current s.connections c,
    update-HasWanted w s.connections d,
  )

without-IsBelow : (id n : ℕ) (cs : List Connection) → IsBelow n cs → IsBelow n (without id cs)
unfolding without
without-IsBelow id n [] h = tt
without-IsBelow id n (c ∷ cs) h = elim (Bool-cases (c.id == id)) [
  | inl k ↦ rw k (IsBelow-le c.id n cs (omega (arith, h.0)) h.1)
  | inr k ↦ rw k (h.0, without-IsBelow id c.id cs h.1)
]

has-without :
    (j id : ℕ) (cs : List Connection) → (j == id) ≡ false → has j (without id cs) ≡ has j cs
unfolding without
has-without j id [] h = refl
has-without j id (c ∷ cs) h = ground (arith, has-without j id cs h)

unlink-HasCurrent :
    (id : ℕ) (a o : Option ℕ) (cs : List Connection)
    → HasCurrent a o cs
    → HasCurrent a (if same o (some id) then none else o) (without id cs)
unlink-HasCurrent id a none cs h = tt
unlink-HasCurrent id a (some j) cs h = elim (Bool-cases (j == id)) [
  | inl k ↦ rw k tt
  | inr k ↦ rw k (has-without j id cs k ∙ h.0, h.1)
]

pub unlink-Inv : (id : ℕ) (a : Option ℕ) (s : Runtime) → Inv a none s → Inv a none (unlink id s)
unfolding Inv
unlink-Inv id a s (b, c, d) = (
  without-IsBelow id s.fresh s.connections b,
  unlink-HasCurrent id a s.current s.connections c,
  tt,
)

without-HasCurrent :
    (id : ℕ) (o : Option ℕ) (cs : List Connection)
    → HasCurrent (some id) o cs
    → HasCurrent none o (without id cs)
without-HasCurrent id none cs h = tt
without-HasCurrent id (some j) cs h = (has-without j id cs h.1 ∙ h.0, refl)

pub without-IsSound :
    (id : ℕ) (s : Runtime)
    → IsOpened id s
    → IsSound (record s { connections = without id s.connections })
unfolding Inv
without-IsSound id s (b, c, d) = (
  without-IsBelow id s.fresh s.connections b,
  without-HasCurrent id s.current s.connections c,
  tt,
)

HasCurrent-weaken :
    (a o : Option ℕ) (cs : List Connection) → HasCurrent a o cs → HasCurrent none o cs
HasCurrent-weaken a none cs h = tt
HasCurrent-weaken a (some j) cs h = (h.0, refl)

pub IsSound_of_Inv : (a w : Option ℕ) (s : Runtime) → Inv a w s → IsSound s
unfolding Inv
IsSound_of_Inv a w s (b, c, d) = (b, HasCurrent-weaken a s.current s.connections c, tt)

push-HasCurrent :
    (n : ℕ) (c : Connection) (o : Option ℕ) (cs : List Connection)
    → IsBelow n cs
    → HasCurrent none o cs
    → HasCurrent (some n) o (c ∷ cs)
push-HasCurrent n c none cs h k = tt
push-HasCurrent n c (some j) cs h k =
    let below = has-lt n j cs h k.0 in (ground (arith, k.0), ground (arith, below))

pub push-IsOpened : (s : Runtime) → IsSound s → IsOpened s.fresh (push_connection s)
unfolding Inv
push-IsOpened s (b, c, d) =
    ((omega arith, b), push-HasCurrent s.fresh _ s.current s.connections b c, ground arith)

-- The first of a list, or one of the rest.
HasWanted-cons :
    (b : Bool) (o : Option ℕ) (c : Connection) (cs : List Connection)
    → HasWanted o cs
    → HasWanted (if b then some c.id else o) (c ∷ cs)
HasWanted-cons true o c cs h = ground arith
HasWanted-cons false none c cs h = tt
HasWanted-cons false (some id) c cs h = ground (arith, h)

pub has-find : (n : Bytes) (cs : List Connection) → HasWanted (find n cs) cs
unfolding find
has-find n [] = tt
has-find n (c ∷ cs) = HasWanted-cons _ (find n cs) c cs (has-find n cs)

pub has-find_default : (cs : List Connection) → HasWanted (find_default cs) cs
unfolding find_default
has-find_default [] = tt
has-find_default (c ∷ cs) = HasWanted-cons c.is_default (find_default cs) c cs (has-find_default cs)
