-- ===== src/Action/Triple.antt =====
-- What an action makes of what holds before it, by its result: one rule for each way to build one.
use vsql.Base.{Bool, true, false, if◌then◌else◌}
use vsql.Runtime.{Runtime, Module}
use vsql.Action.{Action, Done, pure, ◌>>=◌, ◌>>◌, get, modify}
use vsql.Action.Hoare.{Keeps}

-- From a state with `P`, the action ends in a state with `Q` of its result.
pub record Triple {A : Type 0} (P : Runtime → Type 0) (x : Action A) (Q : A → Runtime → Type 0)
    : Type 0 where
  pub run : (m : Module) (s : Runtime) → P s → Q (x m s).0 (x m s).1

module _ {A : Type 0} {P : Runtime → Type 0} {Q : A → Runtime → Type 0} where
  pub Triple-pure : (a : A) → ((s : Runtime) → P s → Q a s) → Triple P (pure a) Q
  unfolding pure
  Triple-pure a h = record { run = λ m s p. h s p }

  pub Triple-if :
      (b : Bool) (x y : Action A) → Triple P x Q → Triple P y Q → Triple P (if b then x else y) Q
  Triple-if true x y h k = h
  Triple-if false x y h k = k

  pub Triple-get :
      (f : Runtime → Action A)
      → ((m : Module) (s : Runtime) → P s → Q (f s m s).0 (f s m s).1)
      → Triple P (get >>= f) Q
  unfolding get ◌>>=◌
  Triple-get f h = record { run = λ m s p. h m s p }

module _ {A B : Type 0} {P : Runtime → Type 0} {R : B → Runtime → Type 0} where
  -- The first part keeps what holds before it,
  pub Triple-first :
      (x : Action A) (f : A → Action B)
      → Keeps P x
      → ((a : A) → Triple P (f a) R)
      → Triple P (x >>= f) R
  unfolding ◌>>=◌
  Triple-first x f h k = record { run = λ m s p. (k (x m s).0).run m (x m s).1 (h.at m s p) }

  -- or makes something else of it.
  pub Triple-bind :
      (Q : A → Runtime → Type 0) (x : Action A) (f : A → Action B)
      → Triple P x Q
      → ((a : A) → Triple (Q a) (f a) R)
      → Triple P (x >>= f) R
  unfolding ◌>>=◌
  Triple-bind Q x f h k = record { run = λ m s p. (k (x m s).0).run m (x m s).1 (h.run m s p) }

pub Triple-modify :
    {B : Type 0} {P : Runtime → Type 0} {R : B → Runtime → Type 0} (Q : Runtime → Type 0)
    (g : Runtime → Runtime) (f : Done → Action B)
    → ((s : Runtime) → P s → Q (g s))
    → Triple Q (f tt) R
    → Triple P (modify g >>= f) R
unfolding modify ◌>>=◌
Triple-modify Q g f h k = record { run = λ m s p. k.run m (g s) (h s p) }

-- A part of it that keeps something weaker, and the result.
pub Triple-refuse :
    {A B : Type 0} {P : Runtime → Type 0} {R : B → Runtime → Type 0} (Q : Runtime → Type 0)
    (x : Action A) (b : B)
    → ((s : Runtime) → P s → Q s)
    → Keeps Q x
    → ((s : Runtime) → Q s → R b s)
    → Triple P (x >> pure b) R
unfolding pure ◌>>=◌
Triple-refuse Q x b h k r = record { run = λ m s p. r _ (k.at m s (h s p)) }

pub Keeps_of_Triple :
    {A : Type 0} {P : Runtime → Type 0} {Q : A → Runtime → Type 0} (x : Action A)
    → ((a : A) (s : Runtime) → Q a s → P s)
    → Triple P x Q
    → Keeps P x
Keeps_of_Triple x h k = record { at = λ m s p. h (x m s).0 (x m s).1 (k.run m s p) }
