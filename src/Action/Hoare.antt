-- ===== src/Action/Hoare.antt =====
-- What holds after an action: one rule for each way to build one.
use vsql.Base.{not, Bool, true, false, ◌≡◌, refl, Option, none, some, List, [], ◌∷◌, if◌then◌else◌}
use vsql.Runtime.{Runtime, Module}
use vsql.Action.{Action, pure, ◌>>=◌, get, this_module, modify, for_some}

-- The action keeps `P`, whatever it returns.
pub record Keeps {A : Type 0} (P : Runtime → Type 0) (x : Action A) : Type 0 where
  pub at : (m : Module) (s : Runtime) → P s → P (x m s).1

-- `P` holds after the action if the test of its result does, whatever held before it.
pub record Out {A : Type 0} (test : A → Bool) (P : Runtime → Type 0) (x : Action A) : Type 0 where
  pub on : (m : Module) (s : Runtime) → test (x m s).0 ≡ true → P (x m s).1

-- `P` holds after the action, whatever held before it.
pub record Ends {A : Type 0} (P : Runtime → Type 0) (x : Action A) : Type 0 where
  pub after : (m : Module) (s : Runtime) → P (x m s).1

module _ {P : Runtime → Type 0} {A : Type 0} where
  pub Keeps-pure : (a : A) → Keeps P (pure a)
  unfolding pure
  Keeps-pure a = record { at = λ m s h. h }

  pub Keeps-if : (b : Bool) (x y : Action A) → Keeps P x → Keeps P y → Keeps P (if b then x else y)
  Keeps-if true x y h k = h
  Keeps-if false x y h k = k

  pub Ends-if : (b : Bool) (x y : Action A) → Ends P x → Ends P y → Ends P (if b then x else y)
  Ends-if true x y h k = h
  Ends-if false x y h k = k

  pub Ends-Keeps : (x : Action A) → Ends P x → Keeps P x
  Ends-Keeps x h = record { at = λ m s _. h.after m s }

pub Ends-weaken :
    {P Q : Runtime → Type 0} {A : Type 0} (x : Action A)
    → Ends P x
    → ((s : Runtime) → P s → Q s)
    → Ends Q x
Ends-weaken x h k = record { after = λ m s. k (x m s).1 (h.after m s) }

module _ {P : Runtime → Type 0} {A B : Type 0} where
  pub Keeps-bind :
      (x : Action A) (f : A → Action B) → Keeps P x → ((a : A) → Keeps P (f a)) → Keeps P (x >>= f)
  unfolding ◌>>=◌
  Keeps-bind x f h k = record { at = λ m s p. (k (x m s).0).at m (x m s).1 (h.at m s p) }

  -- The last part of the action makes it true,
  pub Ends-bind : (x : Action A) (f : A → Action B) → ((a : A) → Ends P (f a)) → Ends P (x >>= f)
  unfolding ◌>>=◌
  Ends-bind x f k = record { after = λ m s. (k (x m s).0).after m (x m s).1 }

  -- or the first part does, and the rest keeps it.
  pub Ends-first :
      (x : Action A) (f : A → Action B) → Ends P x → ((a : A) → Keeps P (f a)) → Ends P (x >>= f)
  unfolding ◌>>=◌
  Ends-first x f h k = record { after = λ m s. (k (x m s).0).at m (x m s).1 (h.after m s) }

  pub Keeps-for_some :
      (o : Option A) (x : Action B) (f : A → Action B)
      → Keeps P x
      → ((a : A) → Keeps P (f a))
      → Keeps P (for_some o x f)
  unfolding for_some
  Keeps-for_some none x f h k = h
  Keeps-for_some (some a) x f h k = k a

  pub Ends-for_some :
      (o : Option A) (x : Action B) (f : A → Action B)
      → Ends P x
      → ((a : A) → Ends P (f a))
      → Ends P (for_some o x f)
  unfolding for_some
  Ends-for_some none x f h k = h
  Ends-for_some (some a) x f h k = k a

pub Keeps-first :
    {P : Runtime → Type 0} {A B : Type 0} (xs : List A) {x : Action B} {f : A → List A → Action B}
    → Keeps P x
    → ((a : A) (rest : List A) → Keeps P (f a rest))
    → Keeps P (elim xs [ [] ↦ x | a ∷ rest ↦ f a rest ])
Keeps-first [] h k = h
Keeps-first (a ∷ rest) h k = k a rest

module _ {P : Runtime → Type 0} where
  pub Keeps-get : Keeps P get
  unfolding get
  Keeps-get = record { at = λ m s h. h }

  pub Keeps-this_module : Keeps P this_module
  unfolding this_module
  Keeps-this_module = record { at = λ m s h. h }

  pub Keeps-modify : (f : Runtime → Runtime) → ((s : Runtime) → P s → P (f s)) → Keeps P (modify f)
  unfolding modify
  Keeps-modify f h = record { at = λ m s p. h s p }

  pub Ends-modify : (f : Runtime → Runtime) → ((s : Runtime) → P (f s)) → Ends P (modify f)
  unfolding modify
  Ends-modify f h = record { after = λ m s. h s }

abbrev pub always {ℓ} : {A : Type ℓ} → A → Bool
always a = true

abbrev pub is_none {ℓ} : {A : Type ℓ} → Option A → Bool
is_none none = true
is_none (some a) = false

module _ {P : Runtime → Type 0} {A : Type 0} {test : A → Bool} where
  pub Out-Ends : (x : Action A) → Ends P x → Out test P x
  Out-Ends x h = record { on = λ m s _. h.after m s }

  pub Out-pure : (a : A) → test a ≡ false → Out test P (pure a)
  unfolding pure
  Out-pure a h = record { on = λ m s e. cc }

  pub Out-if :
      (b : Bool) (x y : Action A) → Out test P x → Out test P y → Out test P (if b then x else y)
  Out-if true x y h k = h
  Out-if false x y h k = k

pub Ends-Out : {P : Runtime → Type 0} {A : Type 0} (x : Action A) → Out always P x → Ends P x
Ends-Out x h = record { after = λ m s. h.on m s refl }

module _ {P : Runtime → Type 0} {A B : Type 0} {test : B → Bool} where
  -- The first part does not matter.
  pub Out-bind :
      (x : Action A) (f : A → Action B) → ((a : A) → Out test P (f a)) → Out test P (x >>= f)
  unfolding ◌>>=◌
  Out-bind x f k = record { on = λ m s e. (k (x m s).0).on m (x m s).1 e }

  -- The first part makes it true.
  pub Out-first :
      (x : Action A) (f : A → Action B)
      → Ends P x
      → ((a : A) → Keeps P (f a))
      → Out test P (x >>= f)
  unfolding ◌>>=◌
  Out-first x f h k = record { on = λ m s e. (k (x m s).0).at m (x m s).1 (h.after m s) }

  pub Out-for_some :
      (o : Option A) (y : Action B) (f : A → Action B)
      → Out test P y
      → ((a : A) → Out test P (f a))
      → Out test P (for_some o y f)
  unfolding for_some
  Out-for_some none y f h k = h
  Out-for_some (some a) y f h k = k a

-- The first part makes it true if it fails, and the rest does otherwise.
module _ {P : Runtime → Type 0} {B : Type 0} {test : B → Bool} where
  pub Out-option :
      {A : Type 0} (x : Action (Option A)) (f : Option A → Action B)
      → Out is_none P x
      → Keeps P (f none)
      → ((a : A) → Out test P (f (some a)))
      → Out test P (x >>= f)
  unfolding ◌>>=◌
  Out-option x f h k g = record {
    on = λ m s e. after_option (x m s).0 f k g m (x m s).1 (h.on m s) e;
  }
    where
      after_option :
          {A : Type 0} (o : Option A) (f : Option A → Action B)
          → Keeps P (f none)
          → ((a : A) → Out test P (f (some a)))
          → (m : Module) (s : Runtime) → (is_none o ≡ true → P s)
          → test (f o m s).0 ≡ true
          → P (f o m s).1
      after_option none f k g m s h e = k.at m s (h refl)
      after_option (some a) f k g m s h e = (g a).on m s e

  pub Out-bool :
      (x : Action Bool) (f : Bool → Action B)
      → Out not P x
      → Keeps P (f false)
      → Out test P (f true)
      → Out test P (x >>= f)
  unfolding ◌>>=◌
  Out-bool x f h k g = record { on = λ m s e. after_bool (x m s).0 f k g m (x m s).1 (h.on m s) e }
    where
      after_bool :
          (b : Bool) (f : Bool → Action B)
          → Keeps P (f false)
          → Out test P (f true)
          → (m : Module) (s : Runtime) → (not b ≡ true → P s)
          → test (f b m s).0 ≡ true
          → P (f b m s).1
      after_bool false f k g m s h e = k.at m s (h refl)
      after_bool true f k g m s h e = g.on m s e

pub ruleset keeps_rules =
    (Keeps-pure, Keeps-if, Keeps-bind, Keeps-for_some, Keeps-get, Keeps-this_module)
