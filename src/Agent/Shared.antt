-- ===== src/Agent/Shared.antt =====
-- Which SQL-agent a module has (vsql_m_agent of
-- vsql/std_2_13_1_sql_client_module_definition.c).
use vsql.Base.{
  ℕ, ◌≡◌, refl, sym, ap, ◌∙◌, ◌⊎◌, inl, inr, Bool, true, false, Option, none, some, List, [], ◌∷◌,
  ◌==◌, if◌then◌else◌, ==_refl, ==_iff,
}
use vsql.Agent.{Sharing, unshared, set_at, shared_or, chosen, attach, agent_or, agent, agents_of}

module _ (version : ℕ → ℕ) where
  -- The agent of the module `k` if they have the same version, otherwise its own.
  abbrev pub agent_by : ℕ → ℕ → ℕ
  agent_by k id = if version k == version id then k else id

  IsShared : ℕ → Sharing → Type 0
  IsShared k s =
      (s.shared ≡ some k)
      × (s.versions k ≡ version k)
      × ((id : ℕ) → (s.agents id ≡ none) ⊎ (s.agents id ≡ some (agent_by k id)))

  version-set : (k id : ℕ) (f : ℕ → ℕ) → f k ≡ version k → set_at f id (version id) k ≡ version k
  version-set k id f h = by_test (k == id) refl
    where
      by_test : (b : Bool) → (k == id) ≡ b → (if b then version id else f k) ≡ version k
      by_test true e = ap version (sym ((==_iff k id).0 e))
      by_test false e = h

  chosen-agent_by : (k id : ℕ) (s : Sharing) → IsShared k s → chosen version id s ≡ agent_by k id
  unfolding IsShared
  chosen-agent_by k id s (h, e, a) =
      ap
        (λ (o : Option ℕ).
          if set_at s.versions id (version id) (shared_or o id) == version id
          then shared_or o id
          else id)
        h
      ∙ ap (λ (v : ℕ). if v == version id then k else id) (version-set k id s.versions e)

  -- What is kept for one module, when another one or itself is attached.
  agents-set :
      (k id a : ℕ) (f : ℕ → Option ℕ)
      → a ≡ agent_by k id
      → ((j : ℕ) → (f j ≡ none) ⊎ (f j ≡ some (agent_by k j)))
      → (j : ℕ) → (set_at f id (some a) j ≡ none) ⊎ (set_at f id (some a) j ≡ some (agent_by k j))
  agents-set k id a f e h j = by_test (j == id) refl
    where
      by_test :
          (b : Bool)
          → (j == id) ≡ b
          → ((if b then some a else f j) ≡ none)
            ⊎ ((if b then some a else f j) ≡ some (agent_by k j))
      by_test true q =
          inr (ap some e ∙ ap (λ (x : ℕ). some (agent_by k x)) (sym ((==_iff j id).0 q)))
      by_test false q = h j

  attach-IsShared : (k id : ℕ) (s : Sharing) → IsShared k s → IsShared k (attach version id s)
  unfolding IsShared
  attach-IsShared k id s (h, e, a) = (
    ap (λ (o : Option ℕ). some (shared_or o id)) h,
    version-set k id s.versions e,
    agents-set k id (chosen version id s) s.agents (chosen-agent_by k id s (h, e, a)) a,
  )

  agent_or-IsShared :
      (k id : ℕ) (o : Option ℕ) (s : Sharing)
      → (o ≡ none) ⊎ (o ≡ some (agent_by k id))
      → IsShared k s
      → ((agent_or version o id s).0 ≡ agent_by k id) × IsShared k (agent_or version o id s).1
  agent_or-IsShared k id none s q h = (chosen-agent_by k id s h, attach-IsShared k id s h)
  agent_or-IsShared k id (some a) s (inl e) h = absurd (cc e)
  agent_or-IsShared k id (some a) s (inr e) h =
      (ap (λ (o : Option ℕ). elim o [ none ↦ a | some x ↦ x ]) e, h)

  agent-IsShared :
      (k id : ℕ) (s : Sharing)
      → IsShared k s
      → ((agent version id s).0 ≡ agent_by k id) × IsShared k (agent version id s).1
  unfolding agent IsShared
  agent-IsShared k id s h = let (e, v, a) = h in agent_or-IsShared k id (s.agents id) s (a id) h

  agents_of-IsShared :
      (k : ℕ) (ids : List ℕ) (s : Sharing) → IsShared k s → IsShared k (agents_of version ids s)
  unfolding agents_of
  agents_of-IsShared k [] s h = h
  agents_of-IsShared k (id ∷ ids) s h =
      agents_of-IsShared k ids (agent version id s).1 (agent-IsShared k id s h).1

  first-IsShared : (k : ℕ) → IsShared k (agent version k unshared).1
  unfolding agent IsShared
  first-IsShared k = (
    refl,
    rw (==_refl k) refl,
    agents-set k k (chosen version k unshared) (λ id. none) (same k) (λ j. inl refl),
  )
    where
      same : (k : ℕ) → chosen version k unshared ≡ agent_by k k
      same k = rw (==_refl k) refl

  -- After the first call, in the module `k`, and calls in any modules, vsql_m_agent in a module
  -- returns the agent of `k` if the two were compiled with the same version, and its own otherwise.
  pub agent_lem :
      (k id : ℕ) (ids : List ℕ)
      → (agent version id (agents_of version (k ∷ ids) unshared)).0
        ≡ (if version k == version id then k else id)
  unfolding agents_of
  agent_lem k id ids =
      (agent-IsShared k id (agents_of version ids (agent version k unshared).1)
        (agents_of-IsShared k ids (agent version k unshared).1 (first-IsShared k))).0
