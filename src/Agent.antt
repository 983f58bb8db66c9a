-- ===== src/Agent.antt =====
-- How the modules of a program find the SQL-agent that they share: vsql_m_agent
-- (vsql/std_2_13_1_sql_client_module_definition.c). A module is its number, the address of its
-- vsql_m_own, and each was compiled with a version of the runtime.
pub mod Shared
use vsql.Base.{ℕ, Option, none, some, List, [], ◌∷◌, ◌==◌, if◌then◌else◌}

-- The pointer behind vsql_module_agent, and the vsql_m_a and the version in the vsql_m_own of each
-- module.
pub record Sharing : Type 0 where
  pub shared : Option ℕ
  pub agents : ℕ → Option ℕ
  pub versions : ℕ → ℕ

-- Static storage is zero.
abbrev pub unshared : Sharing
unshared = record { shared = none; agents = λ id. none; versions = λ id. 0 }

abbrev pub set_at : {A : Type 0} → (ℕ → A) → ℕ → A → ℕ → A
set_at f i v j = if j == i then v else f j

-- if (*shared == NULL) *shared = &vsql_m_own;
abbrev pub shared_or : Option ℕ → ℕ → ℕ
shared_or none id = id
shared_or (some k) id = k

module _ (version : ℕ → ℕ) where
  -- The agent of a module that has none yet.
  abbrev pub chosen : ℕ → Sharing → ℕ
  chosen id s =
      let k = shared_or s.shared id in
      if set_at s.versions id (version id) k == version id then k else id

  abbrev pub attach : ℕ → Sharing → Sharing
  attach id s = record {
    shared = some (shared_or s.shared id);
    agents = set_at s.agents id (some (chosen id s));
    versions = set_at s.versions id (version id);
  }

  abbrev pub agent_or : Option ℕ → ℕ → Sharing → ℕ × Sharing
  agent_or none id s = (chosen id s, attach id s)
  agent_or (some a) id s = (a, s)

  -- vsql_m_agent, called in the module `id`
  unfoldable pub agent : ℕ → Sharing → ℕ × Sharing
  agent id s = agent_or (s.agents id) id s

  -- The modules of the list call it, one after another.
  unfoldable pub agents_of : List ℕ → Sharing → Sharing
  unfolding agent
  agents_of [] s = s
  agents_of (id ∷ ids) s = agents_of ids (agent id s).1
