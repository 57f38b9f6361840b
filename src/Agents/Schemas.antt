-- ===== src/Agents/Schemas.antt =====
-- app/agents/schemas.py: the definition of an agent. The patterns of `id` and `version`, and the
-- bounds that pydantic checks, are those of a value that was parsed.
use orchestration_system.Common.{ℕ, String, Bool, Option, List, [], ◌∷◌}
use orchestration_system.Enums.{AgentLifecycleType}

-- ALLOWED_MODEL_PROVIDERS
unfoldable pub allowed_model_providers : List String
allowed_model_providers = "mock" ∷ "claude-code" ∷ "codex" ∷ []

-- FILESYSTEM_LEVELS
unfoldable pub filesystem_levels : List String
filesystem_levels = "denied" ∷ "read_only" ∷ "read_write_scoped" ∷ []

-- NETWORK_LEVELS
unfoldable pub network_levels : List String
network_levels = "denied" ∷ "allowlisted" ∷ []

-- SHELL_LEVELS
unfoldable pub shell_levels : List String
shell_levels = "denied" ∷ "allowlisted" ∷ []

pub record AgentModelRef : Type 0 where
  pub provider : String
  pub adapter : String

pub record AgentScope : Type 0 where
  pub project_id : Option String
  pub allowed_paths : List String

pub record AgentPermissions : Type 0 where
  pub filesystem : String
  pub network : String
  pub shell : String
  pub admin : Bool
  pub accesses_secret : Bool

pub record AgentTokenBudget : Type 0 where
  pub max_input_tokens : ℕ
  pub max_output_tokens : ℕ

pub record AgentLifecycle : Type 0 where
  pub type : AgentLifecycleType
  pub expires_after_project : Bool

pub record AgentDefinition : Type 0 where
  pub id : String
  pub name : String
  pub version : String
  pub purpose : String
  pub model : AgentModelRef
  pub scope : AgentScope
  pub capabilities : List String
  pub mcp_dependencies : List String
  pub permissions : AgentPermissions
  pub rules : List String
  pub quality_gates : List String
  pub token_budget : AgentTokenBudget
  pub lifecycle : AgentLifecycle
