-- ===== src/Agents/Registry.antt =====
-- app/agents/registry.py: the registered agents.
use orchestration_system.Common.{
  ℕ, ◌+◌, String, Bool, true, false, not, ◌&&◌, Option, none, some, ◌∷◌, ◌==◌, str_eq, find, update,
  count,
}
use orchestration_system.Enums.{AgentStatus}
use orchestration_system.Database.{Env, Db, AgentDefinitionRecord}
use orchestration_system.Agents.Schemas.{AgentDefinition}

-- `project_id == project_id`, where None is IS NULL
abbrev pub same_project : Option ℕ → Option ℕ → Bool
same_project none none = true
same_project (some p) (some q) = p == q
same_project _ _ = false

abbrev pub is_agent_of : String → Option ℕ → AgentDefinitionRecord → Bool
is_agent_of agent_id project r = str_eq r.agent_id agent_id && same_project r.project_id project

-- `AgentRegistry.get`
unfoldable pub get_agent : String → Option ℕ → Db → Option AgentDefinitionRecord
get_agent agent_id project db = find (is_agent_of agent_id project) db.agents

unfoldable pub new_agent :
    Env → AgentDefinition → Option ℕ → AgentStatus → ℕ → AgentDefinitionRecord
new_agent env definition project status made = record {
  id = env.uuid4 made;
  agent_id = definition.id;
  project_id = project;
  name = definition.name;
  version = definition.version;
  status = status;
  lifecycle_type = definition.lifecycle.type;
  expires_after_project = definition.lifecycle.expires_after_project;
  definition = definition;
}

-- the assignments of `register` to a record that exists
unfoldable pub assign_agent :
    AgentDefinition → AgentStatus → AgentDefinitionRecord → AgentDefinitionRecord
assign_agent definition status r = record r {
  name = definition.name;
  version = definition.version;
  status = status;
  lifecycle_type = definition.lifecycle.type;
  expires_after_project = definition.lifecycle.expires_after_project;
  definition = definition;
}

-- `AgentRegistry.register`
unfoldable pub register : Env → AgentDefinition → Option ℕ → AgentStatus → Db → Db
unfolding get_agent new_agent assign_agent
register env definition project status db = elim (get_agent definition.id project db) [
  | none ↦ record db {
    made = db.made + 1;
    agents = new_agent env definition project status db.made ∷ db.agents;
  }
  | some existing ↦ record db {
    agents = update (is_agent_of definition.id project) (assign_agent definition status) db.agents;
  }
]

abbrev pub is_expired : AgentStatus → Bool
is_expired AgentStatus.expired = true
is_expired _ = false

-- the records that the loop of `expire_for_project` changes
abbrev pub expires : ℕ → AgentDefinitionRecord → Bool
expires project r =
    same_project r.project_id (some project)
    && (r.expires_after_project && not (is_expired r.status))

-- `AgentRegistry.expire_for_project`: the count, and the tables
unfoldable pub expire_for_project : ℕ → Db → ℕ × Db
expire_for_project project db = (
  count (expires project) db.agents,
  record db {
    agents = update (expires project) (λ r. record r { status = AgentStatus.expired }) db.agents;
  },
)
