-- ===== src/Expansion/Planner.antt =====
-- app/expansion/planner.py: a proposal for a missing capability, from the catalog, the registry of
-- servers and the allowlist. The catalog, a configuration file, is a parameter.
use Prim.Native.String.{◌++◌}
use orchestration_system.Common.{
  String, Bool, true, false, Option, none, some, List, [], ◌∷◌, if◌then◌else◌, str_eq,
}
use orchestration_system.Enums.{McpUsageType, ProposalType}
use orchestration_system.Database.{Db}
use orchestration_system.Policy.Schemas.{ExpansionProposal, new_proposal}
use orchestration_system.Mcp.Schemas.{McpAllowlist, in_allowlist, from_record}
use orchestration_system.Mcp.Connection.{build_connection_proposal}
use orchestration_system.Mcp.Registry.{get}

pub record PlannedProposal : Type 0 where
  pub capability : String
  pub proposal : ExpansionProposal
  pub strategy : String
  pub usage_type : Option McpUsageType
  pub server_id : Option String

-- one entry of the catalog, each key of it may be missing
pub record CatalogEntry : Type 0 where
  pub strategy : Option String
  pub mcp_server : Option String
  pub write : Option Bool

abbrev pub Catalog : Type 0
Catalog = List (String × CatalogEntry)

abbrev pub get_or {ℓ} : {A : Type ℓ} → A → Option A → A
get_or default none = default
get_or default (some a) = a

unfoldable pub lookup_entry : String → Catalog → Option CatalogEntry
lookup_entry capability [] = none
lookup_entry capability ((name, entry) ∷ rest) =
    let later = lookup_entry capability rest in if str_eq name capability then some entry else later

-- `_unknown`
unfoldable pub unknown : String → String → PlannedProposal
unfolding new_proposal
unknown capability strategy = record {
  capability = capability;
  proposal =
      record (new_proposal ProposalType.mcp_connection capability
        ("'" ++ capability ++ "' 역량을 제공할 방법이 아직 정의되지 않았습니다.")) {
          is_new_external_connection = true;
          in_allowlist = false;
        };
  strategy = strategy;
  usage_type = none;
  server_id = none;
}

-- `_plan_mcp`
unfoldable pub plan_mcp : McpAllowlist → Db → String → CatalogEntry → PlannedProposal
unfolding unknown get from_record build_connection_proposal in_allowlist
plan_mcp allowlist db capability entry =
    let server_id = get_or "" entry.mcp_server in
    elim (get server_id db) [
      | none ↦ unknown capability "MCP_CONNECTION"
      | some server ↦
          let spec = from_record db server in
          let conn =
            build_connection_proposal spec (in_allowlist allowlist server_id)
              (get_or false entry.write)
              ("'" ++ capability ++ "' 역량을 위해 '" ++ spec.name ++ "' 연결/활성화") in
          record {
            capability = capability;
            proposal = conn.proposal;
            strategy = "MCP_CONNECTION";
            usage_type = some conn.usage_type;
            server_id = some server_id;
          }
    ]

-- `ProposalPlanner.plan`
unfoldable pub plan : McpAllowlist → Catalog → Db → String → PlannedProposal
unfolding lookup_entry unknown plan_mcp
plan allowlist catalog db capability = elim (lookup_entry capability catalog) [
  | none ↦ unknown capability "UNKNOWN"
  | some entry ↦
      let strategy = get_or "UNKNOWN" entry.strategy in
      if str_eq strategy "MCP_CONNECTION"
      then plan_mcp allowlist db capability entry
      else unknown capability strategy
]
