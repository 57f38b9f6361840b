-- ===== src/Mcp/Schemas.antt =====
-- app/mcp/schemas.py, allowlist.py and health.py: a server as the configuration describes it.
use orchestration_system.Common.{String, Bool, true, false, not, List, map, ◌==◌, filter, contains}
use orchestration_system.Enums.{McpStatus, RiskLevel, DataClassification}
use orchestration_system.Database.{Db, McpServer, McpTool}

pub record McpToolSpec : Type 0 where
  pub name : String
  pub write : Bool
  pub requires_user_approval : Bool

pub record McpServerSpec : Type 0 where
  pub id : String
  pub name : String
  pub status : McpStatus
  pub risk_level : RiskLevel
  pub data_classification : DataClassification
  pub external_network : Bool
  pub read_permissions : List String
  pub write_permissions : List String
  pub tools : List McpToolSpec

-- `record.tools`, the relationship of a server
unfoldable pub server_tools : Db → McpServer → List McpTool
server_tools db server = filter (λ t. t.server_pk == server.id) db.tools

-- `McpServerSpec.from_record`
unfoldable pub from_record : Db → McpServer → McpServerSpec
unfolding server_tools
from_record db server = record {
  id = server.server_id;
  name = server.name;
  status = server.status;
  risk_level = server.risk_level;
  data_classification = server.data_classification;
  external_network = server.external_network;
  read_permissions = server.read_permissions;
  write_permissions = server.write_permissions;
  tools =
      map
        (λ t. record {
          name = t.name;
          write = t.write;
          requires_user_approval = t.requires_user_approval;
        })
        (server_tools db server);
}

-- `McpAllowlist`, a set of server ids
abbrev pub McpAllowlist : Type 0
McpAllowlist = List String

-- `McpAllowlist.contains`
unfoldable pub in_allowlist : McpAllowlist → String → Bool
in_allowlist allowlist server_id = contains allowlist server_id

abbrev pub is_approved : McpStatus → Bool
is_approved McpStatus.approved = true
is_approved _ = false

-- `HealthResult`, without its text for the user
pub record HealthResult : Type 0 where
  pub healthy : Bool

-- `check_health`
unfoldable pub check_health : McpServerSpec → HealthResult
check_health server = elim server.status [
  | McpStatus.blocked ↦ record { healthy = false }
  | McpStatus.disabled ↦ record { healthy = false }
  | McpStatus.proposed ↦ record { healthy = not server.external_network }
  | McpStatus.approved ↦ record { healthy = not server.external_network }
]
