-- ===== src/Mcp/Connection.antt =====
-- app/mcp/connection.py: the kind of use that a connection is, and the proposal for it.
use Prim.Native.String.{◌++◌}
use orchestration_system.Common.{String, Bool, not, ◌&&◌, if◌then◌else◌, str_eq}
use orchestration_system.Enums.{McpUsageType, ProposalType}
use orchestration_system.Policy.Schemas.{ExpansionProposal, new_proposal}
use orchestration_system.Mcp.Schemas.{McpServerSpec, is_approved}

pub record ConnectionProposal : Type 0 where
  pub usage_type : McpUsageType
  pub proposal : ExpansionProposal

unfoldable pub classify_usage_type : McpServerSpec → Bool → Bool → McpUsageType
classify_usage_type server is_new_connection write_intent =
    if is_new_connection && server.external_network
    then McpUsageType.d_new_server
    else if is_new_connection
    then McpUsageType.c_new_external
    else if write_intent
    then McpUsageType.b_write_activate
    else McpUsageType.a_readonly_activate

-- An empty reason stands for the default text.
unfoldable pub build_connection_proposal : McpServerSpec → Bool → Bool → String → ConnectionProposal
unfolding classify_usage_type new_proposal
build_connection_proposal server in_allowlist write_intent reason =
    let is_new_connection = not (is_approved server.status) in
    record {
      usage_type = classify_usage_type server is_new_connection write_intent;
      proposal =
          record (new_proposal ProposalType.mcp_connection server.id
            (if str_eq reason "" then "'" ++ server.name ++ "' 연결/활성화 제안" else reason)) {
              write_access = write_intent;
              in_allowlist = in_allowlist;
              is_new_external_connection = is_new_connection;
              external_network_server = is_new_connection && server.external_network;
              risk_level = server.risk_level;
              data_classification = server.data_classification;
              requested_permissions =
                  if write_intent then server.write_permissions else server.read_permissions;
            };
    }
