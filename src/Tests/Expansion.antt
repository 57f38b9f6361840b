-- ===== src/Tests/Expansion.antt =====
-- Servers, capabilities and expansions: the theorems at concrete inputs.
use mathlib.Core.List.{Memᴰ}
use orchestration_system.Common.{
  ℕ, String, ◌≡◌, refl, true, false, not, ◌&&◌, none, some, List, [], ◌∷◌, contains, is_some, All,
  str_eq,
}
use orchestration_system.Enums.{
  PolicyDecision, McpStatus, RiskLevel, DataClassification, ProviderType,
}
use orchestration_system.Database.{Env, Db, empty_db, CapabilityProvider}
use orchestration_system.Policy.Engine.{decide}
use orchestration_system.Mcp.Schemas.{McpServerSpec}
use orchestration_system.Mcp.Connection.{build_connection_proposal}
use orchestration_system.Mcp.Levels.{usage_level, build_connection_proposal-decide}
use orchestration_system.Mcp.Registry.{get, upsert, upsert_tools, upsert_tool}
use orchestration_system.Capabilities.Schemas.{CapabilitySpec, has_gap, MatchedProvider}
use orchestration_system.Capabilities.Registry.{upsert as upsert_capability_spec, upsert_provider}
use orchestration_system.Capabilities.Matcher.{match_one, analyze, provides}
use orchestration_system.Capabilities.Best.{IsBest, match_one-IsBest}
use orchestration_system.Capabilities.Gaps.{analyze-missing}
use orchestration_system.Expansion.Planner.{Catalog, plan}
use orchestration_system.Expansion.Service.{
  ExpansionService, JudgedProposal, plan_and_judge, activate, resolution_of, approve_pending,
  is_pending,
}
use orchestration_system.Expansion.Unknown.{route, plan-decide, names_servers}
use orchestration_system.Expansion.Activation.{activate-closes_gap}
use orchestration_system.Expansion.Pending.{approve_pending-settles}
use orchestration_system.Expansion.Approval.{approve_pending-matched}

abbrev env : Env
env = record { utc_now = λ n. n; uuid4 = λ n. n }

abbrev docs_spec : McpServerSpec
docs_spec = record {
  id = "internal-docs-mcp";
  name = "Internal docs";
  status = McpStatus.approved;
  risk_level = RiskLevel.low;
  data_classification = DataClassification.internal;
  external_network = false;
  read_permissions = "read" ∷ [];
  write_permissions = [];
  tools = record { name = "search"; write = false; requires_user_approval = false } ∷ [];
}

abbrev jira_spec : McpServerSpec
jira_spec = record docs_spec { id = "jira-mcp"; name = "Jira"; status = McpStatus.proposed }

abbrev catalog : Catalog
catalog =
    (
      "internal-doc-read",
      record {
        strategy = some "MCP_CONNECTION";
        mcp_server = some "internal-docs-mcp";
        write = some false;
      },
    )
    ∷ (
      "ticket-management",
      record { strategy = some "MCP_CONNECTION"; mcp_server = some "jira-mcp"; write = some true },
    )
    ∷ []

abbrev service : ExpansionService
service = record {
  allowlist = "internal-docs-mcp" ∷ "jira-mcp" ∷ [];
  catalog = catalog;
  server_specs = some (docs_spec ∷ jira_spec ∷ []);
}

-- what a run of the service computes with
planning : ℕ
unfolding plan_and_judge activate analyze names_servers approve_pending decide str_eq usage_level
    route upsert_capability_spec upsert_provider upsert upsert_tools upsert_tool
planning = 0

build_connection_proposal-decide_example :
    (decide (build_connection_proposal jira_spec true true "").proposal).decision
    ≡ PolicyDecision.user_approval
unfolding usage_level build_connection_proposal
build_connection_proposal-decide_example = build_connection_proposal-decide jira_spec true true ""

abbrev csv_spec : CapabilitySpec
csv_spec = record {
  name = "csv-import";
  description = none;
  providers =
      record { name = "pandas"; type = ProviderType.library; priority = 10; status = "available" }
      ∷ [];
}

abbrev with_csv : Db
with_csv = upsert_capability_spec env csv_spec empty_db

analyze-missing_example :
    contains (analyze with_csv ("email-send" ∷ "csv-import" ∷ [])).missing "csv-import" ≡ (
      contains ("email-send" ∷ "csv-import" ∷ []) "csv-import"
      && not (is_some (match_one with_csv "csv-import")))
analyze-missing_example = analyze-missing with_csv ("email-send" ∷ "csv-import" ∷ []) "csv-import"

missing_reported :
    (analyze with_csv ("email-send" ∷ "csv-import" ∷ "a" ∷ "email-send" ∷ [])).missing
    ≡ "a" ∷ "email-send" ∷ []
unfolding planning
missing_reported = refl

plan-decide_example :
    (decide (plan service.allowlist catalog empty_db "email-send").proposal).decision
    ≡ PolicyDecision.expert_required
unfolding planning
plan-decide_example = plan-decide service.allowlist catalog empty_db "email-send"

abbrev both : List String
both = "internal-doc-read" ∷ "ticket-management" ∷ []

abbrev judged : List JudgedProposal
judged = (plan_and_judge env service 7 both empty_db).0.judged

both_decided : (resolution_of judged).decision ≡ PolicyDecision.user_approval
unfolding planning
both_decided = refl

abbrev reading : List String
reading = "internal-doc-read" ∷ []

catalog_names : names_servers catalog ≡ true
unfolding planning
catalog_names = refl

reading_decided :
    (plan_and_judge env service 7 reading empty_db).0.decision ≡ PolicyDecision.auto_approve
unfolding planning
reading_decided = refl

activate-closes_gap_example :
    has_gap (
      analyze
        (activate env
          (plan_and_judge env service 7 reading empty_db).0
          (plan_and_judge env service 7 reading empty_db).1).1
        reading)
    ≡ false
activate-closes_gap_example =
    activate-closes_gap env service 7 reading empty_db catalog_names reading_decided

abbrev crm : List String
crm = "crm-export" ∷ []

-- the tables after a capability that the catalog does not know was judged
abbrev with_crm : Db
with_crm = (plan_and_judge env service 7 crm empty_db).1

approve_pending-settles_example :
    All (λ r. is_pending 7 r ≡ false) (approve_pending env 7 with_crm).1.proposals
approve_pending-settles_example = approve_pending-settles env 7 with_crm

-- No server has this name, and yet the capability then has a provider.
unregistered : get "crm-export" (approve_pending env 7 with_crm).1 ≡ none
unfolding planning
unregistered = refl

approve_pending-matched_example :
    is_some (match_one (approve_pending env 7 with_crm).1 "crm-export") ≡ true
unfolding planning
approve_pending-matched_example =
    approve_pending-matched env 7 with_crm _ (Memᴰ.head refl) refl refl

-- two providers: the agent comes first, since the priorities are equal
abbrev with_agent : Db
with_agent =
    upsert_capability_spec env
      (record csv_spec {
        providers =
            record {
              name = "csv-agent";
              type = ProviderType.agent;
              priority = 10;
              status = "available";
            }
            ∷ [];
      })
      with_csv

abbrev csv_match : MatchedProvider
csv_match = record {
  capability = "csv-import";
  provider_name = "csv-agent";
  provider_type = ProviderType.agent;
}

csv_matched : match_one with_agent "csv-import" ≡ some csv_match
unfolding planning
csv_matched = refl

match_one-IsBest_example :
    (p : CapabilityProvider) × IsBest
      (provides with_agent.capabilities "csv-import")
      with_agent.providers
      p
    × (csv_match.capability ≡ "csv-import")
    × (csv_match.provider_name ≡ p.provider_name)
    × (csv_match.provider_type ≡ p.provider_type)
match_one-IsBest_example = match_one-IsBest with_agent "csv-import" csv_match csv_matched
