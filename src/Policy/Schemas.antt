-- ===== src/Policy/Schemas.antt =====
-- app/policy/schemas.py: the risk signals of a proposal, and the judgment on it.
use orchestration_system.Common.{String, Bool, true, false, List, []}
use orchestration_system.Enums.{ProposalType, RiskLevel, DataClassification, PolicyDecision}

pub record ExpansionProposal : Type 0 where
  pub kind : ProposalType
  pub name : String
  pub reason : String
  pub reuse_existing : Bool
  pub project_scoped : Bool
  pub accesses_secret : Bool
  pub bypasses_policy : Bool
  pub modifies_core_or_orchestrator : Bool
  pub modifies_agent_system_prompt : Bool
  pub admin_privilege : Bool
  pub mvp_blocked_domain : Bool
  pub creates_credentials : Bool
  pub permission_escalation : Bool
  pub org_wide_registration : Bool
  pub new_model_adapter : Bool
  pub large_architecture_change : Bool
  pub write_access : Bool
  pub in_allowlist : Bool
  pub is_new_external_connection : Bool
  pub external_network_server : Bool
  pub risk_level : RiskLevel
  pub data_classification : DataClassification
  pub requested_permissions : List String

-- a proposal with the defaults of the class
unfoldable pub new_proposal : ProposalType → String → String → ExpansionProposal
new_proposal kind name reason = record {
  kind = kind;
  name = name;
  reason = reason;
  reuse_existing = false;
  project_scoped = true;
  accesses_secret = false;
  bypasses_policy = false;
  modifies_core_or_orchestrator = false;
  modifies_agent_system_prompt = false;
  admin_privilege = false;
  mvp_blocked_domain = false;
  creates_credentials = false;
  permission_escalation = false;
  org_wide_registration = false;
  new_model_adapter = false;
  large_architecture_change = false;
  write_access = false;
  in_allowlist = true;
  is_new_external_connection = false;
  external_network_server = false;
  risk_level = RiskLevel.low;
  data_classification = DataClassification.internal;
  requested_permissions = [];
}

pub record PolicyJudgment : Type 0 where
  pub decision : PolicyDecision
  pub matched_rule : String
  pub reason : String
  pub alternatives : List String
