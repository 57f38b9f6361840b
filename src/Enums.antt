-- ===== src/Enums.antt =====
-- The enumerations of app/core/enums.py. The two enumerations of states are lists of names, since
-- the engine handles states as texts.
use orchestration_system.Common.{String, List, [], ◌∷◌}

unfoldable pub product_states : List String
product_states =
    "IDEA_RECEIVED" ∷ "DOCUMENT_ANALYZING" ∷ "CLASSIFYING" ∷ "REQUIREMENT_DRAFTING"
    ∷ "WAITING_REQUIREMENT_INPUT" ∷ "WAITING_REQUIREMENT_APPROVAL" ∷ "SPECIFICATION_GENERATING"
    ∷ "CAPABILITY_ANALYZING" ∷ "EXPANSION_PROPOSING" ∷ "WAITING_EXPANSION_APPROVAL"
    ∷ "BACKLOG_GENERATING" ∷ "BOOTSTRAPPING" ∷ "READY_FOR_DEVELOPMENT" ∷ "WAITING_APPROVAL"
    ∷ "WAITING_EXPERT_CONFIRMATION" ∷ "BLOCKED" ∷ "AUTO_BLOCKED_BY_POLICY" ∷ "CANCELLED" ∷ "FAILED"
    ∷ "TOKEN_BUDGET_EXCEEDED" ∷ "EXPANSION_REJECTED" ∷ "MCP_CONNECTION_FAILED"
    ∷ "AGENT_VALIDATION_FAILED" ∷ []

unfoldable pub development_states : List String
development_states =
    "RECEIVED" ∷ "VALIDATING" ∷ "CONTEXT_BUILDING" ∷ "SUPERVISING" ∷ "WAITING_PLAN_APPROVAL"
    ∷ "WORKSPACE_CREATING" ∷ "IMPLEMENTING" ∷ "LOCAL_VALIDATING" ∷ "COMMITTING" ∷ "PR_CREATING"
    ∷ "CI_RUNNING" ∷ "REVIEWING" ∷ "REPAIRING" ∷ "PACKAGING" ∷ "WAITING_USER_REVIEW"
    ∷ "READY_FOR_MERGE" ∷ "MERGED" ∷ "DELIVERED" ∷ "CLEANUP" ∷ "COMPLETED" ∷ "WAITING_INFORMATION"
    ∷ "WAITING_DEPENDENCY" ∷ "WAITING_EXPERT_CONFIRMATION" ∷ "BLOCKED" ∷ "CONFLICTED" ∷ "FAILED"
    ∷ "CANCELLED" ∷ "TOKEN_BUDGET_EXCEEDED" ∷ "MCP_CONNECTION_FAILED" ∷ "AGENT_VALIDATION_FAILED"
    ∷ "AUTO_BLOCKED_BY_POLICY" ∷ []

pub data RequirementStatus : Type 0 where
  confirmed inferred unknown : RequirementStatus

pub data RequirementCategory : Type 0 where
  functional non_functional business_rule exception_case : RequirementCategory

pub data AutomationClass : Type 0 where
  self_service ai_assisted expert_review_required unsupported : AutomationClass

pub data ClassificationGate : Type 0 where
  proceed needs_approval needs_expert blocked unsupported : ClassificationGate

pub data DeliverableType : Type 0 where
  web_app desktop_app cli_tool api_service automation_script : DeliverableType

pub data DocumentKind : Type 0 where
  uploaded generated : DocumentKind

pub data DocumentType : Type 0 where
  idea reference prd backlog : DocumentType

pub data ApprovalType : Type 0 where
  requirements reduced_scope expansion plan result : ApprovalType

pub data ApprovalDecision : Type 0 where
  approved rejected changes_requested : ApprovalDecision

pub data QuestionStatus : Type 0 where
  open_question answered : QuestionStatus

pub data DecisionSource : Type 0 where
  user_confirmed inferred : DecisionSource

pub data DecisionStatus : Type 0 where
  active superseded : DecisionStatus

pub data ProviderType : Type 0 where
  agent mcp library : ProviderType

pub data AuditEventType : Type 0 where
  state_transition transition_rejected guard_rejected idempotent_replay timeout_notified
        policy_decision agent_registered agent_validation_rejected mcp_connection_proposed
        mcp_activated consultation_created expert_answer_recorded :
      AuditEventType

pub data PolicyDecision : Type 0 where
  auto_approve user_approval expert_required auto_blocked : PolicyDecision

pub data ProposalType : Type 0 where
  agent mcp_connection : ProposalType

pub data RiskLevel : Type 0 where
  low medium high : RiskLevel

pub data DataClassification : Type 0 where
  public internal confidential : DataClassification

pub data AgentLifecycleType : Type 0 where
  project_scoped task_scoped persistent : AgentLifecycleType

pub data AgentStatus : Type 0 where
  registered active expired revoked : AgentStatus

pub data McpStatus : Type 0 where
  approved proposed blocked disabled : McpStatus

pub data McpUsageType : Type 0 where
  a_readonly_activate b_write_activate c_new_external d_new_server : McpUsageType

pub data ConsultationTrigger : Type 0 where
  expert_required retry_exhausted system_error user_requested : ConsultationTrigger

pub data ConsultationStatus : Type 0 where
  pending answered applied : ConsultationStatus

pub data ExpansionStatus : Type 0 where
  proposed auto_approved pending_user pending_expert approved blocked rejected : ExpansionStatus
