-- ===== src/Database/Rows.antt =====
-- The rows of the tables, app/db/models. Texts for people (messages, reasons, titles) are left out
-- where no code reads them back; ids and times are numbers.
use orchestration_system.Common.{ℕ, String, Bool, Option, List}
use orchestration_system.Enums.{
  ApprovalType, ApprovalDecision, QuestionStatus, DocumentKind, DocumentType, AuditEventType,
  ClassificationGate, AutomationClass, McpStatus, RiskLevel, DataClassification, ProviderType,
  ProposalType, PolicyDecision, ExpansionStatus, AgentStatus, AgentLifecycleType, RequirementStatus,
  RequirementCategory, DecisionSource, DecisionStatus, ConsultationTrigger, ConsultationStatus,
}
use orchestration_system.Policy.Schemas.{ExpansionProposal}
use orchestration_system.Agents.Schemas.{AgentDefinition}
use orchestration_system.Orchestrator.Transitions.{MachineType}

-- workflow_events
pub record WorkflowEvent : Type 0 where
  pub id : ℕ
  pub subject_type : String
  pub subject_id : ℕ
  pub machine : MachineType
  pub event : String
  pub from_state : String
  pub to_state : String
  pub idempotency_key : Option String
  pub created_at : ℕ

-- audit_logs, without `reason` and `payload`
pub record AuditLog : Type 0 where
  pub id : ℕ
  pub occurred_at : ℕ
  pub actor_type : String
  pub actor_id : Option ℕ
  pub subject_type : String
  pub subject_id : ℕ
  pub event_type : AuditEventType
  pub event : Option String
  pub machine : Option MachineType
  pub from_state : Option String
  pub to_state : Option String

-- workflow_checkpoints; the payload is a JSON object
pub record WorkflowCheckpoint : Type 0 where
  pub id : ℕ
  pub subject_type : String
  pub subject_id : ℕ
  pub state : String
  pub payload : List (String × String)
  pub created_at : ℕ

-- project_documents
pub record ProjectDocument : Type 0 where
  pub id : ℕ
  pub project_id : ℕ
  pub kind : DocumentKind
  pub doc_type : DocumentType
  pub content : String
  pub created_at : ℕ

-- project_classification
pub record ProjectClassification : Type 0 where
  pub id : ℕ
  pub project_id : ℕ
  pub automation_class : AutomationClass
  pub gate : ClassificationGate
  pub prohibited_features : List String
  pub risky_features : List String
  pub user_message : String
  pub expert_confirmed : Bool
  pub created_at : ℕ

-- requirement_questions
pub record RequirementQuestion : Type 0 where
  pub id : ℕ
  pub project_id : ℕ
  pub question_key : String
  pub question : String
  pub status : QuestionStatus
  pub answer : Option String

-- user_approvals
pub record UserApproval : Type 0 where
  pub id : ℕ
  pub project_id : ℕ
  pub user_id : ℕ
  pub approval_type : ApprovalType
  pub decision : ApprovalDecision
  pub comment : Option String

-- mcp_servers; `server_id` is unique
pub record McpServer : Type 0 where
  pub id : ℕ
  pub server_id : String
  pub name : String
  pub status : McpStatus
  pub risk_level : RiskLevel
  pub data_classification : DataClassification
  pub external_network : Bool
  pub read_permissions : List String
  pub write_permissions : List String

-- mcp_tools; `server_pk` and `name` are unique together
pub record McpTool : Type 0 where
  pub id : ℕ
  pub server_pk : ℕ
  pub name : String
  pub write : Bool
  pub requires_user_approval : Bool

-- capabilities; `name` is unique
pub record Capability : Type 0 where
  pub id : ℕ
  pub name : String
  pub description : Option String

-- capability_providers; `capability_id` and `provider_name` are unique together
pub record CapabilityProvider : Type 0 where
  pub id : ℕ
  pub capability_id : ℕ
  pub provider_name : String
  pub provider_type : ProviderType
  pub status : String
  pub priority : ℕ

-- expansion_proposals; `signals` is the dump of the proposal
pub record ExpansionProposalRecord : Type 0 where
  pub id : ℕ
  pub project_id : ℕ
  pub kind : ProposalType
  pub name : String
  pub reason : String
  pub decision : PolicyDecision
  pub matched_rule : String
  pub policy_reason : String
  pub alternatives : List String
  pub signals : ExpansionProposal
  pub status : ExpansionStatus

-- agent_definitions; `definition` is the dump of the definition, `agent_id` and `project_id` are
-- unique together
pub record AgentDefinitionRecord : Type 0 where
  pub id : ℕ
  pub agent_id : String
  pub project_id : Option ℕ
  pub name : String
  pub version : String
  pub status : AgentStatus
  pub lifecycle_type : AgentLifecycleType
  pub expires_after_project : Bool
  pub definition : AgentDefinition

-- project_requirements; `project_id` and `req_key` are unique together
pub record ProjectRequirement : Type 0 where
  pub id : ℕ
  pub project_id : ℕ
  pub req_key : String
  pub category : RequirementCategory
  pub description : String
  pub status : RequirementStatus
  pub priority : Option String
  pub version : ℕ
  pub is_active : Bool

-- requirement_versions
pub record RequirementVersion : Type 0 where
  pub id : ℕ
  pub requirement_id : ℕ
  pub version : ℕ
  pub description : String
  pub status : RequirementStatus
  pub change_reason : Option String

-- project_decisions; `project_id` and `decision_key` are unique together
pub record ProjectDecision : Type 0 where
  pub id : ℕ
  pub project_id : ℕ
  pub decision_key : String
  pub title : String
  pub decision : String
  pub reason : Option String
  pub source : DecisionSource
  pub status : DecisionStatus

-- project_feedback
pub record ProjectFeedback : Type 0 where
  pub id : ℕ
  pub project_id : ℕ
  pub user_id : ℕ
  pub category : String
  pub content : String

-- an entry of the column `questions` of expert_consultations, with the label and the action of each
-- option
pub record SerializedQuestion : Type 0 where
  pub key : String
  pub question : String
  pub options : List (String × String)

-- an entry of the column `answers`
pub record AnswerEntry : Type 0 where
  pub question_key : String
  pub answer : String
  pub action : String
  pub answered_at : ℕ

-- expert_consultations
pub record ExpertConsultation : Type 0 where
  pub id : ℕ
  pub project_id : ℕ
  pub task_id : Option ℕ
  pub trigger : ConsultationTrigger
  pub status : ConsultationStatus
  pub title : String
  pub package_markdown : String
  pub questions : List SerializedQuestion
  pub answers : List AnswerEntry
  pub masking_summary : List (String × ℕ)
  pub created_at : ℕ
  pub answered_at : Option ℕ
  pub resolved_at : Option ℕ

-- users; `email` is unique
pub record User : Type 0 where
  pub id : ℕ
  pub email : String
  pub password_hash : String
  pub display_name : String
  pub is_active : Bool

-- sessions; `token_hash` is unique
pub record UserSession : Type 0 where
  pub id : ℕ
  pub user_id : ℕ
  pub token_hash : String
  pub expires_at : ℕ
  pub revoked_at : Option ℕ
