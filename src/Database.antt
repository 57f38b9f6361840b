-- ===== src/Database.antt =====
-- The tables behind SQLAlchemy's session (app/db/models): rows as records, a table as a list with
-- the newest row first, and the queries that the program makes. A row's time and id come from the
-- environment, by the number of the row.
pub mod Rows
pub mod Query
pub use Rows.*
unfoldable pub use Query.*
use orchestration_system.Common.{ℕ, List, [], arith}

-- What the program gets from outside: the n-th answer of `utc_now()` and of `uuid.uuid4()`.
pub record Env : Type 0 where
  pub utc_now : ℕ → ℕ
  pub uuid4 : ℕ → ℕ

-- The rows that one session sees. `made` counts the rows that were made so far.
pub record Db : Type 0 where
  pub made : ℕ
  pub events : List WorkflowEvent
  pub audits : List AuditLog
  pub checkpoints : List WorkflowCheckpoint
  pub documents : List ProjectDocument
  pub classifications : List ProjectClassification
  pub questions : List RequirementQuestion
  pub approvals : List UserApproval
  pub servers : List McpServer
  pub tools : List McpTool
  pub capabilities : List Capability
  pub providers : List CapabilityProvider
  pub proposals : List ExpansionProposalRecord
  pub agents : List AgentDefinitionRecord
  pub requirements : List ProjectRequirement
  pub versions : List RequirementVersion
  pub decisions : List ProjectDecision
  pub feedback : List ProjectFeedback
  pub consultations : List ExpertConsultation
  pub users : List User
  pub sessions : List UserSession

abbrev pub empty_db : Db
empty_db = record {
  made = 0;
  events = [];
  audits = [];
  checkpoints = [];
  documents = [];
  classifications = [];
  questions = [];
  approvals = [];
  servers = [];
  tools = [];
  capabilities = [];
  providers = [];
  proposals = [];
  agents = [];
  requirements = [];
  versions = [];
  decisions = [];
  feedback = [];
  consultations = [];
  users = [];
  sessions = [];
}
