-- ===== src/Expansion/Service.antt =====
-- app/expansion/service.py: plan, judge, record and activate. It changes no status of a project.
use Prim.Native.String.{◌++◌}
use mathlib.Core.List.{◌++◌ as append}
use orchestration_system.Common.{
  ℕ, ◌+◌, String, Bool, true, false, not, ◌&&◌, Option, none, some, List, [], ◌∷◌, map, ltb, ◌==◌,
  if◌then◌else◌, str_eq, filter, update, join,
}
use orchestration_system.Enums.{
  PolicyDecision, ExpansionStatus, ProposalType, McpStatus, ProviderType, AuditEventType,
}
use orchestration_system.Database.{Env, Db, AuditLog, ExpansionProposalRecord}
use orchestration_system.Orchestrator.Subjects.{is_policy}
use orchestration_system.Orchestrator.Engine.{audit_record}
use orchestration_system.Policy.Schemas.{PolicyJudgment}
use orchestration_system.Policy.Engine.{decide}
use orchestration_system.Policy.Order.{severity}
use orchestration_system.Mcp.Schemas.{McpAllowlist, McpServerSpec}
use orchestration_system.Mcp.Registry.{ensure_seeded, set_status}
use orchestration_system.Capabilities.Schemas.{CapabilitySpec}
use orchestration_system.Capabilities.Registry.{upsert}
use orchestration_system.Capabilities.Matcher.{fresh_names}
use orchestration_system.Expansion.Planner.{Catalog, PlannedProposal, plan, get_or}

-- `_STATUS_BY_DECISION`
unfoldable pub status_by_decision : PolicyDecision → ExpansionStatus
status_by_decision PolicyDecision.auto_approve = ExpansionStatus.auto_approved
status_by_decision PolicyDecision.user_approval = ExpansionStatus.pending_user
status_by_decision PolicyDecision.expert_required = ExpansionStatus.pending_expert
status_by_decision PolicyDecision.auto_blocked = ExpansionStatus.blocked

pub record JudgedProposal : Type 0 where
  pub planned : PlannedProposal
  pub judgment : PolicyJudgment

pub record ExpansionResolution : Type 0 where
  pub decision : PolicyDecision
  pub judged : List JudgedProposal
  pub reason : String
  pub alternatives : List String

abbrev pub is_judged : PolicyDecision → JudgedProposal → Bool
is_judged decision j = is_policy j.judgment.decision decision

-- `ExpansionResolution.of_decision`
unfoldable pub of_decision : PolicyDecision → List JudgedProposal → List JudgedProposal
of_decision decision judged = filter (is_judged decision) judged

-- What the service is built with; `server_specs` are those of the file, if it has a path to one.
pub record ExpansionService : Type 0 where
  pub allowlist : McpAllowlist
  pub catalog : Catalog
  pub server_specs : Option (List McpServerSpec)

-- the audit row of `_persist`
unfoldable pub policy_audit : ℕ → ℕ → ℕ → AuditLog
policy_audit project id now = record {
  id = id;
  occurred_at = now;
  actor_type = "system";
  actor_id = none;
  subject_type = "project";
  subject_id = project;
  event_type = AuditEventType.policy_decision;
  event = none;
  machine = none;
  from_state = none;
  to_state = none;
}

-- the row of `_persist`
unfoldable pub proposal_record :
    Env → ℕ → PlannedProposal → PolicyJudgment → ℕ → ExpansionProposalRecord
unfolding status_by_decision
proposal_record env project planned judgment made = record {
  id = env.uuid4 made;
  project_id = project;
  kind = planned.proposal.kind;
  name = planned.capability;
  reason = planned.proposal.reason;
  decision = judgment.decision;
  matched_rule = judgment.matched_rule;
  policy_reason = judgment.reason;
  alternatives = judgment.alternatives;
  signals = planned.proposal;
  status = status_by_decision judgment.decision;
}

-- `_persist`
unfoldable pub persist : Env → ℕ → PlannedProposal → PolicyJudgment → Db → Db
unfolding proposal_record audit_record policy_audit
persist env project planned judgment db = audit_record env (policy_audit project) (record db {
  made = db.made + 1;
  proposals = proposal_record env project planned judgment db.made ∷ db.proposals;
})

-- the spec of `_register_provider`, with a priority of 50 and the default status
unfoldable pub provider_spec : String → String → ProviderType → CapabilitySpec
provider_spec capability provider_name type = record {
  name = capability;
  description = none;
  providers =
      record { name = provider_name; type = type; priority = 50; status = "available" } ∷ [];
}

-- `_register_provider`
unfoldable pub register_provider : Env → String → String → ProviderType → Db → Db
unfolding upsert provider_spec
register_provider env capability provider_name type db =
    upsert env (provider_spec capability provider_name type) db

-- `max` by severity, the first of the greatest
unfoldable pub max_decision : PolicyDecision → List PolicyDecision → PolicyDecision
unfolding severity
max_decision best [] = best
max_decision best (d ∷ ds) = max_decision (if ltb (severity best) (severity d) then d else best) ds

-- `_aggregate`
unfoldable pub aggregate : List PolicyDecision → PolicyDecision
unfolding max_decision
aggregate [] = PolicyDecision.auto_approve
aggregate (d ∷ ds) = max_decision d ds

abbrev concat : List (List String) → List String
concat [] = []
concat (ss ∷ rest) = append ss (concat rest)

-- the text of `_summarize` for the user
unfoldable pub summary : PolicyDecision → String → String → String
summary PolicyDecision.auto_blocked caps reasons =
    "다음 확장은 자동으로 진행할 수 없습니다: " ++ caps ++ "\n" ++ reasons
summary PolicyDecision.expert_required caps reasons =
    "다음 기능은 진행 전 개발자 확인이 필요합니다: " ++ caps ++ "\n" ++ reasons ++ "\n" ++ "개발자에게 전달할 상담 자료를 생성했습니다."
summary PolicyDecision.user_approval caps reasons =
    "다음 확장에 대한 승인이 필요합니다: " ++ caps ++ "\n" ++ reasons
summary PolicyDecision.auto_approve caps reasons =
    if str_eq caps "" then "" else "필요한 확장을 자동으로 준비했습니다: " ++ caps

-- `_summarize`
unfoldable pub summarize : PolicyDecision → List JudgedProposal → String × List String
unfolding of_decision fresh_names join summary
summarize decision judged =
    let relevant = of_decision decision judged in
    let caps = join ", " (map (λ j. j.planned.capability) relevant) in
    let reasons = join " / " (fresh_names [] (map (λ j. j.judgment.reason) relevant)) in
    let alternatives = fresh_names [] (concat (map (λ j. j.judgment.alternatives) relevant)) in
    (summary decision caps reasons, alternatives)

-- The loop of `plan_and_judge`
unfoldable pub judge_all : Env → ExpansionService → ℕ → List String → Db → List JudgedProposal × Db
unfolding plan decide persist
judge_all env service project [] db = ([], db)
judge_all env service project (capability ∷ missing) db =
    let planned = plan service.allowlist service.catalog db capability in
    let judgment = decide planned.proposal in
    let rest = judge_all env service project missing (persist env project planned judgment db) in
    (record { planned = planned; judgment = judgment } ∷ rest.0, rest.1)

-- The seeding of `plan_and_judge`
unfoldable pub seed : Env → ExpansionService → Db → Db
unfolding ensure_seeded
seed env service db = elim service.server_specs [
  | none ↦ db
  | some specs ↦ ensure_seeded env specs db
]

unfoldable pub resolution_of : List JudgedProposal → ExpansionResolution
unfolding aggregate summarize
resolution_of judged =
    let decision = aggregate (map (λ j. j.judgment.decision) judged) in
    let (reason, alternatives) = summarize decision judged in
    record { decision = decision; judged = judged; reason = reason; alternatives = alternatives }

-- `ExpansionService.plan_and_judge`
unfoldable pub plan_and_judge :
    Env → ExpansionService → ℕ → List String → Db → ExpansionResolution × Db
unfolding judge_all seed resolution_of
plan_and_judge env service project missing db =
    let judged = judge_all env service project missing (seed env service db) in
    (resolution_of judged.0, judged.1)

-- `if planned.server_id`: None and the empty text are false.
abbrev pub truthy : Option String → Bool
truthy none = false
truthy (some s) = not (str_eq s "")

abbrev pub is_connection : PlannedProposal → Bool
is_connection planned = str_eq planned.strategy "MCP_CONNECTION" && truthy planned.server_id

-- approve a server and register it as a provider
unfoldable pub connect : Env → String → String → Db → Db
unfolding set_status register_provider
connect env capability server_id db =
    register_provider env capability server_id ProviderType.mcp
      (set_status server_id McpStatus.approved db)

-- The loop of `activate`
unfoldable pub activate_all : Env → List JudgedProposal → Db → List String × Db
unfolding connect
activate_all env [] db = ([], db)
activate_all env (j ∷ js) db = elim (is_connection j.planned) [
  | true ↦
      let server_id = get_or "" j.planned.server_id in
      let rest = activate_all env js (connect env j.planned.capability server_id db) in
      (j.planned.capability ∷ rest.0, rest.1)
  | false ↦ activate_all env js db
]

-- `ExpansionService.activate`
unfoldable pub activate : Env → ExpansionResolution → Db → List String × Db
unfolding activate_all of_decision
activate env resolution db =
    activate_all env (of_decision PolicyDecision.auto_approve resolution.judged) db

abbrev is_mcp : ProposalType → Bool
is_mcp ProposalType.mcp_connection = true
is_mcp ProposalType.agent = false

abbrev pub is_pending_status : ExpansionStatus → Bool
is_pending_status ExpansionStatus.pending_user = true
is_pending_status ExpansionStatus.pending_expert = true
is_pending_status _ = false

-- the filter of `approve_pending`
abbrev pub is_pending : ℕ → ExpansionProposalRecord → Bool
is_pending project r = r.project_id == project && is_pending_status r.status

-- A proposal names its server in its signals; the text "" names none.
abbrev pub is_connectable : ExpansionProposalRecord → Bool
is_connectable row = is_mcp row.kind && not (str_eq row.signals.name "")

-- the body of the loop of `approve_pending` for one row
unfoldable pub approve_row : Env → ExpansionProposalRecord → Db → Db
unfolding connect
approve_row env row db =
    let connected = if is_connectable row then connect env row.name row.signals.name db else db in
    record connected {
      proposals =
          update (λ r. r.id == row.id) (λ r. record r { status = ExpansionStatus.approved })
            connected.proposals;
    }

unfoldable pub approve_rows : Env → List ExpansionProposalRecord → Db → Db
unfolding approve_row
approve_rows env [] db = db
approve_rows env (row ∷ rows) db = approve_rows env rows (approve_row env row db)

-- the capabilities that `approve_pending` returns
unfoldable pub approved_names : List ExpansionProposalRecord → List String
approved_names rows = map (λ r. r.name) (filter is_connectable rows)

-- `ExpansionService.approve_pending`; no order is asked of the rows
unfoldable pub approve_pending : Env → ℕ → Db → List String × Db
unfolding approve_rows approved_names
approve_pending env project db =
    let rows = filter (is_pending project) db.proposals in
    (approved_names rows, approve_rows env rows db)
