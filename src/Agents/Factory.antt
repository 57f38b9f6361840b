-- ===== src/Agents/Factory.antt =====
-- app/agents/factory.py: validation, then the judgment of the policy engine.
use orchestration_system.Common.{
  String, Bool, true, false, not, ◌&&◌, ◌||◌, Option, none, some, List, if◌then◌else◌, str_eq,
  is_some,
}
use orchestration_system.Enums.{AgentLifecycleType, ProposalType}
use orchestration_system.Policy.Schemas.{ExpansionProposal, PolicyJudgment, new_proposal}
use orchestration_system.Policy.Engine.{decide}
use orchestration_system.Agents.Schemas.{AgentDefinition}
use orchestration_system.Agents.Validators.{ValidationReport, is_ok, run_validation_chain}

pub record FactoryAssessment : Type 0 where
  pub validation : ValidationReport
  pub proposal : Option ExpansionProposal
  pub judgment : Option PolicyJudgment

-- `FactoryAssessment.valid`
abbrev pub is_valid : FactoryAssessment → Bool
is_valid assessment = is_ok assessment.validation

-- `lifecycle.type in (PROJECT_SCOPED, TASK_SCOPED)`
abbrev pub is_scoped : AgentLifecycleType → Bool
is_scoped AgentLifecycleType.project_scoped = true
is_scoped AgentLifecycleType.task_scoped = true
is_scoped AgentLifecycleType.persistent = false

abbrev pub is_persistent : AgentLifecycleType → Bool
is_persistent AgentLifecycleType.persistent = true
is_persistent _ = false

unfoldable pub derive_proposal : AgentDefinition → ExpansionProposal
unfolding new_proposal
derive_proposal defn = record (new_proposal ProposalType.agent defn.id defn.purpose) {
  project_scoped = is_some defn.scope.project_id && is_scoped defn.lifecycle.type;
  accesses_secret = defn.permissions.accesses_secret;
  admin_privilege = defn.permissions.admin;
  permission_escalation =
      not (str_eq defn.permissions.network "denied")
      || not (str_eq defn.permissions.shell "denied");
  org_wide_registration = is_persistent defn.lifecycle.type;
}

-- `AgentFactory.assess`
unfoldable pub assess : AgentDefinition → List String → FactoryAssessment
unfolding run_validation_chain derive_proposal decide
assess defn known_mcp_ids =
    let report = run_validation_chain defn known_mcp_ids in
    let proposal = derive_proposal defn in
    if not (is_ok report)
    then record { validation = report; proposal = none; judgment = none }
    else record { validation = report; proposal = some proposal; judgment = some (decide proposal) }
