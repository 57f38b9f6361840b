-- ===== src/Tests/Policy.antt =====
-- The policy engine's theorems at concrete proposals.
use orchestration_system.Common.{◌≡◌, true, false}
use orchestration_system.Enums.{PolicyDecision, ProposalType}
use orchestration_system.Policy.Schemas.{ExpansionProposal, new_proposal}
use orchestration_system.Policy.Engine.{decide}
use orchestration_system.Policy.Levels.{
  level, is_forbidden, needs_expert, needs_user, is_low_risk, decide-level,
}

-- an external server that is not on the allowlist and needs new credentials
abbrev connection : ExpansionProposal
connection = record (new_proposal ProposalType.mcp_connection "salesforce" "a CRM") {
  creates_credentials = true;
  is_new_external_connection = true;
  in_allowlist = false;
}

decide-level_example : (decide connection).decision ≡ PolicyDecision.expert_required
unfolding level is_forbidden needs_expert needs_user is_low_risk new_proposal
decide-level_example = decide-level connection
