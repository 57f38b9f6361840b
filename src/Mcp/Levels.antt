-- ===== src/Mcp/Levels.antt =====
-- What the policy engine of app/policy/engine.py decides on a connection proposal of
-- app/mcp/connection.py, by its kind of use. The levels are those of the code. An
-- external server outside the allowlist (C) goes to an expert, as in docs/spec/05-policy.md, section
-- 19.3; docs/spec/04-expansion.md, section 17.1, differs: it blocks that, and writing (B) beyond what a
-- user may approve too.
use orchestration_system.Common.{◌≡◌, String, Bool, not, ◌&&◌, ◌||◌, arith, if◌then◌else◌}
use orchestration_system.Enums.{McpUsageType, PolicyDecision}
use orchestration_system.Policy.Schemas.{new_proposal}
use orchestration_system.Policy.Engine.{decide, is_confidential, is_high, is_low}
use orchestration_system.Policy.Levels.{
  decide-level, level, is_forbidden, needs_expert, needs_user, is_low_risk,
}
use orchestration_system.Mcp.Schemas.{McpServerSpec}
use orchestration_system.Mcp.Connection.{build_connection_proposal, classify_usage_type}

-- The code's level of each kind of use, given whether the server is on the allowlist
unfoldable pub usage_level : McpServerSpec → Bool → McpUsageType → PolicyDecision
usage_level server in_allowlist McpUsageType.d_new_server = PolicyDecision.auto_blocked
usage_level server in_allowlist McpUsageType.c_new_external =
    if in_allowlist
    then PolicyDecision.user_approval
    else if is_confidential server.data_classification || is_high server.risk_level
    then PolicyDecision.auto_blocked
    else PolicyDecision.expert_required
usage_level server in_allowlist McpUsageType.b_write_activate = PolicyDecision.user_approval
usage_level server in_allowlist McpUsageType.a_readonly_activate =
    if in_allowlist && is_low server.risk_level && not (is_confidential server.data_classification)
    then PolicyDecision.auto_approve
    else PolicyDecision.user_approval

-- The decision on a connection proposal depends only on its kind of use, the allowlist, and the
-- server's risk and data: a new external server (D) is blocked; a new connection (C) needs the user
-- if it is allowed, else an expert, and is blocked for confidential data or a high risk; a write (B)
-- needs the user, allowed or not; a read (A) is approved if it is allowed, of low risk and not
-- confidential, and else needs the user. This is what the code does: where a new connection is not
-- allowed, and for a write on a server that is not, section 17.1 of docs/spec/04-expansion.md asks for
-- a block.
pub build_connection_proposal-decide :
    (server : McpServerSpec) (in_allowlist write_intent : Bool) (reason : String)
    → (decide (build_connection_proposal server in_allowlist write_intent reason).proposal).decision
      ≡ usage_level server in_allowlist
          (build_connection_proposal server in_allowlist write_intent reason).usage_type
unfolding build_connection_proposal classify_usage_type usage_level level is_forbidden needs_expert
    needs_user is_low_risk new_proposal
build_connection_proposal-decide server in_allowlist write_intent reason =
    rw decide-level (ground arith)
