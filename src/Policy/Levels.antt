-- ===== src/Policy/Levels.antt =====
-- The four levels of docs/spec/05-policy.md as conditions on the signals, and the engine's agreement
-- with them.
use orchestration_system.Common.{◌≡◌, Bool, not, ◌&&◌, ◌||◌, arith, if◌then◌else◌}
use orchestration_system.Enums.{PolicyDecision}
use orchestration_system.Policy.Schemas.{ExpansionProposal}
use orchestration_system.Policy.Engine.{decide, is_confidential, is_high, is_low, is_agent}

-- forbidden whatever an expert says
unfoldable pub is_forbidden : ExpansionProposal → Bool
is_forbidden p =
    p.bypasses_policy
    || p.modifies_core_or_orchestrator
    || p.modifies_agent_system_prompt
    || p.admin_privilege
    || p.accesses_secret
    || p.external_network_server
    || p.mvp_blocked_domain
    || (p.is_new_external_connection
        && not p.in_allowlist
        && (is_confidential p.data_classification || is_high p.risk_level))

unfoldable pub needs_expert : ExpansionProposal → Bool
needs_expert p =
    p.creates_credentials
    || p.permission_escalation
    || p.org_wide_registration
    || p.new_model_adapter
    || p.large_architecture_change
    || (p.is_new_external_connection && not p.in_allowlist)

unfoldable pub needs_user : ExpansionProposal → Bool
needs_user p = p.in_allowlist && (p.write_access || p.is_new_external_connection)

-- evidence of a low risk
unfoldable pub is_low_risk : ExpansionProposal → Bool
is_low_risk p =
    p.reuse_existing
    || (not p.write_access
        && p.in_allowlist
        && not p.is_new_external_connection
        && is_low p.risk_level
        && not (is_confidential p.data_classification))
    || (is_agent p.kind && p.project_scoped && not p.accesses_secret && not p.permission_escalation)

unfoldable pub level : ExpansionProposal → PolicyDecision
level p =
    if is_forbidden p
    then PolicyDecision.auto_blocked
    else if needs_expert p
    then PolicyDecision.expert_required
    else if needs_user p
    then PolicyDecision.user_approval
    else if is_low_risk p
    then PolicyDecision.auto_approve
    else PolicyDecision.user_approval

-- For every proposal the engine's decision is the level: forbidden is blocked, else what needs an
-- expert goes to one, else what needs the user goes to the user, else a low risk is approved, and
-- what is left goes to the user.
pub decide-level : (p : ExpansionProposal) → (decide p).decision ≡ level p
unfolding decide level is_forbidden needs_expert needs_user is_low_risk
decide-level p = ground arith
