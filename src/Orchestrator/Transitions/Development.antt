-- ===== src/Orchestrator/Transitions/Development.antt =====
-- The development transitions of app/orchestrator/transitions.py, row by row in the order of the source.
use orchestration_system.Common.{◌++◌, String, List, [], ◌∷◌}
use orchestration_system.Orchestrator.Transitions.Defs.{TransitionDef, checkpoint, plain, guarded}

unfoldable pub dev_main : List TransitionDef
dev_main =
    guarded "RECEIVED" "TASK_ACCEPTED" "VALIDATING" "deferred:ticket-lock@phase14"
    ∷ guarded "VALIDATING" "VALIDATION_PASSED" "CONTEXT_BUILDING" "deferred:task-schema@phase10"
    ∷ plain "VALIDATING" "VALIDATION_FAILED" "FAILED"
    ∷ guarded "VALIDATING" "DEPENDENCY_UNMET" "WAITING_DEPENDENCY"
        "deferred:dependency-check@phase10"
    ∷ guarded "CONTEXT_BUILDING" "CONTEXT_READY" "SUPERVISING" "deferred:context-package@phase10"
    ∷ plain "CONTEXT_BUILDING" "INFO_MISSING" "WAITING_INFORMATION"
    ∷ guarded "SUPERVISING" "PLAN_AUTO_APPROVED" "WORKSPACE_CREATING" "policy_decision_auto_approve"
    ∷ plain "SUPERVISING" "PLAN_NEEDS_USER" "WAITING_PLAN_APPROVAL"
    ∷ plain "SUPERVISING" "PLAN_NEEDS_EXPERT" "WAITING_EXPERT_CONFIRMATION"
    ∷ plain "SUPERVISING" "PLAN_BLOCKED" "AUTO_BLOCKED_BY_POLICY"
    ∷ guarded "SUPERVISING" "AGENT_OUTPUT_INVALID" "AGENT_VALIDATION_FAILED"
        "deferred:json-correction@phase9"
    ∷ guarded "WAITING_PLAN_APPROVAL" "PLAN_APPROVED" "WORKSPACE_CREATING" "plan_approval_exists"
    ∷ guarded "WAITING_PLAN_APPROVAL" "PLAN_REJECTED" "SUPERVISING" "deferred:replan-limit@phase10"
    ∷ guarded "WORKSPACE_CREATING" "WORKSPACE_READY" "IMPLEMENTING" "deferred:worktree@phase8"
    ∷ plain "WORKSPACE_CREATING" "LOCK_CONFLICT" "CONFLICTED"
    ∷ guarded "IMPLEMENTING" "CODE_COMPLETED" "LOCAL_VALIDATING" "deferred:scope-guard@phase8"
    ∷ guarded "IMPLEMENTING" "BUDGET_EXHAUSTED" "TOKEN_BUDGET_EXCEEDED"
        "deferred:budget-manager@phase9"
    ∷ guarded "IMPLEMENTING" "AGENT_OUTPUT_INVALID" "AGENT_VALIDATION_FAILED"
        "deferred:json-correction@phase9"
    ∷ plain "IMPLEMENTING" "IMPLEMENT_FAILED" "FAILED"
    ∷ guarded "LOCAL_VALIDATING" "QUALITY_GATE_PASSED" "COMMITTING" "deferred:quality-gate@phase12"
    ∷ guarded "LOCAL_VALIDATING" "QUALITY_GATE_FAILED" "REPAIRING" "deferred:repair-limit@phase10"
    ∷ plain "LOCAL_VALIDATING" "REPAIR_LIMIT_EXCEEDED" "WAITING_USER_REVIEW"
    ∷ guarded "COMMITTING" "PUSHED" "PR_CREATING" "deferred:git-push@phase11"
    ∷ plain "COMMITTING" "BASE_DRIFT_DETECTED" "CONFLICTED"
    ∷ guarded "PR_CREATING" "PR_CREATED" "CI_RUNNING" "deferred:pr-idempotency@phase11"
    ∷ plain "PR_CREATING" "PR_CREATE_FAILED" "FAILED"
    ∷ guarded "CI_RUNNING" "CI_PASSED" "REVIEWING" "deferred:webhook-idempotency@phase11"
    ∷ guarded "CI_RUNNING" "CI_FAILED" "REPAIRING" "deferred:repair-limit@phase10"
    ∷ guarded "REVIEWING" "REVIEW_APPROVED" "PACKAGING" "deferred:review-schema@phase10"
    ∷ guarded "REVIEWING" "REVIEW_CHANGES_REQUESTED" "REPAIRING" "deferred:repair-limit@phase10"
    ∷ guarded "REVIEWING" "AGENT_OUTPUT_INVALID" "AGENT_VALIDATION_FAILED"
        "deferred:json-correction@phase9"
    ∷ guarded "REPAIRING" "REPAIR_COMPLETED" "LOCAL_VALIDATING" "deferred:repair-limit@phase10"
    ∷ plain "REPAIRING" "REPAIR_LIMIT_EXCEEDED" "WAITING_USER_REVIEW"
    ∷ guarded "REPAIRING" "BUDGET_EXHAUSTED" "TOKEN_BUDGET_EXCEEDED"
        "deferred:budget-manager@phase9"
    ∷ guarded "PACKAGING" "PACKAGE_READY" "WAITING_USER_REVIEW" "deferred:packaging@phase13"
    ∷ guarded "PACKAGING" "PACKAGING_FAILED" "REPAIRING" "deferred:repair-limit@phase10"
    ∷ guarded "WAITING_USER_REVIEW" "USER_APPROVED" "READY_FOR_MERGE" "result_approval_exists"
    ∷ guarded "WAITING_USER_REVIEW" "USER_FEEDBACK" "REPAIRING" "deferred:repair-limit@phase10"
    ∷ plain "WAITING_USER_REVIEW" "USER_CANCELLED" "CANCELLED"
    ∷ guarded "READY_FOR_MERGE" "MERGE_COMPLETED" "MERGED" "result_approval_exists"
    ∷ plain "READY_FOR_MERGE" "MERGE_CONFLICT" "CONFLICTED"
    ∷ guarded "MERGED" "DELIVERED_TO_USER" "DELIVERED" "deferred:artifact-store@phase13"
    ∷ guarded "DELIVERED" "MEMORY_UPDATED" "CLEANUP" "deferred:memory-update@phase10"
    ∷ guarded "CLEANUP" "CLEANUP_COMPLETED" "COMPLETED" "deferred:cleanup@phase8"
    ∷ []

unfoldable pub dev_recovery : List TransitionDef
dev_recovery =
    guarded "WAITING_INFORMATION" "INFO_PROVIDED" checkpoint "checkpoint_exists"
    ∷ guarded "WAITING_DEPENDENCY" "DEPENDENCY_RESOLVED" checkpoint "checkpoint_exists"
    ∷ guarded "WAITING_EXPERT_CONFIRMATION" "EXPERT_ANSWER_UNBLOCKS" checkpoint "checkpoint_exists"
    ∷ plain "WAITING_EXPERT_CONFIRMATION" "EXPERT_ANSWER_ADJUSTS_SCOPE" "SUPERVISING"
    ∷ plain "WAITING_EXPERT_CONFIRMATION" "EXPERT_ANSWER_STOPS" "CANCELLED"
    ∷ guarded "BLOCKED" "BLOCK_RESOLVED" checkpoint "checkpoint_exists"
    ∷ guarded "CONFLICTED" "REBASE_SUCCEEDED" "LOCAL_VALIDATING" "deferred:rebase@phase8"
    ∷ plain "CONFLICTED" "REBASE_FAILED" "SUPERVISING"
    ∷ guarded "FAILED" "RETRY_SCHEDULED" checkpoint "can_retry"
    ∷ plain "FAILED" "RETRY_EXHAUSTED_SCOPE_DOWN" "SUPERVISING"
    ∷ plain "FAILED" "RETRY_EXHAUSTED_CONSULT" "WAITING_EXPERT_CONFIRMATION"
    ∷ plain "FAILED" "RETRY_EXHAUSTED_STOP" "CANCELLED"
    ∷ guarded "TOKEN_BUDGET_EXCEEDED" "BUDGET_INCREASE_APPROVED" checkpoint "checkpoint_exists"
    ∷ plain "TOKEN_BUDGET_EXCEEDED" "BUDGET_INCREASE_DENIED" "SUPERVISING"
    ∷ plain "TOKEN_BUDGET_EXCEEDED" "BUDGET_DENIED_STOP" "CANCELLED"
    ∷ guarded "MCP_CONNECTION_FAILED" "MCP_RETRY_SUCCEEDED" checkpoint "checkpoint_exists"
    ∷ plain "MCP_CONNECTION_FAILED" "MCP_ALTERNATIVE_SELECTED" "SUPERVISING"
    ∷ plain "MCP_CONNECTION_FAILED" "MCP_RETRY_EXHAUSTED" "WAITING_EXPERT_CONFIRMATION"
    ∷ guarded "AGENT_VALIDATION_FAILED" "CORRECTION_SUCCEEDED" checkpoint "checkpoint_exists"
    ∷ plain "AGENT_VALIDATION_FAILED" "CORRECTION_EXHAUSTED" "FAILED"
    ∷ plain "AUTO_BLOCKED_BY_POLICY" "ALTERNATIVE_ACCEPTED" "SUPERVISING"
    ∷ plain "AUTO_BLOCKED_BY_POLICY" "REQUIREMENT_CHANGE_NEEDED" "CANCELLED"
    ∷ plain "AUTO_BLOCKED_BY_POLICY" "BLOCK_ACKNOWLEDGED_STOP" "CANCELLED"
    ∷ []

unfoldable pub development_transitions : List TransitionDef
unfolding dev_main dev_recovery
development_transitions = dev_main ++ dev_recovery

unfoldable pub development_exception_states : List String
development_exception_states =
    "WAITING_INFORMATION" ∷ "WAITING_DEPENDENCY" ∷ "WAITING_EXPERT_CONFIRMATION" ∷ "BLOCKED"
    ∷ "CONFLICTED" ∷ "FAILED" ∷ "CANCELLED" ∷ "TOKEN_BUDGET_EXCEEDED" ∷ "MCP_CONNECTION_FAILED"
    ∷ "AGENT_VALIDATION_FAILED" ∷ "AUTO_BLOCKED_BY_POLICY" ∷ []

unfoldable pub development_terminal_states : List String
development_terminal_states = "CANCELLED" ∷ "COMPLETED" ∷ []
