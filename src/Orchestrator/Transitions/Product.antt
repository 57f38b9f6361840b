-- ===== src/Orchestrator/Transitions/Product.antt =====
-- The product transitions of app/orchestrator/transitions.py, row by row in the order of the source.
-- The `description` column, which no code reads, is left out.
use orchestration_system.Common.{◌++◌, String, List, [], ◌∷◌, map}
use orchestration_system.Orchestrator.Transitions.Defs.{TransitionDef, checkpoint, plain, guarded}

unfoldable pub product_main_rows : List TransitionDef
product_main_rows =
    guarded "IDEA_RECEIVED" "ANALYSIS_STARTED" "DOCUMENT_ANALYZING" "has_planning_input"
    ∷ guarded "DOCUMENT_ANALYZING" "ANALYSIS_COMPLETED" "CLASSIFYING"
        "deferred:core-output-schema@phase9"
    ∷ guarded "DOCUMENT_ANALYZING" "AGENT_OUTPUT_INVALID" "AGENT_VALIDATION_FAILED"
        "deferred:json-correction@phase9"
    ∷ guarded "DOCUMENT_ANALYZING" "ANALYSIS_FAILED" "FAILED" "deferred:retry-policy@phase9"
    ∷ guarded "CLASSIFYING" "CLASSIFIED_SELF_SERVICE" "REQUIREMENT_DRAFTING" "classification_saved"
    ∷ guarded "CLASSIFYING" "CLASSIFIED_AI_ASSISTED" "WAITING_APPROVAL" "classification_saved"
    ∷ guarded "CLASSIFYING" "CLASSIFIED_EXPERT_REVIEW" "WAITING_EXPERT_CONFIRMATION"
        "expert_not_confirmed"
    ∷ guarded "CLASSIFYING" "EXPERT_CONFIRMED_PROCEED" "REQUIREMENT_DRAFTING" "expert_confirmed"
    ∷ guarded "CLASSIFYING" "CLASSIFIED_UNSUPPORTED" "CANCELLED" "classification_saved"
    ∷ guarded "CLASSIFYING" "PROHIBITED_SCOPE_DETECTED" "AUTO_BLOCKED_BY_POLICY"
        "prohibited_detected"
    ∷ guarded "REQUIREMENT_DRAFTING" "DRAFT_HAS_UNKNOWNS" "WAITING_REQUIREMENT_INPUT"
        "open_questions_exist"
    ∷ guarded "REQUIREMENT_DRAFTING" "DRAFT_COMPLETED" "WAITING_REQUIREMENT_APPROVAL"
        "no_open_questions"
    ∷ guarded "REQUIREMENT_DRAFTING" "AGENT_OUTPUT_INVALID" "AGENT_VALIDATION_FAILED"
        "deferred:json-correction@phase9"
    ∷ guarded "WAITING_REQUIREMENT_INPUT" "USER_ANSWERED" "REQUIREMENT_DRAFTING"
        "answered_question_exists"
    ∷ guarded "WAITING_REQUIREMENT_APPROVAL" "REQUIREMENTS_APPROVED" "SPECIFICATION_GENERATING"
        "requirements_approval_exists"
    ∷ guarded "WAITING_REQUIREMENT_APPROVAL" "CHANGES_REQUESTED" "REQUIREMENT_DRAFTING"
        "requirements_change_request_exists"
    ∷ guarded "SPECIFICATION_GENERATING" "SPEC_COMPLETED" "CAPABILITY_ANALYZING"
        "prd_document_exists"
    ∷ guarded "SPECIFICATION_GENERATING" "AGENT_OUTPUT_INVALID" "AGENT_VALIDATION_FAILED"
        "deferred:json-correction@phase9"
    ∷ guarded "CAPABILITY_ANALYZING" "NO_GAP_FOUND" "BACKLOG_GENERATING" "capability_no_gap"
    ∷ guarded "CAPABILITY_ANALYZING" "GAP_FOUND" "EXPANSION_PROPOSING" "capability_gap_exists"
    ∷ guarded "EXPANSION_PROPOSING" "PROPOSAL_AUTO_APPROVED" "BACKLOG_GENERATING"
        "policy_decision_auto_approve"
    ∷ guarded "EXPANSION_PROPOSING" "PROPOSAL_NEEDS_USER" "WAITING_EXPANSION_APPROVAL"
        "policy_decision_user_approval"
    ∷ guarded "EXPANSION_PROPOSING" "PROPOSAL_NEEDS_EXPERT" "WAITING_EXPERT_CONFIRMATION"
        "policy_decision_expert_required"
    ∷ guarded "EXPANSION_PROPOSING" "PROPOSAL_BLOCKED" "AUTO_BLOCKED_BY_POLICY"
        "policy_decision_auto_blocked"
    ∷ guarded "WAITING_EXPANSION_APPROVAL" "EXPANSION_APPROVED" "BACKLOG_GENERATING"
        "expansion_approval_exists"
    ∷ plain "WAITING_EXPANSION_APPROVAL" "EXPANSION_DENIED" "EXPANSION_REJECTED"
    ∷ guarded "BACKLOG_GENERATING" "BACKLOG_READY_NEW_REPO" "BOOTSTRAPPING"
        "deferred:bootstrap@phase8"
    ∷ guarded "BACKLOG_GENERATING" "BACKLOG_READY_EXISTING" "READY_FOR_DEVELOPMENT"
        "backlog_document_exists"
    ∷ guarded "BOOTSTRAPPING" "BOOTSTRAP_COMPLETED" "READY_FOR_DEVELOPMENT"
        "deferred:bootstrap@phase8"
    ∷ guarded "BOOTSTRAPPING" "BOOTSTRAP_FAILED" "FAILED" "deferred:bootstrap@phase8"
    ∷ []

abbrev product_budget_sources : List String
product_budget_sources =
    "DOCUMENT_ANALYZING" ∷ "CLASSIFYING" ∷ "REQUIREMENT_DRAFTING" ∷ "SPECIFICATION_GENERATING"
    ∷ "CAPABILITY_ANALYZING" ∷ "EXPANSION_PROPOSING" ∷ "BACKLOG_GENERATING" ∷ []

budget_row : String → TransitionDef
budget_row source =
    guarded source "BUDGET_EXHAUSTED" "TOKEN_BUDGET_EXCEEDED" "deferred:budget-manager@phase9"

unfoldable pub product_recovery : List TransitionDef
product_recovery =
    guarded "WAITING_APPROVAL" "APPROVAL_GRANTED" "REQUIREMENT_DRAFTING"
      "reduced_scope_approval_exists"
    ∷ plain "WAITING_APPROVAL" "APPROVAL_DENIED" "CANCELLED"
    ∷ guarded "WAITING_EXPERT_CONFIRMATION" "EXPERT_ANSWER_UNBLOCKS" checkpoint
        "expert_confirmed_with_checkpoint"
    ∷ plain "WAITING_EXPERT_CONFIRMATION" "EXPERT_ANSWER_ADJUSTS_SCOPE" "REQUIREMENT_DRAFTING"
    ∷ plain "WAITING_EXPERT_CONFIRMATION" "EXPERT_ANSWER_STOPS" "CANCELLED"
    ∷ guarded "BLOCKED" "BLOCK_RESOLVED" checkpoint "checkpoint_exists"
    ∷ guarded "FAILED" "RETRY_SCHEDULED" checkpoint "can_retry"
    ∷ plain "FAILED" "RETRY_EXHAUSTED_SCOPE_DOWN" "REQUIREMENT_DRAFTING"
    ∷ plain "FAILED" "RETRY_EXHAUSTED_CONSULT" "WAITING_EXPERT_CONFIRMATION"
    ∷ plain "FAILED" "RETRY_EXHAUSTED_STOP" "CANCELLED"
    ∷ guarded "TOKEN_BUDGET_EXCEEDED" "BUDGET_INCREASE_APPROVED" checkpoint "checkpoint_exists"
    ∷ plain "TOKEN_BUDGET_EXCEEDED" "BUDGET_INCREASE_DENIED" "REQUIREMENT_DRAFTING"
    ∷ plain "TOKEN_BUDGET_EXCEEDED" "BUDGET_DENIED_STOP" "CANCELLED"
    ∷ plain "EXPANSION_REJECTED" "SCOPE_REDUCED_RETRY" "BACKLOG_GENERATING"
    ∷ plain "EXPANSION_REJECTED" "REJECT_ACCEPTED_STOP" "CANCELLED"
    ∷ guarded "MCP_CONNECTION_FAILED" "MCP_RETRY_SUCCEEDED" checkpoint "checkpoint_exists"
    ∷ plain "MCP_CONNECTION_FAILED" "MCP_ALTERNATIVE_SELECTED" "EXPANSION_PROPOSING"
    ∷ plain "MCP_CONNECTION_FAILED" "MCP_RETRY_EXHAUSTED" "WAITING_EXPERT_CONFIRMATION"
    ∷ guarded "AGENT_VALIDATION_FAILED" "CORRECTION_SUCCEEDED" checkpoint "checkpoint_exists"
    ∷ plain "AGENT_VALIDATION_FAILED" "CORRECTION_EXHAUSTED" "FAILED"
    ∷ guarded "AUTO_BLOCKED_BY_POLICY" "ALTERNATIVE_ACCEPTED" "DOCUMENT_ANALYZING"
        "has_planning_input"
    ∷ plain "AUTO_BLOCKED_BY_POLICY" "BLOCK_ACKNOWLEDGED_STOP" "CANCELLED"
    ∷ []

unfoldable pub product_transitions : List TransitionDef
unfolding product_main_rows budget_row product_recovery
product_transitions =
    (product_main_rows ++ map budget_row product_budget_sources) ++ product_recovery

unfoldable pub product_exception_states : List String
product_exception_states =
    "WAITING_APPROVAL" ∷ "WAITING_EXPERT_CONFIRMATION" ∷ "BLOCKED" ∷ "FAILED" ∷ "CANCELLED"
    ∷ "TOKEN_BUDGET_EXCEEDED" ∷ "EXPANSION_REJECTED" ∷ "MCP_CONNECTION_FAILED"
    ∷ "AGENT_VALIDATION_FAILED" ∷ "AUTO_BLOCKED_BY_POLICY" ∷ []

unfoldable pub product_terminal_states : List String
product_terminal_states = "CANCELLED" ∷ []
