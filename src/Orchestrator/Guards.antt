-- ===== src/Orchestrator/Guards.antt =====
-- app/orchestrator/transition_guard.py: the guards as tests over the tables, and the registry that
-- finds a guard by its name. A guard's reason, a text for the user, is left out.
use text.Mathlib.Text.{starts_with}
use orchestration_system.Orchestrator.Subjects.{
  GuardFn, is_present, project_id_of, is_kind, is_doc_type, is_status, is_approval, is_decision,
  is_policy,
}
use orchestration_system.Common.{
  ℕ, String, Bool, true, false, not, ◌&&◌, Option, none, some, List, [], ◌∷◌, ltb, leb, ◌==◌,
  if◌then◌else◌, str_eq, is_empty, is_some, count, filter,
}
use orchestration_system.Enums.{
  PolicyDecision, ApprovalType, ApprovalDecision, QuestionStatus, DocumentKind, DocumentType,
}
use orchestration_system.Database.{
  Db, WorkflowEvent, WorkflowCheckpoint, ProjectDocument, ProjectClassification, latest,
}

uploaded_of : ℕ → ProjectDocument → Bool
uploaded_of project d = d.project_id == project && is_kind d.kind DocumentKind.uploaded

unfoldable pub has_planning_input : GuardFn
unfolding uploaded_of
has_planning_input db s ctx =
    if is_present s.idea_text then true else ltb 0 (count (uploaded_of s.id) db.documents)

abbrev classification_key : ProjectClassification → ℕ × ℕ
classification_key c = (c.created_at, c.id)

-- `_latest_classification`
unfoldable pub latest_classification : Db → ℕ → Option ProjectClassification
latest_classification db project =
    latest classification_key (filter (λ c. c.project_id == project) db.classifications)

unfoldable pub classification_saved : GuardFn
unfolding latest_classification
classification_saved db s ctx = is_some (latest_classification db s.id)

unfoldable pub prohibited_detected : GuardFn
unfolding latest_classification
prohibited_detected db s ctx = elim (latest_classification db s.id) [
  | none ↦ false
  | some row ↦ not (is_empty row.prohibited_features)
]

unfoldable pub expert_not_confirmed : GuardFn
unfolding latest_classification
expert_not_confirmed db s ctx = elim (latest_classification db s.id) [
  | none ↦ false
  | some row ↦ not row.expert_confirmed
]

unfoldable pub expert_confirmed : GuardFn
unfolding latest_classification
expert_confirmed db s ctx = elim (latest_classification db s.id) [
  | none ↦ false
  | some row ↦ row.expert_confirmed
]

-- `_count_questions`
unfoldable pub count_questions : Db → ℕ → QuestionStatus → ℕ
count_questions db project st =
    count (λ q. q.project_id == project && is_status q.status st) db.questions

unfoldable pub open_questions_exist : GuardFn
unfolding count_questions
open_questions_exist db s ctx = ltb 0 (count_questions db s.id QuestionStatus.open_question)

unfoldable pub no_open_questions : GuardFn
unfolding count_questions
no_open_questions db s ctx = count_questions db s.id QuestionStatus.open_question == 0

unfoldable pub answered_question_exists : GuardFn
unfolding count_questions
answered_question_exists db s ctx = ltb 0 (count_questions db s.id QuestionStatus.answered)

-- `_approval_guard`: with no decision given, any decision but APPROVED serves.
decision_fits : Option ApprovalDecision → ApprovalDecision → Bool
decision_fits none d = not (is_decision d ApprovalDecision.approved)
decision_fits (some wanted) d = is_decision d wanted

unfoldable pub approval_guard : ApprovalType → Option ApprovalDecision → GuardFn
unfolding decision_fits project_id_of
approval_guard type decision db s ctx = ltb 0 (
    count
      (λ a.
        a.project_id == project_id_of s
        && is_approval a.approval_type type
        && decision_fits decision a.decision)
      db.approvals)

-- `_document_exists`
unfoldable pub document_exists : Db → ℕ → DocumentType → Bool
document_exists db project type = ltb 0 (
    count
      (λ d.
        d.project_id == project
        && is_kind d.kind DocumentKind.generated
        && is_doc_type d.doc_type type)
      db.documents)

unfoldable pub prd_document_exists : GuardFn
unfolding document_exists
prd_document_exists db s ctx = document_exists db s.id DocumentType.prd

unfoldable pub backlog_document_exists : GuardFn
unfolding document_exists
backlog_document_exists db s ctx = document_exists db s.id DocumentType.backlog

unfoldable pub capability_no_gap : GuardFn
capability_no_gap db s ctx = elim ctx.capability_missing [
  | none ↦ false
  | some missing ↦ is_empty missing
]

unfoldable pub capability_gap_exists : GuardFn
capability_gap_exists db s ctx = elim ctx.capability_missing [
  | none ↦ false
  | some missing ↦ not (is_empty missing)
]

-- the checkpoints of one subject
unfoldable pub checkpoint_of : String → ℕ → WorkflowCheckpoint → Bool
checkpoint_of type id c = str_eq c.subject_type type && c.subject_id == id

unfoldable pub checkpoint_exists : GuardFn
unfolding checkpoint_of
checkpoint_exists db s ctx = ltb 0 (count (checkpoint_of ctx.subject_type s.id) db.checkpoints)

unfoldable pub expert_confirmed_with_checkpoint : GuardFn
unfolding expert_confirmed checkpoint_exists
expert_confirmed_with_checkpoint db s ctx =
    if expert_confirmed db s ctx then checkpoint_exists db s ctx else false

-- `_policy_decision_guard`
unfoldable pub policy_decision_guard : PolicyDecision → GuardFn
policy_decision_guard expected db s ctx = elim ctx.policy_decision [
  | none ↦ false
  | some decision ↦ is_policy decision expected
]

-- the applied RETRY_SCHEDULED events of one subject
unfoldable pub retry_of : String → ℕ → WorkflowEvent → Bool
retry_of type id e =
    str_eq e.subject_type type && e.subject_id == id && str_eq e.event "RETRY_SCHEDULED"

unfoldable pub can_retry : GuardFn
unfolding checkpoint_exists retry_of
can_retry db s ctx =
    if checkpoint_exists db s ctx
    then not (leb ctx.max_retries (count (retry_of ctx.subject_type s.id) db.events))
    else false

-- `GuardRegistry._guards`
unfoldable pub guard_registry : List (String × GuardFn)
guard_registry =
    ("has_planning_input", has_planning_input)
    ∷ ("classification_saved", classification_saved)
    ∷ ("prohibited_detected", prohibited_detected)
    ∷ ("expert_not_confirmed", expert_not_confirmed)
    ∷ ("expert_confirmed", expert_confirmed)
    ∷ ("expert_confirmed_with_checkpoint", expert_confirmed_with_checkpoint)
    ∷ ("open_questions_exist", open_questions_exist)
    ∷ ("no_open_questions", no_open_questions)
    ∷ ("answered_question_exists", answered_question_exists)
    ∷ (
      "requirements_approval_exists",
      approval_guard ApprovalType.requirements (some ApprovalDecision.approved),
    )
    ∷ ("requirements_change_request_exists", approval_guard ApprovalType.requirements none)
    ∷ (
      "reduced_scope_approval_exists",
      approval_guard ApprovalType.reduced_scope (some ApprovalDecision.approved),
    )
    ∷ (
      "expansion_approval_exists",
      approval_guard ApprovalType.expansion (some ApprovalDecision.approved),
    )
    ∷ ("plan_approval_exists", approval_guard ApprovalType.plan (some ApprovalDecision.approved))
    ∷ (
      "result_approval_exists",
      approval_guard ApprovalType.result (some ApprovalDecision.approved),
    )
    ∷ ("prd_document_exists", prd_document_exists)
    ∷ ("backlog_document_exists", backlog_document_exists)
    ∷ ("capability_no_gap", capability_no_gap)
    ∷ ("capability_gap_exists", capability_gap_exists)
    ∷ ("checkpoint_exists", checkpoint_exists)
    ∷ ("can_retry", can_retry)
    ∷ ("policy_decision_auto_approve", policy_decision_guard PolicyDecision.auto_approve)
    ∷ ("policy_decision_user_approval", policy_decision_guard PolicyDecision.user_approval)
    ∷ ("policy_decision_expert_required", policy_decision_guard PolicyDecision.expert_required)
    ∷ ("policy_decision_auto_blocked", policy_decision_guard PolicyDecision.auto_blocked)
    ∷ []

unfoldable pub lookup_guard : String → List (String × GuardFn) → Option GuardFn
lookup_guard name [] = none
lookup_guard name ((n, g) ∷ rest) = if str_eq n name then some g else lookup_guard name rest

-- `GuardRegistry.evaluate`: a deferred guard passes, and an unknown name fails.
unfoldable pub evaluate : String → GuardFn
unfolding guard_registry lookup_guard
evaluate name db s ctx =
    if starts_with name "deferred:"
    then true
    else elim (lookup_guard name guard_registry) [ none ↦ false | some guard ↦ guard db s ctx ]
