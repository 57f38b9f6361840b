-- ===== src/Orchestrator/Subjects.antt =====
-- The subjects of the state machines, the context of a guard (app/orchestrator/transition_guard.py), and
-- the equality tests of the enumerations that guards compare.
use orchestration_system.Common.{
  ℕ, String, Bool, true, false, not, Option, none, some, List, str_eq,
}
use orchestration_system.Enums.{
  PolicyDecision, ApprovalType, ApprovalDecision, QuestionStatus, DocumentKind, DocumentType,
}
use orchestration_system.Database.{Db}

-- `Project` and `Task`: a task has a `project_id` of its own, and no `idea_text`.
pub record Subject : Type 0 where
  pub id : ℕ
  pub project_id : Option ℕ
  pub idea_text : Option String
  pub status : String
  pub status_reason : Option String

-- The keys of `ctx`; `fire` sets the last two.
pub record Context : Type 0 where
  pub capability_missing : Option (List String)
  pub policy_decision : Option PolicyDecision
  pub subject_type : String
  pub max_retries : ℕ

abbrev pub GuardFn : Type 0
GuardFn = Db → Subject → Context → Bool

-- A text counts as present unless it is None or "".
abbrev pub is_present : Option String → Bool
is_present none = false
is_present (some t) = not (str_eq t "")

unfoldable pub project_id_of : Subject → ℕ
project_id_of s = elim s.project_id [ none ↦ s.id | some p ↦ p ]

abbrev pub is_kind : DocumentKind → DocumentKind → Bool
is_kind DocumentKind.uploaded DocumentKind.uploaded = true
is_kind DocumentKind.generated DocumentKind.generated = true
is_kind _ _ = false

abbrev pub is_doc_type : DocumentType → DocumentType → Bool
is_doc_type DocumentType.idea DocumentType.idea = true
is_doc_type DocumentType.reference DocumentType.reference = true
is_doc_type DocumentType.prd DocumentType.prd = true
is_doc_type DocumentType.backlog DocumentType.backlog = true
is_doc_type _ _ = false

abbrev pub is_status : QuestionStatus → QuestionStatus → Bool
is_status QuestionStatus.open_question QuestionStatus.open_question = true
is_status QuestionStatus.answered QuestionStatus.answered = true
is_status _ _ = false

abbrev pub is_approval : ApprovalType → ApprovalType → Bool
is_approval ApprovalType.requirements ApprovalType.requirements = true
is_approval ApprovalType.reduced_scope ApprovalType.reduced_scope = true
is_approval ApprovalType.expansion ApprovalType.expansion = true
is_approval ApprovalType.plan ApprovalType.plan = true
is_approval ApprovalType.result ApprovalType.result = true
is_approval _ _ = false

abbrev pub is_decision : ApprovalDecision → ApprovalDecision → Bool
is_decision ApprovalDecision.approved ApprovalDecision.approved = true
is_decision ApprovalDecision.rejected ApprovalDecision.rejected = true
is_decision ApprovalDecision.changes_requested ApprovalDecision.changes_requested = true
is_decision _ _ = false

abbrev pub is_policy : PolicyDecision → PolicyDecision → Bool
is_policy PolicyDecision.auto_approve PolicyDecision.auto_approve = true
is_policy PolicyDecision.user_approval PolicyDecision.user_approval = true
is_policy PolicyDecision.expert_required PolicyDecision.expert_required = true
is_policy PolicyDecision.auto_blocked PolicyDecision.auto_blocked = true
is_policy _ _ = false
