-- ===== src/Product/Workflow/Handlers.antt =====
-- app/product/workflow.py: what a user's answer, decision or expert's reply sets off. Each returns the
-- project, which is the world's subject.
use Prim.Native.String.{◌++◌}
use orchestration_system.Common.{
  ℕ, String, Bool, true, false, not, ◌&&◌, Option, none, some, ◌==◌, if◌then◌else◌, str_eq, filter,
  update, join,
}
use orchestration_system.Enums.{
  PolicyDecision, QuestionStatus, ApprovalType, ApprovalDecision, DecisionSource,
}
use orchestration_system.Database.{Db, ProjectClassification, RequirementQuestion}
use orchestration_system.Memory.Decisions.{add_decision, add_feedback}
use orchestration_system.Consultation.Service.{latest_for_project, record_answer, mark_applied}
use orchestration_system.Orchestrator.Subjects.{is_present, is_status, is_decision}
use orchestration_system.Orchestrator.Machine.{Error, Result, World}
use orchestration_system.Orchestrator.Engine.{scalar_one_or_none}
use orchestration_system.Product.Workflow.Action.{
  Action, pure, raise, gets, modify, require, is_in, query, ◌>>=◌, ◌>>◌,
}
use orchestration_system.Product.Workflow.Store.{
  ProductDefinitionWorkflow, no_context, with_decision, text_or_empty, of_project,
  count_open_questions, current_classification, fire_event, add_approval,
}
use orchestration_system.Product.Workflow.Specify.{
  build_spec, generate_backlog, generate_specification, activate_pending_expansions,
}
use orchestration_system.Product.Workflow.Draft.{redraft}

-- ANSWER_UNBLOCK, ANSWER_ADJUST_SCOPE and ANSWER_STOP
pub data Resolution : Type 0 where
  unblock adjust_scope stop : Resolution

-- `resolution not in ANSWER_RESOLUTIONS` is a WorkflowStateError.
unfoldable pub resolution_of_text : String → Option Resolution
resolution_of_text s =
    if str_eq s "UNBLOCK"
    then some Resolution.unblock
    else if str_eq s "ADJUST_SCOPE"
    then some Resolution.adjust_scope
    else if str_eq s "STOP"
    then some Resolution.stop
    else none

-- `action_text`
unfoldable pub action_text : Resolution → String
action_text Resolution.unblock = "게이트 해제 후 진행"
action_text Resolution.adjust_scope = "범위 조정 후 재작성"
action_text Resolution.stop = "중단"

-- a value, or a WorkflowStateError
abbrev pub or_raise : {A : Type 0} → Option A → Action A
or_raise none = raise Error.workflow_state
or_raise (some a) = pure a

unfoldable pub answered_question : String → RequirementQuestion → RequirementQuestion
answered_question answer q = record q { answer = some answer; status = QuestionStatus.answered }

-- the query of `answer_question`
unfoldable pub find_question : String → World → Result (Option RequirementQuestion)
find_question key w =
    scalar_one_or_none
      (filter (λ q. of_project w.subject.id q && str_eq q.question_key key) w.db.questions)

-- the text of the decision on a reduced scope
unfoldable pub scope_text : Option ProjectClassification → String
scope_text none = "축소 범위로 진행"
scope_text (some c) =
    let excluded = join ", " c.risky_features in
    if str_eq excluded "" then "축소 범위로 진행" else "첫 버전에서 제외: " ++ excluded

abbrev set_confirmed : ProjectClassification → Db → Db
set_confirmed c db = record db {
  classifications =
      update (λ x. x.id == c.id) (λ x. record x { expert_confirmed = true }) db.classifications;
}

module _ (flow : ProductDefinitionWorkflow) where
  unfoldable pub log_decision : String → String → Option String → Action (Unit {0})
  unfolding add_decision
  log_decision title decision reason w =
      modify
        (add_decision flow.env w.subject.id title decision reason DecisionSource.user_confirmed) w

  unfoldable pub write_answer : RequirementQuestion → String → Action (Unit {0})
  unfolding answered_question
  write_answer q answer = modify λ db. record db {
    questions = update (λ x. x.id == q.id) (answered_question answer) db.questions;
  }

  -- The end of `answer_question`: the last answer starts a new draft.
  unfoldable pub after_answer : ℕ → ℕ → Action (Unit {0})
  unfolding redraft
  after_answer user open_count =
      if open_count == 0
      then (do
        fire_event flow "USER_ANSWERED" none no_context (some user)
        redraft flow (some user))
      else pure tt

  -- `answer_question`
  unfoldable pub answer_question : String → String → ℕ → Action (Unit {0})
  unfolding find_question write_answer log_decision after_answer
  answer_question key answer user = do
    waiting ← gets (is_in "WAITING_REQUIREMENT_INPUT")
    require waiting Error.workflow_state
    found ← query (find_question key)
    q ← or_raise found
    require (not (is_status q.status QuestionStatus.answered)) Error.workflow_state
    write_answer q answer
    log_decision q.question answer (some ("질문 " ++ q.question_key ++ "에 대한 사용자 답변"))
    open_count ← gets count_open_questions
    after_answer user open_count

  unfoldable pub save_feedback : ℕ → Option String → Action (Unit {0})
  unfolding add_feedback
  save_feedback user comment w =
      if is_present comment
      then modify
          (add_feedback flow.env w.subject.id user (text_or_empty comment) "requirement_review") w
      else pure tt w

  unfoldable pub after_requirements : ℕ → Option String → Bool → Action (Unit {0})
  unfolding generate_specification save_feedback redraft
  after_requirements user comment true = do
    fire_event flow "REQUIREMENTS_APPROVED" none no_context (some user)
    generate_specification flow (some user)
  after_requirements user comment false = do
    save_feedback user comment
    fire_event flow "CHANGES_REQUESTED" none no_context (some user)
    redraft flow (some user)

  -- `decide_requirements`
  unfoldable pub decide_requirements : ℕ → ApprovalDecision → Option String → Action (Unit {0})
  unfolding after_requirements
  decide_requirements user decision comment = do
    waiting ← gets (is_in "WAITING_REQUIREMENT_APPROVAL")
    require waiting Error.workflow_state
    add_approval flow user ApprovalType.requirements decision comment
    after_requirements user comment (is_decision decision ApprovalDecision.approved)

  unfoldable pub after_scope : ℕ → Option String → Bool → Action (Unit {0})
  unfolding scope_text log_decision redraft
  after_scope user comment true = do
    classification ← gets current_classification
    log_decision "위험 기능을 제외한 축소 범위로 진행" (scope_text classification) comment
    fire_event flow "APPROVAL_GRANTED" none no_context (some user)
    redraft flow (some user)
  after_scope user comment false =
      fire_event flow "APPROVAL_DENIED" (some "축소 범위 제안이 거절되어 프로젝트를 중단했습니다. 기획을 수정해 새로 시작할 수 있습니다.")
        no_context (some user)

  -- `decide_reduced_scope`
  unfoldable pub decide_reduced_scope : ℕ → ApprovalDecision → Option String → Action (Unit {0})
  unfolding after_scope
  decide_reduced_scope user decision comment = do
    waiting ← gets (is_in "WAITING_APPROVAL")
    require waiting Error.workflow_state
    add_approval flow user ApprovalType.reduced_scope decision comment
    after_scope user comment (is_decision decision ApprovalDecision.approved)

  unfoldable pub after_expansion : ℕ → Bool → Action (Unit {0})
  unfolding activate_pending_expansions build_spec generate_backlog
  after_expansion user true = do
    activate_pending_expansions flow
    fire_event flow "EXPANSION_APPROVED" none no_context (some user)
    spec ← gets (build_spec flow)
    generate_backlog flow spec (some user)
  after_expansion user false =
      fire_event flow "EXPANSION_DENIED"
        (some "확장 제안이 거절되었습니다. 기존 기능만으로 범위를 줄여 다시 진행하거나 중단할 수 있습니다.") no_context (some user)

  -- `decide_expansion`
  unfoldable pub decide_expansion : ℕ → ApprovalDecision → Option String → Action (Unit {0})
  unfolding after_expansion
  decide_expansion user decision comment = do
    waiting ← gets (is_in "WAITING_EXPANSION_APPROVAL")
    require waiting Error.workflow_state
    add_approval flow user ApprovalType.expansion decision comment
    after_expansion user (is_decision decision ApprovalDecision.approved)

  -- the flag on the latest classification
  unfoldable pub confirm_expert : Action (Unit {0})
  unfolding current_classification
  confirm_expert w = elim (current_classification w) [
    | none ↦ pure tt w
    | some c ↦ modify (set_confirmed c) w
  ]

  unfoldable pub resume_gate : ℕ → Action (Unit {0})
  unfolding redraft
  resume_gate user = do
    fire_event flow "EXPERT_CONFIRMED_PROCEED" none no_context (some user)
    redraft flow (some user)

  unfoldable pub resume_expansion : ℕ → Action (Unit {0})
  unfolding activate_pending_expansions build_spec generate_backlog
  resume_expansion user = do
    activate_pending_expansions flow
    fire_event flow "PROPOSAL_AUTO_APPROVED" (some "개발자 확인이 완료되어 확장을 반영하고 개발 준비를 진행합니다.")
        (with_decision PolicyDecision.auto_approve) (some user)
    spec ← gets (build_spec flow)
    generate_backlog flow spec (some user)

  -- What follows at the state that the checkpoint gives back
  unfoldable pub resume : ℕ → Action (Unit {0})
  unfolding resume_gate resume_expansion
  resume user w =
      if is_in "CLASSIFYING" w
      then resume_gate user w
      else if is_in "EXPANSION_PROPOSING" w
      then resume_expansion user w
      else pure tt w

  -- `_unblock_after_expert`
  unfoldable pub unblock_after_expert : ℕ → Action (Unit {0})
  unfolding confirm_expert resume
  unblock_after_expert user = do
    confirm_expert
    fire_event flow "EXPERT_ANSWER_UNBLOCKS" (some "개발자 확인이 완료되어 진행을 재개합니다.") no_context (some user)
    resume user

  unfoldable pub apply_resolution : ℕ → Resolution → Action (Unit {0})
  unfolding redraft unblock_after_expert
  apply_resolution user Resolution.stop =
      fire_event flow "EXPERT_ANSWER_STOPS" (some "개발자 자문 결과에 따라 프로젝트를 중단했습니다.") no_context
        (some user)
  apply_resolution user Resolution.adjust_scope = do
    fire_event flow "EXPERT_ANSWER_ADJUSTS_SCOPE" (some "개발자 자문 결과에 따라 범위를 조정해 요구사항을 다시 정리합니다.")
        no_context (some user)
    redraft flow (some user)
  apply_resolution user Resolution.unblock = unblock_after_expert user

  -- `apply_consultation_answer`
  unfoldable pub apply_consultation_answer : ℕ → String → String → String → Action (Unit {0})
  unfolding resolution_of_text action_text apply_resolution
  apply_consultation_answer user key answer resolution = do
    waiting ← gets (is_in "WAITING_EXPERT_CONFIRMATION")
    require waiting Error.workflow_state
    known ← or_raise (resolution_of_text resolution)
    latest ← gets (λ w. latest_for_project w.subject.id w.db)
    consultation ← or_raise latest
    modify (record_answer flow.env consultation key answer (action_text known) (some user))
    apply_resolution user known
    modify (mark_applied flow.env consultation)
