-- ===== src/Product/Workflow/Draft.antt =====
-- app/product/workflow.py: the analysis with its gate, and the draft of the requirements.
use Prim.Native.String.{◌++◌}
use orchestration_system.Common.{
  ℕ, String, Bool, true, false, Option, none, some, ltb, if◌then◌else◌, decimal,
}
use orchestration_system.Enums.{ClassificationGate, ConsultationTrigger}
use orchestration_system.Product.Schemas.{CoreAnalysis, ClassificationResult, combined_text}
use orchestration_system.Memory.Conflicts.{detect_conflicts}
use orchestration_system.Memory.Requirements.{sync}
use orchestration_system.Orchestrator.Machine.{Error, World}
use orchestration_system.Product.Workflow.Action.{
  Action, pure, raise, gets, modify, require, is_in, ◌>>=◌, ◌>>◌,
}
use orchestration_system.Product.Workflow.Store.{
  ProductDefinitionWorkflow, no_context, count_open_questions, collect_answers,
  current_classification, collect_input, fire_event, upsert_questions, create_conflict_questions,
  insert_classification,
}
use orchestration_system.Product.Workflow.Consult.{consult, gate_context}
use orchestration_system.Product.Workflow.Specify.{analysis_of}

-- `bool(previous and previous.expert_confirmed)`
unfoldable pub was_confirmed : World → Bool
unfolding current_classification
was_confirmed w = elim (current_classification w) [ none ↦ false | some c ↦ c.expert_confirmed ]

module _ (flow : ProductDefinitionWorkflow) where
  -- The event that ends `_draft_requirements`
  unfoldable pub finish_draft : ℕ → Option ℕ → Action (Unit {0})
  finish_draft open_count actor =
      if ltb 0 open_count
      then fire_event flow "DRAFT_HAS_UNKNOWNS"
          (some ("확인이 필요한 질문 " ++ decimal open_count ++ "건에 답해 주세요.")) no_context actor
      else fire_event flow "DRAFT_COMPLETED" (some "정리된 요구사항을 확인하고 승인해 주세요.") no_context actor

  -- `_draft_requirements`
  unfoldable pub draft_requirements : CoreAnalysis → Option ℕ → Action (Unit {0})
  unfolding finish_draft
  draft_requirements analysis actor = do
    drafting ← gets (is_in "REQUIREMENT_DRAFTING")
    require drafting Error.assertion
    answers ← gets collect_answers
    let requirement_set = flow.requirement_agent analysis answers
    conflicts ←
        gets (λ w. detect_conflicts flow.lower w.subject.id requirement_set.requirements w.db)
    project ← gets (λ w. w.subject.id)
    modify (sync flow.env project requirement_set.requirements "요구사항 초안 갱신")
    upsert_questions flow requirement_set
    create_conflict_questions flow conflicts
    open_count ← gets count_open_questions
    finish_draft open_count actor

  -- `redraft`
  unfoldable pub redraft : Option ℕ → Action (Unit {0})
  unfolding draft_requirements
  redraft actor = do analysis ← gets (analysis_of flow); draft_requirements analysis actor

  -- The `match` of `run_analysis`
  unfoldable pub route_gate :
      CoreAnalysis → ClassificationResult → Bool → Option ℕ → ClassificationGate → Action (Unit {0})
  unfolding draft_requirements
  route_gate analysis c confirmed actor ClassificationGate.blocked =
      fire_event flow "PROHIBITED_SCOPE_DETECTED" (some c.user_message) no_context actor
  route_gate analysis c confirmed actor ClassificationGate.unsupported =
      fire_event flow "CLASSIFIED_UNSUPPORTED" (some c.user_message) no_context actor
  route_gate analysis c true actor ClassificationGate.needs_expert = do
    fire_event flow "EXPERT_CONFIRMED_PROCEED" none no_context actor
    draft_requirements analysis actor
  route_gate analysis c false actor ClassificationGate.needs_expert = do
    consult flow ConsultationTrigger.expert_required (gate_context flow analysis c) none
    fire_event flow "CLASSIFIED_EXPERT_REVIEW"
        (some (
          c.user_message
          ++ "\n개발자에게 전달할 상담 자료를 생성했습니다. 자문 화면에서 다운로드/복사해 전달하고, 답변을 입력하면 진행을 재개합니다."))
        no_context actor
  route_gate analysis c confirmed actor ClassificationGate.needs_approval =
      fire_event flow "CLASSIFIED_AI_ASSISTED" (some c.user_message) no_context actor
  route_gate analysis c confirmed actor ClassificationGate.proceed = do
    fire_event flow "CLASSIFIED_SELF_SERVICE" none no_context actor
    draft_requirements analysis actor

  -- The row of project_classification: an expert's confirmation is carried over.
  unfoldable pub save_classification : ClassificationResult → Action Bool
  unfolding insert_classification
  save_classification c = do
    confirmed ← gets was_confirmed
    project ← gets (λ w. w.subject.id)
    modify (insert_classification flow project c confirmed)
    pure confirmed

  -- The `if` at the head of `run_analysis`
  unfoldable pub entry_event : Action String
  entry_event w =
      if is_in "IDEA_RECEIVED" w
      then pure "ANALYSIS_STARTED" w
      else if is_in "AUTO_BLOCKED_BY_POLICY" w
      then pure "ALTERNATIVE_ACCEPTED" w
      else raise Error.workflow_state w

  -- `run_analysis`
  unfoldable pub run_analysis : Option ℕ → Action (Unit {0})
  unfolding entry_event save_classification route_gate
  run_analysis actor = do
    event ← entry_event
    fire_event flow event none no_context actor
    input ← gets (collect_input flow)
    let analysis = flow.core_agent input
    fire_event flow "ANALYSIS_COMPLETED" none no_context actor
    let c = flow.classifier (combined_text input)
    confirmed ← save_classification c
    route_gate analysis c confirmed actor c.gate
