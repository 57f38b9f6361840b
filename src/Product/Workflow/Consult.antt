-- ===== src/Product/Workflow/Consult.antt =====
-- app/product/workflow.py and app/expansion/service.py: the packages for a developer, and the questions
-- about an expansion.
use Prim.Native.String.{◌++◌}
use orchestration_system.Common.{
  ℕ, String, Option, none, some, List, [], ◌∷◌, map, if◌then◌else◌, str_eq,
}
use orchestration_system.Enums.{ConsultationTrigger, PolicyDecision}
use orchestration_system.Database.{ExpertConsultation}
use orchestration_system.Product.Schemas.{CoreAnalysis, ClassificationResult}
use orchestration_system.Consultation.Package.{
  ConsultationOption, ConsultationQuestion, ConsultationContext, new_context,
}
use orchestration_system.Consultation.Service.{create}
use orchestration_system.Expansion.Service.{JudgedProposal, ExpansionResolution, of_decision}
use orchestration_system.Orchestrator.Machine.{World}
use orchestration_system.Product.Workflow.Action.{Action, state}
use orchestration_system.Product.Workflow.Store.{
  ProductDefinitionWorkflow, text_or_empty, current_classification, collect_input,
}

option : String → String → ConsultationOption
option label action = record { label = label; action = action }

-- `planned.server_id or cap`
target_of : JudgedProposal → String
target_of j = elim j.planned.server_id [
  | none ↦ j.planned.capability
  | some id ↦ if str_eq id "" then j.planned.capability else id
]

-- One question of `build_expert_questions`
unfoldable pub expert_question : JudgedProposal → ConsultationQuestion
unfolding option target_of
expert_question j = record {
  key = "EXP-" ++ j.planned.capability;
  question = "'" ++ j.planned.capability ++ "' 기능을 위해 '" ++ target_of j ++ "' 연결이 필요합니다. 어떻게 할까요?";
  options =
      option "A. 연결을 허용한다 (개발자가 안전한 연결을 확인함)" "자문 화면에서 A 선택 → 게이트를 해제하고 확장을 진행합니다."
      ∷ option "B. 이 기능을 제외하고 진행한다" "자문 화면에서 B 선택 → 해당 기능을 빼고 요구사항을 다시 정리"
      ∷ option "C. 중단한다" "자문 화면에서 C 선택 → 프로젝트를 중단합니다."
      ∷ [];
}

-- `ExpansionService.build_expert_questions`
unfoldable pub build_expert_questions : ExpansionResolution → List ConsultationQuestion
unfolding expert_question of_decision
build_expert_questions resolution =
    map expert_question (of_decision PolicyDecision.expert_required resolution.judged)

gate_question : ConsultationQuestion
unfolding option
gate_question = record {
  key = "GATE-EXPERT";
  question = "이 프로젝트를 개발자 확인 후 그대로 진행할까요?";
  options =
      option "A. 확인했고 그대로 진행한다" "자문 화면에서 A(UNBLOCK) 선택 → 게이트 해제 후 요구사항 정리를 진행"
      ∷ option "B. 범위를 조정해 진행한다" "자문 화면에서 B(ADJUST_SCOPE) 선택 → 범위를 조정해 요구사항 재작성"
      ∷ option "C. 중단한다" "자문 화면에서 C(STOP) 선택 → 프로젝트를 중단합니다."
      ∷ [];
}

module _ (flow : ProductDefinitionWorkflow) where
  -- The context of `_create_gate_consultation`
  unfoldable pub gate_context : CoreAnalysis → ClassificationResult → World → ConsultationContext
  unfolding gate_question
  gate_context analysis classification w =
      record (new_context flow.name "이 기획에는 개발자 확인이 필요한 부분이 있어 진행을 멈췄습니다."
        classification.user_message) {
          key_questions = gate_question ∷ [];
          project_overview = analysis.project_goal;
          requirements_summary = text_or_empty w.subject.idea_text;
          failure_point = "현재 상태: WAITING_EXPERT_CONFIRMATION (적합도 게이트)";
          environment = "Orchestrator Product Definition 단계";
        }

  -- The context of `_create_expansion_consultation`
  unfoldable pub expansion_context : ExpansionResolution → World → ConsultationContext
  unfolding build_expert_questions
  expansion_context resolution w =
      record (new_context flow.name "요청하신 기능에 새 외부 연결이 필요해 개발자 확인이 필요합니다." resolution.reason) {
        key_questions = build_expert_questions resolution;
        project_overview = text_or_empty w.subject.idea_text;
        failure_point = "현재 상태: EXPANSION_PROPOSING (확장 연결 — 전문가 확인 필요)";
        environment = "Orchestrator Capability 확장 단계";
      }

  -- The context of `create_manual_consultation`
  unfoldable pub manual_context : World → ConsultationContext
  unfolding current_classification collect_input
  manual_context w =
      let why : String = elim (current_classification w) [
        | none ↦ "사용자 직접 요청"
        | some c ↦ c.user_message
      ] in
      record (new_context flow.name "사용자가 개발자에게 물어볼 자료를 직접 요청했습니다." why) {
        key_questions =
            record {
              key = "MANUAL";
              question = "이 프로젝트에 대해 개발자에게 확인하고 싶은 점을 정리했습니다.";
              options = [];
            }
            ∷ [];
        project_overview = (flow.core_agent (collect_input flow w)).project_goal;
        requirements_summary = text_or_empty w.subject.idea_text;
        failure_point = "현재 상태: " ++ w.subject.status;
        environment = "Orchestrator (사용자 요청 자문)";
      }

  -- the call of `ConsultationService.create` for a project
  unfoldable pub consult :
      ConsultationTrigger → (World → ConsultationContext) → Option ℕ → Action ExpertConsultation
  unfolding create
  consult trigger context actor w =
      state (create flow.env flow.patterns w.subject.id none trigger (context w) actor) w

  -- `create_manual_consultation`
  unfoldable pub create_manual_consultation : ℕ → Action ExpertConsultation
  unfolding consult manual_context
  create_manual_consultation user =
      consult ConsultationTrigger.user_requested manual_context (some user)
