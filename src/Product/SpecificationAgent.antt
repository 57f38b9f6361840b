-- ===== src/Product/SpecificationAgent.antt =====
-- app/product/specification_agent.py: the specification of requirements, with its backlog and its text.
use Prim.Native.String.{◌++◌}
use mathlib.Core.List.{◌++◌ as append}
use orchestration_system.Common.{
  ℕ, suc, String, Bool, true, false, List, [], ◌∷◌, map, filter, if◌then◌else◌, is_empty, join,
  decimal, pad2, pad3, take_text,
}
use orchestration_system.Enums.{DeliverableType, RequirementStatus, RequirementCategory}
use orchestration_system.Memory.Requirements.{same_category}
use orchestration_system.Product.Schemas.{
  RequirementDraft, UserStory, Epic, SpecificationResult, SpecificationInput,
}

-- `_EPIC_TITLES`, in its order
unfoldable pub epic_titles : List (RequirementCategory × String)
epic_titles =
    (RequirementCategory.functional, "핵심 기능")
    ∷ (RequirementCategory.non_functional, "품질과 사용성")
    ∷ (RequirementCategory.business_rule, "업무 규칙")
    ∷ (RequirementCategory.exception_case, "예외 상황 처리")
    ∷ []

abbrev pub in_category : RequirementCategory → RequirementDraft → Bool
in_category category r = same_category r.category category

abbrev pub has_confirmed : RequirementDraft → Bool
has_confirmed r = elim r.status [ RequirementStatus.confirmed ↦ true | _ ↦ false ]

abbrev status_text : RequirementStatus → String
status_text RequirementStatus.confirmed = "CONFIRMED"
status_text RequirementStatus.inferred = "INFERRED"
status_text RequirementStatus.unknown = "UNKNOWN"

abbrev category_text : RequirementCategory → String
category_text RequirementCategory.functional = "functional"
category_text RequirementCategory.non_functional = "non_functional"
category_text RequirementCategory.business_rule = "business_rule"
category_text RequirementCategory.exception_case = "exception_case"

abbrev deliverable_text : DeliverableType → String
deliverable_text DeliverableType.web_app = "WEB_APP"
deliverable_text DeliverableType.desktop_app = "DESKTOP_APP"
deliverable_text DeliverableType.cli_tool = "CLI_TOOL"
deliverable_text DeliverableType.api_service = "API_SERVICE"
deliverable_text DeliverableType.automation_script = "AUTOMATION_SCRIPT"

-- the title of a requirement's task
abbrev pub task_title : RequirementDraft → String
task_title req = req.key ++ " 구현"

-- A story of one requirement, with its task
unfoldable pub story_of : ℕ → ℕ → RequirementDraft → UserStory
unfolding decimal pad2 take_text
story_of epic_no index req = record {
  key = "US-" ++ decimal epic_no ++ pad2 index;
  title = take_text 100 req.description;
  tasks =
      record {
        key = "DEV-" ++ decimal epic_no ++ pad2 index;
        title = task_title req;
        description =
            req.description ++ " (요구사항 " ++ req.key ++ ", 상태 " ++ status_text req.status ++ ")";
      }
      ∷ [];
}

-- the stories of a category, numbered
unfoldable pub stories_from : ℕ → ℕ → List RequirementDraft → List UserStory
unfolding story_of
stories_from epic_no index [] = []
stories_from epic_no index (req ∷ members) =
    story_of epic_no index req ∷ stories_from epic_no (suc index) members

-- The loop over the categories, with the number of epics so far
unfoldable pub epics_from :
    ℕ → List (RequirementCategory × String) → List RequirementDraft → List Epic
unfolding stories_from pad3
epics_from epic_no [] requirements = []
epics_from epic_no ((category, title) ∷ titles) requirements =
    let members = filter (in_category category) requirements in
    let skipped = epics_from epic_no titles requirements in
    let after = epics_from (suc epic_no) titles requirements in
    if is_empty members
    then skipped
    else record {
      key = "EP-" ++ pad3 (suc epic_no);
      title = title;
      stories = stories_from (suc epic_no) 1 members;
    }
      ∷ after

-- `_build_epics`
unfoldable pub build_epics : List RequirementDraft → List Epic
unfolding epics_from epic_titles
build_epics requirements = epics_from 0 epic_titles requirements

bullets : List String → List String
bullets items = map (λ item. "- " ++ item) items

requirement_line : RequirementDraft → String
requirement_line req =
    "- **"
    ++ req.key
    ++ "** ["
    ++ status_text req.status
    ++ "] ("
    ++ category_text req.category
    ++ ") "
    ++ req.description

-- the lines of the decisions, if there are any
decision_lines : List (String × String) → List String
unfolding bullets
decision_lines [] = []
decision_lines (d ∷ decisions) =
    "" ∷ "## 반영된 의사결정" ∷ bullets (map (λ p. p.0 ++ ": " ++ p.1) (d ∷ decisions))

-- `_render_prd`
unfoldable pub render_prd : SpecificationInput → List String → List String → List String → String
unfolding bullets requirement_line decision_lines
render_prd input acceptance_criteria out_of_scope risks =
    let head =
      ("# PRD — " ++ input.project_name)
      ∷ ""
      ∷ "## 목표"
      ∷ input.project_goal
      ∷ ""
      ∷ ("## 산출물 유형\n" ++ deliverable_text input.deliverable_type)
      ∷ ""
      ∷ "## 요구사항"
      ∷ [] in
    join "\n" (
      append head (
        append (map requirement_line input.requirements) (
          append ("" ∷ "## 완료 조건 (Acceptance Criteria)" ∷ bullets acceptance_criteria) (
            append (decision_lines input.decisions) (
              append ("" ∷ "## 제외 범위" ∷ bullets out_of_scope)
                ("" ∷ "## 위험과 가정" ∷ bullets risks))))))
    ++ "\n"

-- `MockSpecificationAgent.generate`
unfoldable pub generate : SpecificationInput → SpecificationResult
unfolding build_epics render_prd
generate input =
    let confirmed = filter has_confirmed input.requirements in
    let acceptance_criteria = map (λ r. r.description) confirmed in
    let out_of_scope = "결제 기능" ∷ "법적 민감 개인정보 저장" ∷ "운영 데이터베이스 직접 연동" ∷ [] in
    let risks = "초기 버전은 소규모 사용을 전제로 한다" ∷ [] in
    record {
      prd_markdown = render_prd input acceptance_criteria out_of_scope risks;
      deliverable_type = input.deliverable_type;
      acceptance_criteria = acceptance_criteria;
      epics = build_epics input.requirements;
      out_of_scope = out_of_scope;
      risks = risks;
      test_scenarios = map (λ r. r.key ++ ": " ++ r.description ++ " — 동작을 확인한다") confirmed;
    }
