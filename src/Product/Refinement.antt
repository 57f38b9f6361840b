-- ===== src/Product/Refinement.antt =====
-- app/product/requirement_agent.py: the requirements after the user's answers. An answer is found by
-- the key of its question.
use Prim.Native.String.{◌++◌}
use mathlib.Core.List.{◌++◌ as append}
use orchestration_system.Common.{
  String, Bool, false, not, ◌&&◌, Option, none, some, List, [], ◌∷◌, map, if◌then◌else◌, str_eq,
  contains, filter, is_some,
}
use orchestration_system.Enums.{RequirementStatus, RequirementCategory}
use orchestration_system.Product.Schemas.{
  RequirementDraft, QuestionDraft, CoreAnalysis, RequirementSet,
}

abbrev pub Answers : Type 0
Answers = List (String × String)

unfoldable pub lookup_answer : String → Answers → Option String
lookup_answer key [] = none
lookup_answer key ((k, a) ∷ rest) =
    let later = lookup_answer key rest in if str_eq k key then some a else later

-- `q.related_requirement_key` is the key, and is not empty
abbrev pub relates : String → QuestionDraft → Bool
relates key q = elim q.related_requirement_key [
  | none ↦ false
  | some k ↦ str_eq k key && not (str_eq k "")
]

-- The answer for a requirement, a lookup in the dict `answered_req_keys`: a later question for the
-- same requirement overwrites an earlier one.
unfoldable pub answer_for : String → List QuestionDraft → Answers → Option String
unfolding lookup_answer
answer_for key [] answers = none
answer_for key (q ∷ questions) answers = elim (answer_for key questions answers) [
  | some a ↦ some a
  | none ↦ if relates key q then lookup_answer q.key answers else none
]

-- One turn of the loop over the functional requirements.
unfoldable pub refine_requirement :
    List QuestionDraft → Answers → RequirementDraft → RequirementDraft
unfolding answer_for
refine_requirement questions answers req = elim (answer_for req.key questions answers) [
  | none ↦ req
  | some a ↦ record req {
    status = RequirementStatus.confirmed;
    description = req.description ++ " — 사용자 답변: " ++ a;
  }
]

abbrev supplement : String → String → RequirementCategory → RequirementDraft
supplement key description category = record {
  key = key;
  description = description;
  status = RequirementStatus.inferred;
  category = category;
  priority = some "MEDIUM";
}

-- `_STANDARD_SUPPLEMENTS`, as the drafts that `refine` makes of them
unfoldable pub standard_supplements : List RequirementDraft
standard_supplements =
    supplement "NFR-001" "비개발자가 별도 설치 지식 없이 실행하거나 접속할 수 있어야 한다" RequirementCategory.non_functional
    ∷ supplement "NFR-002" "오류가 발생하면 기술 용어 대신 사용자 언어로 안내한다" RequirementCategory.non_functional
    ∷ supplement "BR-001" "기존 결과물을 덮어쓰지 않고 새 이름으로 저장한다" RequirementCategory.business_rule
    ∷ supplement "EX-001" "입력 자료가 형식에 맞지 않으면 어떤 부분이 문제인지 알려준다" RequirementCategory.exception_case
    ∷ []

abbrev pub keys : List RequirementDraft → List String
keys drafts = map (λ r. r.key) drafts

-- the supplements whose keys no requirement has
unfoldable pub missing_supplements : List RequirementDraft → List RequirementDraft
unfolding standard_supplements
missing_supplements requirements =
    filter (λ s. not (contains (keys requirements) s.key)) standard_supplements

-- `MockRequirementAgent.refine`
unfoldable pub refine : CoreAnalysis → Answers → RequirementSet
unfolding refine_requirement missing_supplements lookup_answer
refine analysis answers =
    let requirements =
      map (refine_requirement analysis.open_questions answers) analysis.functional_requirements in
    record {
      requirements = append requirements (missing_supplements requirements);
      open_questions =
          filter (λ q. not (is_some (lookup_answer q.key answers))) analysis.open_questions;
    }
