-- ===== src/Consultation/Package.antt =====
-- app/consultation/package.py: the two layers of a package. `m`, which masks a text and adds to the
-- findings, is an action on the findings.
use Prim.Native.String.{◌++◌}
use mathlib.Core.List.{◌++◌ as append}
use orchestration_system.Common.{
  ℕ, ◌+◌, String, List, [], ◌∷◌, map, if◌then◌else◌, str_eq, is_empty, join, decimal,
}
use orchestration_system.Database.{SerializedQuestion}
use orchestration_system.Consultation.Masking.{Patterns, Findings, mask_and_merge}

pub record ConsultationOption : Type 0 where
  pub label : String
  pub action : String

pub record ConsultationQuestion : Type 0 where
  pub key : String
  pub question : String
  pub options : List ConsultationOption

pub record ConsultationContext : Type 0 where
  pub project_name : String
  pub situation_summary : String
  pub why_expert_needed : String
  pub key_questions : List ConsultationQuestion
  pub project_overview : String
  pub requirements_summary : String
  pub failure_point : String
  pub attempts : List String
  pub config_summary : String
  pub diff_summary : String
  pub environment : String

-- The defaults of the dataclass
abbrev pub new_context : String → String → String → ConsultationContext
new_context project_name situation_summary why_expert_needed = record {
  project_name = project_name;
  situation_summary = situation_summary;
  why_expert_needed = why_expert_needed;
  key_questions = [];
  project_overview = "";
  requirements_summary = "";
  failure_point = "";
  attempts = [];
  config_summary = "";
  diff_summary = "";
  environment = "";
}

pub record ConsultationPackage : Type 0 where
  pub title : String
  pub markdown : String
  pub non_developer_summary : String
  pub questions : List SerializedQuestion
  pub masking_summary : Findings

abbrev pub Masked : Type 0 → Type 0
Masked A = Findings → A × Findings

abbrev pub pure : {A : Type 0} → A → Masked A
pure a f = (a, f)

infixl 5 ◌>>=◌
abbrev pub ◌>>=◌ : {A B : Type 0} → Masked A → (A → Masked B) → Masked B
◌>>=◌ m k f = let (a, g) = m f in k a g

-- `m(a) or b`
abbrev pub or_text : String → String → String
or_text a b = if str_eq a "" then b else a

lines : List String → String
lines ss = join "\n" ss

option_line : String × String → String
option_line (label, action) = "   - " ++ label ++ " → " ++ action

question_lines : ℕ → List SerializedQuestion → List String
unfolding option_line
question_lines idx [] = []
question_lines idx (q ∷ qs) =
    (decimal idx ++ ". (" ++ q.key ++ ") " ++ q.question)
    ∷ append (map option_line q.options) (question_lines (idx + 1) qs)

-- What stands in the text, after masking
pub record MaskedTexts : Type 0 where
  pub project_name : String
  pub questions : List SerializedQuestion
  pub situation_summary : String
  pub why_expert_needed : String
  pub attempts : List String
  pub project_overview : String
  pub requirements_summary : String
  pub failure_point : String
  pub config_summary : String
  pub diff_summary : String
  pub environment : String

non_developer_lines : MaskedTexts → List String
unfolding question_lines
non_developer_lines t =
    append
      ("## 비개발자용 요약 (읽고 이해하는 부분)"
        ∷ ""
        ∷ ("- 지금 상황: " ++ t.situation_summary)
        ∷ ("- 왜 개발자 확인이 필요한지: " ++ t.why_expert_needed)
        ∷ "- 개발자에게 그대로 전달하면 되는 핵심 질문:"
        ∷ [])
      (map (λ line. "  " ++ line) (question_lines 1 t.questions))

developer_lines : MaskedTexts → List String
unfolding question_lines lines
developer_lines t =
    append
      ("## 개발자용 기술 상세 (그대로 전달하는 부분)"
        ∷ ""
        ∷ "### 프로젝트 개요와 관련 요구사항"
        ∷ or_text t.project_overview "(요약 없음)"
        ∷ ""
        ∷ t.requirements_summary
        ∷ ""
        ∷ "### 문제 발생 지점"
        ∷ or_text t.failure_point "(해당 없음)"
        ∷ ""
        ∷ "### 시스템이 시도한 것과 결과"
        ∷ (if is_empty t.attempts then "  - (없음)" else lines (map (λ a. "  - " ++ a) t.attempts))
        ∷ ""
        ∷ "### 관련 설정 / Diff / 실행 환경 (Secret은 마스킹됨)"
        ∷ ("- 설정: " ++ or_text t.config_summary "(없음)")
        ∷ ("- Diff 요약: " ++ or_text t.diff_summary "(없음)")
        ∷ ("- 실행 환경: " ++ or_text t.environment "(없음)")
        ∷ ""
        ∷ "### 구체적 질문 목록 (선택지로 답변)"
        ∷ [])
      (question_lines 1 t.questions)

-- The package of masked texts
unfoldable pub render : MaskedTexts → Findings → ConsultationPackage
unfolding non_developer_lines developer_lines lines
render t findings =
    let title = t.project_name ++ " 개발자 자문 요청" in
    let summary = lines (non_developer_lines t) in
    record {
      title = title;
      markdown = "# " ++ title ++ "\n\n" ++ summary ++ "\n\n" ++ lines (developer_lines t) ++ "\n";
      non_developer_summary = summary;
      questions = t.questions;
      masking_summary = findings;
    }

module _ (patterns : Patterns) where
  -- the closure `m`
  unfoldable pub m : String → Masked String
  m text = mask_and_merge patterns text

  unfoldable pub mask_options : List ConsultationOption → Masked (List (String × String))
  unfolding m
  mask_options [] = pure []
  mask_options (o ∷ options) = do
    label ← m o.label
    action ← m o.action
    rest ← mask_options options
    pure ((label, action) ∷ rest)

  unfoldable pub mask_questions : List ConsultationQuestion → Masked (List SerializedQuestion)
  unfolding m mask_options
  mask_questions [] = pure []
  mask_questions (q ∷ questions) = do
    text ← m q.question
    options ← mask_options q.options
    rest ← mask_questions questions
    pure (record { key = q.key; question = text; options = options } ∷ rest)

  unfoldable pub mask_all : List String → Masked (List String)
  unfolding m
  mask_all [] = pure []
  mask_all (text ∷ texts) = do masked ← m text; rest ← mask_all texts; pure (masked ∷ rest)

  unfoldable pub mask_context : ConsultationContext → Masked MaskedTexts
  unfolding m mask_questions mask_all
  mask_context ctx = do
    project_name ← m ctx.project_name
    questions ← mask_questions ctx.key_questions
    situation_summary ← m ctx.situation_summary
    why_expert_needed ← m ctx.why_expert_needed
    attempts ← mask_all ctx.attempts
    project_overview ← m ctx.project_overview
    requirements_summary ← m ctx.requirements_summary
    failure_point ← m ctx.failure_point
    config_summary ← m ctx.config_summary
    diff_summary ← m ctx.diff_summary
    environment ← m ctx.environment
    pure (record {
      project_name = project_name;
      questions = questions;
      situation_summary = situation_summary;
      why_expert_needed = why_expert_needed;
      attempts = attempts;
      project_overview = project_overview;
      requirements_summary = requirements_summary;
      failure_point = failure_point;
      config_summary = config_summary;
      diff_summary = diff_summary;
      environment = environment;
    })

  -- `build_package`
  unfoldable pub build_package : ConsultationContext → ConsultationPackage
  unfolding mask_context render
  build_package ctx = let (texts, findings) = mask_context ctx [] in render texts findings
