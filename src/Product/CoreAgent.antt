-- ===== src/Product/CoreAgent.antt =====
-- app/product/core_agent.py: the analysis of a text by its sentences and keywords. The casing of
-- Unicode, `str.lower`, is a parameter.
use Prim.Native.Char.{Char, code}
use Prim.Native.String.{◌++◌, count as len_chars}
use mathlib.Core.List.{◌++◌ as append}
use text.Mathlib.Text.{find?}
use orchestration_system.Common.{
  ℕ, suc, String, Bool, false, not, ◌&&◌, ◌||◌, none, some, List, [], ◌∷◌, map, filter, any, length,
  leb, ◌==◌, if◌then◌else◌, contains, is_some, pad3, take_text, strip, rstrip, split_at,
}
use orchestration_system.Capabilities.Matcher.{sorted}
use orchestration_system.Enums.{DeliverableType, RequirementStatus, RequirementCategory}
use orchestration_system.Product.Schemas.{
  RequirementDraft, QuestionDraft, CoreAnalysis, ProjectInput, combined_text,
}

-- `_ACTION_KEYWORDS`
unfoldable pub action_keywords : List String
action_keywords =
    "입력" ∷ "업로드" ∷ "생성" ∷ "만들" ∷ "저장" ∷ "다운로드" ∷ "분석" ∷ "보고서" ∷ "알림" ∷ "검색" ∷ "조회" ∷ "정리" ∷ "변환"
    ∷ "수집" ∷ []

-- `_CAPABILITY_MAP`
unfoldable pub capability_map : List (String × List String)
capability_map =
    ("excel-read", "엑셀" ∷ "xlsx" ∷ "xls" ∷ "스프레드시트" ∷ [])
    ∷ ("document-generate", "보고서" ∷ "word" ∷ "문서 생성" ∷ "pdf" ∷ [])
    ∷ ("web-ui", "웹" ∷ "사이트" ∷ "화면" ∷ "웹서비스" ∷ [])
    ∷ ("email-send", "이메일" ∷ "메일 발송" ∷ [])
    ∷ ("data-analyze", "분석" ∷ "통계" ∷ "집계" ∷ [])
    ∷ ("file-storage", "저장" ∷ "보관" ∷ "업로드" ∷ [])
    ∷ []

-- A topic with its question and the reason for it
pub record StandardUnknown : Type 0 where
  pub topic : String
  pub question : String
  pub reason : String

abbrev pub users_unknown : StandardUnknown
users_unknown = record {
  topic = "동시에 사용하는 인원 규모";
  question = "이 결과물을 혼자 사용하나요, 아니면 여러 사람이 함께 사용하나요?";
  reason = "여러 사람이 함께 사용하면 저장 방식과 화면 구성이 달라집니다.";
}

abbrev pub retention_unknown : StandardUnknown
retention_unknown = record {
  topic = "결과물 보관 기간";
  question = "만들어진 결과물을 언제까지 보관해야 하나요? (예: 1개월, 1년, 계속)";
  reason = "보관 기간에 따라 저장 공간과 정리 방식이 달라집니다.";
}

-- `_STANDARD_UNKNOWNS`
unfoldable pub standard_unknowns : List StandardUnknown
standard_unknowns = users_unknown ∷ retention_unknown ∷ []

-- `any(kw in text for kw in keywords)`
abbrev pub mentions : String → List String → Bool
mentions text keywords = any (λ kw. is_some (find? text kw)) keywords

-- The class `[.!?\n]`; its dot takes what the lookbehind before the other dot leaves, so the pattern
-- splits at each of the four characters.
abbrev ends_sentence : Char → Bool
ends_sentence c = code c == 46 || code c == 33 || code c == 63 || code c == 10

-- `_split_sentences`
unfoldable pub split_sentences : String → List String
unfolding split_at strip rstrip
split_sentences text =
    map (λ p. rstrip (λ c. code c == 46) (strip p))
      (filter (λ p. leb 5 (len_chars (strip p))) (split_at ends_sentence text))

abbrev pub confirmed_draft : ℕ → String → RequirementDraft
confirmed_draft n description = record {
  key = "FR-" ++ pad3 n;
  description = description;
  status = RequirementStatus.confirmed;
  category = RequirementCategory.functional;
  priority = some "HIGH";
}

-- The loop over the sentences, with the requirements and the sentences taken so far
unfoldable pub collect_requirements :
    List String → List RequirementDraft → List String → List RequirementDraft
unfolding action_keywords pad3
collect_requirements [] requirements seen = requirements
collect_requirements (sentence ∷ sentences) requirements seen =
    let draft = confirmed_draft (suc (length requirements)) sentence in
    let taken =
      collect_requirements sentences (append requirements (draft ∷ [])) (sentence ∷ seen) in
    let skipped = collect_requirements sentences requirements seen in
    if leb 20 (length requirements)
    then requirements
    else if mentions sentence action_keywords && not (contains seen sentence)
    then taken
    else skipped

-- `if not requirements`
abbrev pub or_goal : String → List RequirementDraft → List RequirementDraft
or_goal goal [] = confirmed_draft 1 goal ∷ []
or_goal goal (r ∷ requirements) = r ∷ requirements

abbrev pub unknown_draft : ℕ → String → RequirementDraft
unknown_draft n topic = record {
  key = "FR-" ++ pad3 n;
  description = topic;
  status = RequirementStatus.unknown;
  category = RequirementCategory.functional;
  priority = none;
}

-- What the loop over the standard unknowns adds to the requirements, from the next number on
unfoldable pub unknown_requirements : ℕ → List StandardUnknown → List RequirementDraft
unfolding pad3
unknown_requirements next [] = []
unknown_requirements next (u ∷ unknowns) =
    unknown_draft next u.topic ∷ unknown_requirements (suc next) unknowns

abbrev pub unknown_question : ℕ → ℕ → StandardUnknown → QuestionDraft
unknown_question index n u = record {
  key = "Q-" ++ pad3 index;
  question = u.question;
  reason = some u.reason;
  related_requirement_key = some ("FR-" ++ pad3 n);
}

-- and to the questions
unfoldable pub unknown_questions : ℕ → ℕ → List StandardUnknown → List QuestionDraft
unfolding pad3
unknown_questions index next [] = []
unknown_questions index next (u ∷ unknowns) =
    unknown_question index next u ∷ unknown_questions (suc index) (suc next) unknowns

module _ (lower : String → String) where
  -- the capabilities with a keyword in the text, in order
  unfoldable pub find_capabilities : String → List String
  unfolding sorted capability_map
  find_capabilities text =
      sorted (map (λ c. c.0) (filter (λ c. mentions (lower text) c.1) capability_map))

  -- `_deliverable_type`
  unfoldable pub deliverable_type_of : String → DeliverableType
  deliverable_type_of text =
      let lowered = lower text in
      if mentions lowered ("웹" ∷ "사이트" ∷ "웹서비스" ∷ "브라우저" ∷ [])
      then DeliverableType.web_app
      else if mentions lowered ("스크립트" ∷ "자동화 작업" ∷ "배치" ∷ [])
      then DeliverableType.automation_script
      else if mentions lowered ("프로그램" ∷ "엑셀" ∷ "데스크톱" ∷ "설치" ∷ [])
      then DeliverableType.desktop_app
      else DeliverableType.web_app

  -- `sentences[0][:200] if sentences else project_name`
  unfoldable pub goal_of : String → List String → String
  unfolding take_text
  goal_of name [] = name
  goal_of name (s ∷ sentences) = take_text 200 s

  abbrev or_general : List String → List String
  or_general [] = "general-automation" ∷ []
  or_general (c ∷ capabilities) = c ∷ capabilities

  -- `MockCoreAgent.analyze`
  unfoldable pub analyze : ProjectInput → CoreAnalysis
  unfolding split_sentences collect_requirements unknown_requirements unknown_questions
      standard_unknowns find_capabilities deliverable_type_of goal_of
  analyze input =
      let text = combined_text input in
      let sentences = split_sentences text in
      let goal = goal_of input.project_name sentences in
      let requirements = or_goal goal (collect_requirements sentences [] []) in
      let next = suc (length requirements) in
      record {
        project_goal = goal;
        target_users = "비개발자 실무 사용자" ∷ [];
        deliverable_type = deliverable_type_of text;
        functional_requirements = append requirements (unknown_requirements next standard_unknowns);
        open_questions = unknown_questions 1 next standard_unknowns;
        required_capabilities = or_general (find_capabilities text);
        expansion_required = false;
      }
