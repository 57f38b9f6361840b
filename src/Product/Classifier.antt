-- ===== src/Product/Classifier.antt =====
-- app/product/classifier.py: the gate of a project's idea, over the keywords of
-- configs/auto-block-policy.yaml. `lower`, the casing of Unicode, is a parameter.
use Prim.Native.String.{◌++◌}
use text.Mathlib.Text.{find?}
use orchestration_system.Common.{
  String, Bool, not, List, [], ◌∷◌, map, if◌then◌else◌, any, filter, is_empty, is_some, join,
}
use orchestration_system.Enums.{AutomationClass, ClassificationGate}
use orchestration_system.Product.Schemas.{ClassificationResult}

-- An entry of the section `prohibited`.
pub record ProhibitedRule : Type 0 where
  pub label : String
  pub keywords : List String
  pub alternative : String

-- The sections of the policy, in the file's order. A section or a list of keywords that the file
-- leaves out is empty.
pub record BlockPolicy : Type 0 where
  pub prohibited : List ProhibitedRule
  pub unsupported : List String
  pub expert_review : List String
  pub risky : List String

-- `kw.lower() in text`
abbrev pub occurs : (String → String) → String → String → Bool
occurs lower text keyword = is_some (find? text (lower keyword))

abbrev pub contains_any : (String → String) → String → List String → Bool
contains_any lower text keywords = any (occurs lower text) keywords

abbrev pub matched : (String → String) → String → List String → List String
matched lower text keywords = filter (occurs lower text) keywords

abbrev pub blocking : (String → String) → String → List ProhibitedRule → List ProhibitedRule
blocking lower text rules = filter (λ rule. contains_any lower text rule.keywords) rules

abbrev blocked_result : List ProhibitedRule → ClassificationResult
blocked_result rules = record {
  automation_class = AutomationClass.expert_review_required;
  gate = ClassificationGate.blocked;
  reasons = map (λ rule. "자동 차단 항목 감지: " ++ rule.label) rules;
  prohibited_features = map (λ rule. rule.label) rules;
  risky_features = [];
  user_message =
      "다음 기능은 안전을 위해 이 시스템이 자동으로 만들지 않습니다: "
      ++ join ", " (map (λ rule. rule.label) rules)
      ++ "\n대안: "
      ++ join " / " (map (λ rule. rule.alternative) rules);
}

abbrev unsupported_result : List String → ClassificationResult
unsupported_result keywords = record {
  automation_class = AutomationClass.unsupported;
  gate = ClassificationGate.unsupported;
  reasons = map (λ kw. "지원 범위 밖 기능: " ++ kw) keywords;
  prohibited_features = [];
  risky_features = [];
  user_message =
      "요청하신 프로젝트에는 현재 시스템이 만들 수 없는 부분이 있습니다: "
      ++ join ", " keywords
      ++ "\n해당 부분을 제외하거나 다른 방식(웹 서비스 등)으로 바꾸면 진행할 수 있습니다.";
}

abbrev expert_result : List String → ClassificationResult
expert_result keywords = record {
  automation_class = AutomationClass.expert_review_required;
  gate = ClassificationGate.needs_expert;
  reasons = map (λ kw. "전문가 검토 필요 항목: " ++ kw) keywords;
  prohibited_features = [];
  risky_features = [];
  user_message =
      "다음 내용은 진행 전에 개발자 확인이 필요합니다: " ++ join ", " keywords ++ "\n개발자에게 전달할 자료를 준비해 드릴 수 있습니다.";
}

abbrev risky_result : List String → ClassificationResult
risky_result keywords = record {
  automation_class = AutomationClass.ai_assisted;
  gate = ClassificationGate.needs_approval;
  reasons = map (λ kw. "위험 경계 기능: " ++ kw) keywords;
  prohibited_features = [];
  risky_features = keywords;
  user_message =
      "다음 기능은 오류 위험이 있어 첫 버전에서 제외하기를 권장합니다: "
      ++ join ", " keywords
      ++ "\n제외한 범위로 진행하는 것을 승인하시겠어요? 이후 단계적으로 추가할 수 있습니다.";
}

abbrev proceed_result : ClassificationResult
proceed_result = record {
  automation_class = AutomationClass.self_service;
  gate = ClassificationGate.proceed;
  reasons = "자동 차단·위험 항목이 감지되지 않음" ∷ [];
  prohibited_features = [];
  risky_features = [];
  user_message = "이 프로젝트는 AI가 자동으로 진행할 수 있습니다.";
}

unfoldable pub classify : (String → String) → BlockPolicy → String → ClassificationResult
classify lower policy text =
    let normalized = lower text in
    let rules = blocking lower normalized policy.prohibited in
    let matched_unsupported = matched lower normalized policy.unsupported in
    let matched_expert = matched lower normalized policy.expert_review in
    let matched_risky = matched lower normalized policy.risky in
    if not (is_empty rules)
    then blocked_result rules
    else if not (is_empty matched_unsupported)
    then unsupported_result matched_unsupported
    else if not (is_empty matched_expert)
    then expert_result matched_expert
    else if not (is_empty matched_risky)
    then risky_result matched_risky
    else proceed_result
