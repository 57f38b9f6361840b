-- ===== src/Tests/Product.antt =====
-- Requirements and questions: the theorems at a concrete input.
use mathlib.Core.List.{Memᴰ}
use orchestration_system.Common.{ℕ, String, ◌≤◌, ◌≡◌, refl, false, none, some, [], ◌∷◌, map, str_eq}
use orchestration_system.Enums.{
  RequirementStatus, RequirementCategory, DeliverableType, ClassificationGate,
}
use orchestration_system.Product.Schemas.{RequirementDraft, QuestionDraft, CoreAnalysis}
use orchestration_system.Product.Questions.{build_question_cards}
use orchestration_system.Product.Refinement.{Answers, keys, refine}
use orchestration_system.Product.Classifier.{BlockPolicy, classify}
use orchestration_system.Product.Gates.{
  gate_severity, stops, calls_for, highest, classify-highest, classify-grows,
}
use orchestration_system.Product.Answers.{Refined, refine-Refined}

abbrev unknown_input : RequirementDraft
unknown_input = record {
  key = "FR-001";
  description = "reads the input";
  status = RequirementStatus.unknown;
  category = RequirementCategory.functional;
  priority = some "HIGH";
}

abbrev question : String → QuestionDraft
question key = record {
  key = key;
  question = "which file";
  reason = none;
  related_requirement_key = some "FR-001";
}

abbrev analysis : CoreAnalysis
analysis = record {
  project_goal = "a report";
  target_users = "sales" ∷ [];
  deliverable_type = DeliverableType.web_app;
  functional_requirements = unknown_input ∷ [];
  open_questions = question "Q-001" ∷ question "Q-002" ∷ question "Q-002" ∷ [];
  required_capabilities = [];
  expansion_required = false;
}

abbrev answers : Answers
answers = ("Q-001", "orders.csv") ∷ []

-- a run of `refine`
refining : ℕ
unfolding refine build_question_cards str_eq
refining = 0

refined_keys :
    keys (refine analysis answers).requirements
    ≡ "FR-001" ∷ "NFR-001" ∷ "NFR-002" ∷ "BR-001" ∷ "EX-001" ∷ []
unfolding refining
refined_keys = refl

cards_left : map (λ q. q.key) (build_question_cards (refine analysis answers)) ≡ "Q-002" ∷ []
unfolding refining
cards_left = refl

refine-Refined_example :
    (r : RequirementDraft) × Memᴰ r (refine analysis answers).requirements
    × Refined analysis.open_questions answers unknown_input r
refine-Refined_example = refine-Refined analysis answers unknown_input (Memᴰ.head refl)

-- configs/auto-block-policy.yaml, a part of it; the casing is left as it is
abbrev block_policy : BlockPolicy
block_policy = record {
  prohibited =
      record { label = "결제 기능"; keywords = "payment" ∷ "billing" ∷ []; alternative = "결제 제외" } ∷ [];
  unsupported = "블록체인" ∷ [];
  expert_review = "sso" ∷ [];
  risky = "크롤링" ∷ "스크래핑" ∷ [];
}

-- a run of `classify`
classifying : ℕ
unfolding classify
classifying = 0

expert_before_risky :
    (classify (λ s. s) block_policy "크롤링 with sso").gate ≡ ClassificationGate.needs_expert
unfolding classifying
expert_before_risky = refl

risky_listed : (classify (λ s. s) block_policy "a page, 크롤링").risky_features ≡ "크롤링" ∷ []
unfolding classifying
risky_listed = refl

payment_blocked :
    (classify (λ s. s) block_policy "sso and payment").prohibited_features ≡ "결제 기능" ∷ []
unfolding classifying
payment_blocked = refl

classify-highest_example :
    gate_severity (classify (λ s. s) block_policy "크롤링 with sso").gate
    ≡ highest (calls_for (λ s. s) block_policy "크롤링 with sso") stops
classify-highest_example = classify-highest (λ s. s) block_policy "크롤링 with sso"

classify-grows_example :
    gate_severity (classify (λ s. s) block_policy "크롤링 page").gate
    ≤ gate_severity (classify (λ s. s) block_policy "크롤링 page with payment").gate
classify-grows_example =
    classify-grows (λ s. s) block_policy "크롤링 page" "크롤링 page with payment" refl
