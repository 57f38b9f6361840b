-- ===== src/Memory/Conflicts.antt =====
-- app/project_memory/conflict_detector.py and service.py: which drafts may contradict a decision.
-- `lower`, the casing of Unicode, is a parameter.
use Prim.Native.Char.{Char, code}
use Prim.Native.String.{◌++◌, count as len_chars}
use mathlib.Core.List.{◌++◌ as append}
use text.Mathlib.Text.{find?}
use orchestration_system.Common.{
  ℕ, String, Bool, not, ◌&&◌, ◌||◌, List, [], ◌∷◌, map, length, leb, filter, contains, is_some,
  split_at,
}
use orchestration_system.Database.{Db, ProjectDecision}
use orchestration_system.Product.Schemas.{RequirementDraft}
use orchestration_system.Capabilities.Matcher.{fresh_names}
use orchestration_system.Memory.Decisions.{active_decisions}

-- `_STOPWORDS`
unfoldable pub stopwords : List String
stopwords =
    "있다" ∷ "한다" ∷ "않는다" ∷ "된다" ∷ "수" ∷ "것" ∷ "및" ∷ "또는" ∷ "등" ∷ "위해" ∷ "대한" ∷ "사용자" ∷ "사용" ∷ "기능"
    ∷ "요구사항" ∷ "시스템" ∷ []

-- `_MIN_SHARED_TOKENS`
abbrev pub min_shared_tokens : ℕ
min_shared_tokens = 2

-- The class `[가-힣a-zA-Z0-9]`
unfoldable pub is_token_char : Char → Bool
is_token_char ch =
    let c = code ch in
    (leb 0xac00 c && leb c 0xd7a3)
    || (leb b'a' c && leb c b'z')
    || (leb b'A' c && leb c b'Z')
    || (leb b'0' c && leb c b'9')

-- `_significant_tokens`: the runs of at least two characters of the class, each once, without the
-- stop words. `findall` takes the longest run, so a run is what lies between two other characters.
unfoldable pub significant_tokens : (String → String) → String → List String
unfolding is_token_char stopwords split_at fresh_names
significant_tokens lower text =
    filter (λ t. not (contains stopwords t))
      (fresh_names []
        (filter (λ t. leb 2 (len_chars t)) (split_at (λ c. not (is_token_char c)) (lower text))))

pub record DecisionConflict : Type 0 where
  pub requirement_key : String
  pub decision_key : String
  pub decision_title : String
  pub message : String

-- `decision.decision in draft.description or draft.description in decision.decision`
unfoldable pub agrees : ProjectDecision → RequirementDraft → Bool
agrees d draft =
    is_some (find? draft.description d.decision) || is_some (find? d.decision draft.description)

-- `decision_tokens & _significant_tokens(draft.description)`
unfoldable pub shared_tokens : (String → String) → ProjectDecision → RequirementDraft → List String
unfolding significant_tokens
shared_tokens lower d draft =
    filter (contains (significant_tokens lower (d.title ++ " " ++ d.decision)))
      (significant_tokens lower draft.description)

-- The test of the loop
unfoldable pub clashes : (String → String) → ProjectDecision → RequirementDraft → Bool
unfolding shared_tokens agrees
clashes lower d draft =
    leb min_shared_tokens (length (shared_tokens lower d draft)) && not (agrees d draft)

unfoldable pub conflict_of : ProjectDecision → RequirementDraft → DecisionConflict
conflict_of d draft = record {
  requirement_key = draft.key;
  decision_key = d.decision_key;
  decision_title = d.title;
  message =
      "이번 요청(" ++ draft.key ++ ")이 기존 결정 [" ++ d.decision_key ++ "] '" ++ d.title
      ++ "'와 겹칩니다. 기존 결정: " ++ d.decision ++ " 기존 정책을 유지할까요, 변경할까요?";
}

-- `find_conflicts`
unfoldable pub find_conflicts :
    (String → String) → List RequirementDraft → List ProjectDecision → List DecisionConflict
unfolding clashes conflict_of
find_conflicts lower drafts [] = []
find_conflicts lower drafts (d ∷ decisions) =
    append (map (conflict_of d) (filter (clashes lower d) drafts))
      (find_conflicts lower drafts decisions)

-- `ProjectMemoryService.detect_conflicts`
unfoldable pub detect_conflicts :
    (String → String) → ℕ → List RequirementDraft → Db → List DecisionConflict
unfolding active_decisions find_conflicts
detect_conflicts lower project drafts db = find_conflicts lower drafts (active_decisions project db)
