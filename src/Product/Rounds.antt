-- ===== src/Product/Rounds.antt =====
-- One round of questions is enough: the analysis (app/product/core_agent.py), refined by an answer to each
-- of its questions (requirement_agent.py), leaves nothing open.
use Prim.Native.String.{◌++◌, len}
use text.Mathlib.TextPositions.{len-append}
use mathlib.Core.List.{◌++◌ as append}
use orchestration_system.Common.{
  ℕ, suc, ◌+◌, String, ◌≡◌, ◌≢◌, refl, sym, ◌∙◌, ap, Bool, true, not, ◌&&◌, some, List, [], ◌∷◌,
  map, filter, count, count-append, length, is_some, str_eq_differ, &&-eq-true, or-true_left,
  or-true_right, eq→str_eq, pad3, arith,
}
use orchestration_system.Product.Schemas.{
  RequirementDraft, QuestionDraft, CoreAnalysis, ProjectInput, combined_text,
}
use orchestration_system.Product.Questions.{build_question_cards, fresh_cards}
use orchestration_system.Product.Refinement.{
  Answers, lookup_answer, relates, refine_requirement, missing_supplements, refine,
}
use orchestration_system.Product.CoreAgent.{
  unknown_draft, unknown_question, users_unknown, retention_unknown, standard_unknowns,
  split_sentences, collect_requirements, or_goal, unknown_requirements, unknown_questions, goal_of,
  analyze,
}
use orchestration_system.Product.Known.{
  is_unknown, answer_all, refine-answered, count-known, answer_for-some, count-map-append,
  supplements-known, base-known,
}

abbrev numbered : ℕ → String
numbered n = "FR-" ++ pad3 n

-- The questions that are answered are not open.
filter-answered :
    (answers : Answers) (questions : List QuestionDraft)
    → answer_all answers questions ≡ true
    → filter (λ q. not (is_some (lookup_answer q.key answers))) questions ≡ []
filter-answered answers [] h = refl
filter-answered answers (q ∷ questions) h =
    let both = &&-eq-true {a = is_some (lookup_answer q.key answers)} h in
    rw both.0 (filter-answered answers questions both.1)

and-true : {a b : Bool} → a ≡ true → b ≡ true → (a && b) ≡ true
and-true h k = rw (h, k) refl

numbered-ne : (n : ℕ) → numbered n ≢ ""
numbered-ne n same =
    let sizes : 3 + len (pad3 n) ≡ 0 = sym (len-append "FR-" (pad3 n)) ∙ ap len same in omega arith

-- a key of a requirement, which is not empty
own_key :
    (n : ℕ) (q : QuestionDraft)
    → q.related_requirement_key ≡ some (numbered n)
    → relates (numbered n) q ≡ true
own_key n q same =
    rw (same, relates)
      (and-true (eq→str_eq (numbered n) (numbered n) refl)
        (ap not (str_eq_differ (numbered n) "" (numbered-ne n))))

-- The two standard questions relate to the two requirements that the analysis adds.
unknown-settled :
    (next : ℕ) (answers : Answers)
    → answer_all answers (unknown_questions 1 next standard_unknowns) ≡ true
    → count is_unknown (
        map
          (refine_requirement (unknown_questions 1 next standard_unknowns) answers)
          (unknown_requirements next standard_unknowns))
      ≡ 0
unfolding unknown_questions unknown_requirements standard_unknowns
unknown-settled next answers h =
    let questions = unknown_questions 1 next standard_unknowns in
    let first = &&-eq-true {a = is_some (lookup_answer "Q-001" answers)} h in
    let second = &&-eq-true {a = is_some (lookup_answer "Q-002" answers)} first.1 in
    let one = refine-answered questions answers (unknown_draft next users_unknown.topic) (
      answer_for-some (numbered next) questions answers (
        or-true_left _
          (and-true (own_key next (unknown_question 1 next users_unknown) refl) first.0))) in
    let two = refine-answered questions answers (unknown_draft (suc next) retention_unknown.topic) (
      answer_for-some (numbered (suc next)) questions answers (
        or-true_right _ (
          or-true_left _ (
            and-true (own_key (suc next) (unknown_question 2 (suc next) retention_unknown) refl)
              second.0)))) in
    ground (arith, one, two)

-- A list of known requirements with the two is settled.
extended-settled :
    (rs : List RequirementDraft) (answers : Answers)
    → count is_unknown rs ≡ 0
    → answer_all answers (unknown_questions 1 (suc (length rs)) standard_unknowns) ≡ true
    → count is_unknown (
        map
          (refine_requirement (unknown_questions 1 (suc (length rs)) standard_unknowns) answers)
          (append rs (unknown_requirements (suc (length rs)) standard_unknowns)))
      ≡ 0
extended-settled rs answers known h =
    let f = refine_requirement (unknown_questions 1 (suc (length rs)) standard_unknowns) answers in
    ground (
      arith,
      count-map-append f rs (unknown_requirements (suc (length rs)) standard_unknowns),
      count-known (unknown_questions 1 (suc (length rs)) standard_unknowns) answers rs known,
      unknown-settled (suc (length rs)) answers h,
    )

-- The supplements add nothing unknown.
refined-known :
    (analysis : CoreAnalysis) (answers : Answers)
    → count is_unknown
        (map (refine_requirement analysis.open_questions answers) analysis.functional_requirements)
      ≡ 0
    → count is_unknown (refine analysis answers).requirements ≡ 0
unfolding refine
refined-known analysis answers h =
    let rs =
      map (refine_requirement analysis.open_questions answers) analysis.functional_requirements in
    ground (arith, count-append is_unknown rs (missing_supplements rs), h, supplements-known rs)

module _ (lower : String → String) (input : ProjectInput) (answers : Answers) where
  -- For every input: when the user has answered each question of the analysis, the refinement leaves no
  -- requirement unknown and no question open, so that there are no cards for a second round.
  pub refine-analyze_settles :
      answer_all answers (analyze lower input).open_questions ≡ true
      → (count is_unknown (refine (analyze lower input) answers).requirements ≡ 0)
        × (build_question_cards (refine (analyze lower input) answers) ≡ [])
  unfolding refine analyze build_question_cards fresh_cards
  refine-analyze_settles h = (
    refined-known (analyze lower input) answers (
        extended-settled
          (or_goal (goal_of lower input.project_name (split_sentences (combined_text input)))
            (collect_requirements (split_sentences (combined_text input)) [] []))
          answers
          (base-known (goal_of lower input.project_name (split_sentences (combined_text input)))
            (split_sentences (combined_text input)))
          h),
    rw (filter-answered answers _ h) refl,
  )
