-- ===== src/Product/Answers.antt =====
-- What the answers change: answered questions are closed and their requirements confirmed.
use mathlib.Core.List.{Memᴰ}
use orchestration_system.Common.{
  String, Bool, true, false, not, ◌&&◌, ◌||◌, ◌≡◌, refl, sym, ◌∙◌, ap, List, [], ◌∷◌, ◌++◌, map,
  str_eq, str_eq→eq, eq→str_eq, contains, filter, is_some, any, Bool-cases, Option-cases, inl, inr,
  arith, or-true_right,
}
use orchestration_system.Enums.{RequirementStatus}
use orchestration_system.Product.Schemas.{RequirementDraft, QuestionDraft, CoreAnalysis}
use orchestration_system.Product.Refinement.{
  Answers, lookup_answer, relates, answer_for, refine_requirement, standard_supplements, keys,
  missing_supplements, refine,
}

abbrev pub is_confirmed : RequirementStatus → Bool
is_confirmed RequirementStatus.confirmed = true
is_confirmed _ = false

-- a question about a requirement that has an answer
abbrev pub answers_requirement : String → Answers → QuestionDraft → Bool
answers_requirement key answers q = relates key q && is_some (lookup_answer q.key answers)

answer_for-is_some :
    (key : String) (questions : List QuestionDraft) (answers : Answers)
    → is_some (answer_for key questions answers) ≡ any (answers_requirement key answers) questions
unfolding answer_for
answer_for-is_some key [] answers = refl
answer_for-is_some key (q ∷ questions) answers =
    elim (Option-cases (answer_for key questions answers)) [
      | inl none_later ↦ elim (Bool-cases (relates key q)) [
        | inl related ↦
            rw (none_later, answer_for, related)
              (ground (arith, answer_for-is_some key questions answers, ap is_some none_later))
        | inr other ↦
            rw (none_later, answer_for, other)
              (ground (arith, answer_for-is_some key questions answers, ap is_some none_later))
      ]
      | inr (a, later) ↦
          rw (later, answer_for)
            (ground (arith, answer_for-is_some key questions answers, ap is_some later))
    ]

-- What the answers make of a requirement
pub record Refined (questions : List QuestionDraft) (answers : Answers) (req r : RequirementDraft)
    : Type 0 where
  pub same_key : r.key ≡ req.key
  pub confirmed :
      is_confirmed r.status
      ≡ (any (answers_requirement req.key answers) questions || is_confirmed req.status)

refine_requirement-Refined :
    (questions : List QuestionDraft) (answers : Answers) (req : RequirementDraft)
    → Refined questions answers req (refine_requirement questions answers req)
unfolding refine_requirement
refine_requirement-Refined questions answers req =
    elim (Option-cases (answer_for req.key questions answers)) [
      | inl nothing ↦
          let open_still =
            sym (ap is_some nothing) ∙ answer_for-is_some req.key questions answers in
          rw (nothing, refine_requirement)
            (record { same_key = refl; confirmed = ground (arith, open_still) })
      | inr (a, found) ↦
          let answered = sym (ap is_some found) ∙ answer_for-is_some req.key questions answers in
          rw (found, refine_requirement)
            (record { same_key = refl; confirmed = ground (arith, answered) })
    ]

Memᴰ-map-append :
    {A B : Type 0} (f : A → B) (x : A) (xs : List A) (ys : List B)
    → Memᴰ x xs
    → Memᴰ (f x) (map f xs ++ ys)
Memᴰ-map-append f x [] ys mem = elim mem [ ]
Memᴰ-map-append f x (z ∷ xs) ys (Memᴰ.head same) = Memᴰ.head (ap f same)
Memᴰ-map-append f x (z ∷ xs) ys (Memᴰ.tail mem) = Memᴰ.tail (Memᴰ-map-append f x xs ys mem)

contains-filter_keys :
    (answers : Answers) (questions : List QuestionDraft) (key : String)
    → contains
        (map (λ q. q.key) (filter (λ q. not (is_some (lookup_answer q.key answers))) questions))
        key
      ≡ (contains (map (λ q. q.key) questions) key && not (is_some (lookup_answer key answers)))
contains-filter_keys answers [] key = refl
contains-filter_keys answers (q ∷ questions) key =
    elim (Bool-cases (is_some (lookup_answer q.key answers))) [
      | inl answered ↦
          rw answered (ground (arith, contains-filter_keys answers questions key, alike, answered))
      | inr open_still ↦
          rw open_still
            (ground (arith, contains-filter_keys answers questions key, alike, open_still))
    ]
  where
    alike :
        str_eq key q.key ≡ true
        → is_some (lookup_answer key answers) ≡ is_some (lookup_answer q.key answers)
    alike same = rw (str_eq→eq key q.key same) refl

module _ (analysis : CoreAnalysis) (answers : Answers) where
  -- Every functional requirement of the analysis has its key among the refined ones, confirmed
  -- exactly if it was or if a question about it has an answer.
  pub refine-Refined :
      (req : RequirementDraft)
      → Memᴰ req analysis.functional_requirements
      → (r : RequirementDraft) × Memᴰ r (refine analysis answers).requirements
        × Refined analysis.open_questions answers req r
  unfolding refine
  refine-Refined req mem = (
    refine_requirement analysis.open_questions answers req,
    Memᴰ-map-append (refine_requirement analysis.open_questions answers) req
        analysis.functional_requirements _ mem,
    refine_requirement-Refined analysis.open_questions answers req,
  )

  -- A question is open after the refinement exactly if its key was open and has no answer.
  refine-open_questions :
      (key : String)
      → contains (map (λ q. q.key) (refine analysis answers).open_questions) key ≡ (
          contains (map (λ q. q.key) analysis.open_questions) key
          && not (is_some (lookup_answer key answers)))
  unfolding refine
  refine-open_questions key = contains-filter_keys answers analysis.open_questions key

contains-keys_append :
    (rs ss : List RequirementDraft) (key : String)
    → contains (keys (rs ++ ss)) key ≡ (contains (keys rs) key || contains (keys ss) key)
contains-keys_append [] ss key = refl
contains-keys_append (r ∷ rs) ss key = ground (arith, contains-keys_append rs ss key)

contains-missing :
    (known : List String) (ss : List RequirementDraft) (s : RequirementDraft)
    → Memᴰ s ss
    → contains known s.key ≡ false
    → contains (keys (filter (λ x. not (contains known x.key)) ss)) s.key ≡ true
contains-missing known [] s mem fresh = elim mem [ ]
contains-missing known (x ∷ ss) s (Memᴰ.head same) fresh =
    rw
      (
        ap (λ (y : RequirementDraft). contains known y.key) (sym same) ∙ fresh,
        eq→str_eq s.key x.key (ap (λ (y : RequirementDraft). y.key) same),
      )
      refl
contains-missing known (x ∷ ss) s (Memᴰ.tail mem) fresh = elim (Bool-cases (contains known x.key)) [
  | inl old ↦ rw old (contains-missing known ss s mem fresh)
  | inr new ↦ rw new (or-true_right (str_eq s.key x.key) (contains-missing known ss s mem fresh))
]

-- The refined requirements have each key of the standard supplements.
refine-supplements :
    (analysis : CoreAnalysis) (answers : Answers) (s : RequirementDraft)
    → Memᴰ s standard_supplements
    → contains (keys (refine analysis answers).requirements) s.key ≡ true
unfolding refine missing_supplements
refine-supplements analysis answers s mem =
    let rs =
      map (refine_requirement analysis.open_questions answers) analysis.functional_requirements in
    contains-keys_append rs (missing_supplements rs) s.key
    ∙ elim (Bool-cases (contains (keys rs) s.key)) [
      | inl known ↦ rw known refl
      | inr fresh ↦
          or-true_right (contains (keys rs) s.key)
            (contains-missing (keys rs) standard_supplements s mem fresh)
    ]
