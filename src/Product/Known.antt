-- ===== src/Product/Known.antt =====
-- Which requirements are known: of the analysis (app/product/core_agent.py), and after the refinement by
-- answers (requirement_agent.py).
use mathlib.Core.List.{◌++◌ as append}
use orchestration_system.Common.{
  suc, ◌+◌, String, ◌≡◌, refl, sym, ◌∙◌, ap, Bool, true, false, not, ◌&&◌, List, [], ◌∷◌, map,
  filter, any, all, count, count-append, length, leb, contains, is_some, &&-eq-true, arith,
  Bool-cases, Option-cases, inl, inr,
}
use orchestration_system.Enums.{RequirementStatus}
use orchestration_system.Product.Schemas.{RequirementDraft, QuestionDraft}
use orchestration_system.Product.Refinement.{
  Answers, lookup_answer, relates, answer_for, refine_requirement, standard_supplements,
  missing_supplements, keys,
}
use orchestration_system.Product.CoreAgent.{
  action_keywords, mentions, confirmed_draft, collect_requirements, or_goal,
}

abbrev pub is_unknown : RequirementDraft → Bool
is_unknown r = elim r.status [ RequirementStatus.unknown ↦ true | _ ↦ false ]

-- The answers have one for each question.
abbrev pub answer_all : Answers → List QuestionDraft → Bool
answer_all answers questions = all (λ q. is_some (lookup_answer q.key answers)) questions

-- What holds of no requirements yet, and after one more, holds of what the loop collects.
pub collect-induction :
    (P : List RequirementDraft → Type 0)
    → ((requirements : List RequirementDraft) (sentence : String)
        → leb 20 (length requirements) ≡ false
        → P requirements
        → P (append requirements (confirmed_draft (suc (length requirements)) sentence ∷ [])))
    → (sentences : List String) (requirements : List RequirementDraft) (seen : List String)
    → P requirements
    → P (collect_requirements sentences requirements seen)
unfolding collect_requirements
collect-induction P more [] requirements seen h = h
collect-induction P more (s ∷ sentences) requirements seen h =
    elim (Bool-cases (leb 20 (length requirements))) [
      | inl full ↦ rw full h
      | inr room ↦ elim (Bool-cases (mentions s action_keywords && not (contains seen s))) [
        | inl taken ↦
            rw (room, taken) (collect-induction P more sentences _ _ (more requirements s room h))
        | inr skipped ↦ rw (room, skipped) (collect-induction P more sentences requirements seen h)
      ]
    ]

module _ (questions : List QuestionDraft) (answers : Answers) where
  -- A requirement that is known stays so.
  refine-known :
      (r : RequirementDraft)
      → is_unknown r ≡ false
      → is_unknown (refine_requirement questions answers r) ≡ false
  unfolding refine_requirement
  refine-known r known = elim (Option-cases (answer_for r.key questions answers)) [
    | inl none_found ↦ rw (none_found, is_unknown) known
    | inr (a, found) ↦ rw (found, is_unknown) refl
  ]

  -- and one with an answer becomes known.
  pub refine-answered :
      (r : RequirementDraft)
      → is_some (answer_for r.key questions answers) ≡ true
      → is_unknown (refine_requirement questions answers r) ≡ false
  unfolding refine_requirement
  refine-answered r answered = elim (Option-cases (answer_for r.key questions answers)) [
    | inl none_found ↦ absurd (cc (ap is_some none_found))
    | inr (a, found) ↦ rw (found, is_unknown) refl
  ]

  pub count-known :
      (rs : List RequirementDraft)
      → count is_unknown rs ≡ 0
      → count is_unknown (map (refine_requirement questions answers) rs) ≡ 0
  count-known [] h = h
  count-known (r ∷ rs) h = elim (Bool-cases (is_unknown r)) [
    | inl unknown ↦ absurd (ground (arith, unknown, h))
    | inr known ↦ ground (arith, refine-known r known, count-known rs (ground (arith, known, h)))
  ]

-- A question that relates to a requirement, and is answered, gives it an answer.
pub answer_for-some :
    (key : String) (questions : List QuestionDraft) (answers : Answers)
    → any (λ q. relates key q && is_some (lookup_answer q.key answers)) questions ≡ true
    → is_some (answer_for key questions answers) ≡ true
unfolding answer_for
answer_for-some key [] answers h = h
answer_for-some key (q ∷ questions) answers h =
    elim (Option-cases (answer_for key questions answers)) [
      | inr (a, found) ↦ rw (found, answer_for) refl
      | inl missing ↦ elim (Bool-cases (any gives_answer questions)) [
        | inl later ↦
            absurd (cc (sym (answer_for-some key questions answers later) ∙ ap is_some missing))
        | inr none_later ↦
            let both = &&-eq-true {a = relates key q} (here none_later) in
            rw (missing, both.0, answer_for) both.1
      ]
    ]
  where
    gives_answer : QuestionDraft → Bool
    gives_answer p = relates key p && is_some (lookup_answer p.key answers)

    here :
        any gives_answer questions ≡ false
        → (relates key q && is_some (lookup_answer q.key answers)) ≡ true
    here none_later = ground (arith, h, none_later)

pub count-map-append :
    (f : RequirementDraft → RequirementDraft) (rs us : List RequirementDraft)
    → count is_unknown (map f (append rs us))
      ≡ count is_unknown (map f rs) + count is_unknown (map f us)
count-map-append f [] us = ground arith
count-map-append f (r ∷ rs) us = ground (arith, count-map-append f rs us)

count-filter_none :
    (p : RequirementDraft → Bool) (rs : List RequirementDraft)
    → count is_unknown rs ≡ 0
    → count is_unknown (filter p rs) ≡ 0
count-filter_none p [] h = h
count-filter_none p (r ∷ rs) h = elim (Bool-cases (is_unknown r)) [
  | inl unknown ↦ absurd (ground (arith, unknown, h))
  | inr known ↦
      let rest = count-filter_none p rs (ground (arith, known, h)) in ground (arith, known, rest)
]

-- No supplement is unknown.
pub supplements-known : (rs : List RequirementDraft) → count is_unknown (missing_supplements rs) ≡ 0
unfolding missing_supplements
supplements-known rs =
    count-filter_none (λ s. not (contains (keys rs) s.key)) standard_supplements
      (unfold standard_supplements in refl)

-- What the analysis starts from is known.
pub base-known :
    (goal : String) (sentences : List String)
    → count is_unknown (or_goal goal (collect_requirements sentences [] [])) ≡ 0
base-known goal sentences = with_goal (collect_requirements sentences [] []) (
    collect-induction (λ rs. count is_unknown rs ≡ 0)
      (λ rs sentence room h.
        ground
          (arith, h, count-append is_unknown rs (confirmed_draft (suc (length rs)) sentence ∷ [])))
      sentences [] [] refl)
  where
    with_goal :
        (rs : List RequirementDraft)
        → count is_unknown rs ≡ 0
        → count is_unknown (or_goal goal rs) ≡ 0
    with_goal [] h = refl
    with_goal (r ∷ rs) h = h
