-- ===== src/Product/Questions.antt =====
-- app/product/question_generator.py: the question cards, one for each key.
use orchestration_system.Common.{
  contains_alike, String, Bool, true, false, ◌||◌, ◌≡◌, refl, List, [], ◌∷◌, map, if◌then◌else◌,
  str_eq, str_eq_comm, contains, count, Bool-cases, inl, inr, arith, or-true_left, or-true_right,
}
use orchestration_system.Product.Schemas.{QuestionDraft, RequirementSet}

-- The loop of `build_question_cards`, the values of the dict; `seen` are its keys.
unfoldable pub fresh_cards : List String → List QuestionDraft → List QuestionDraft
fresh_cards seen [] = []
fresh_cards seen (q ∷ questions) = elim (contains seen q.key) [
  | true ↦ fresh_cards seen questions
  | false ↦ q ∷ fresh_cards (q.key ∷ seen) questions
]

unfoldable pub build_question_cards : RequirementSet → List QuestionDraft
unfolding fresh_cards
build_question_cards requirement_set = fresh_cards [] requirement_set.open_questions

abbrev pub asks : String → QuestionDraft → Bool
asks key q = str_eq q.key key

or-false : {a b : Bool} → a ≡ false → b ≡ false → (a || b) ≡ false
or-false h k = rw (h, k) refl

-- A key that was seen has no card.
fresh_cards-seen :
    (seen : List String) (questions : List QuestionDraft) (key : String)
    → contains seen key ≡ true
    → count (asks key) (fresh_cards seen questions) ≡ 0
unfolding fresh_cards
fresh_cards-seen seen [] key known = refl
fresh_cards-seen seen (q ∷ questions) key known = elim (Bool-cases (contains seen q.key)) [
  | inl old ↦ rw (old, fresh_cards) (fresh_cards-seen seen questions key known)
  | inr new ↦
      rw (new, fresh_cards)
        (let rest =
            fresh_cards-seen (q.key ∷ seen) questions key
              (or-true_right (str_eq key q.key) known) in
          ground (arith, rest, contains_alike seen key q.key, new, known))
]

module _ (key : String) where
  fresh_cards-count :
      (seen : List String) (questions : List QuestionDraft)
      → contains seen key ≡ false
      → count (asks key) (fresh_cards seen questions)
        ≡ (if contains (map (λ q. q.key) questions) key then 1 else 0)
  unfolding fresh_cards
  fresh_cards-count seen [] fresh = refl
  fresh_cards-count seen (q ∷ questions) fresh = elim (Bool-cases (contains seen q.key)) [
    | inl old ↦
        rw (old, fresh_cards)
          (ground (
            arith,
            fresh_cards-count seen questions fresh,
            contains_alike seen key q.key,
            str_eq_comm key q.key,
            old,
          ))
    | inr new ↦ elim (Bool-cases (str_eq key q.key)) [
      | inl same ↦
          rw (new, fresh_cards)
            (let rest =
                fresh_cards-seen (q.key ∷ seen) questions key
                  (or-true_left (contains seen key) same) in
              ground (arith, rest, same, str_eq_comm key q.key))
      | inr other ↦
          rw (new, fresh_cards)
            (let rest = fresh_cards-count (q.key ∷ seen) questions (or-false other fresh) in
              ground (arith, rest, other, str_eq_comm key q.key))
    ]
  ]

  -- Each key of an open question has one card, and no other key has any.
  build_question_cards-count :
      (requirement_set : RequirementSet)
      → count (asks key) (build_question_cards requirement_set)
        ≡ (if contains (map (λ q. q.key) requirement_set.open_questions) key then 1 else 0)
  unfolding build_question_cards
  build_question_cards-count requirement_set =
      fresh_cards-count [] requirement_set.open_questions refl
