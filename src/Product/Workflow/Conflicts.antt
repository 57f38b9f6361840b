-- ===== src/Product/Workflow/Conflicts.antt =====
-- When `_create_conflict_questions` succeeds.
use orchestration_system.Common.{
  eq_self, ℕ, ◌≡◌, refl, sym, ◌∙◌, ap, String, Bool, true, false, not, ◌&&◌, ◌||◌, List, [], ◌∷◌,
  map, filter, contains, any, Bool-cases, inl, inr, str_eq, str_eq_comm,
}
use orchestration_system.Memory.Conflicts.{DecisionConflict}
use orchestration_system.Database.{RequirementQuestion}
use orchestration_system.Orchestrator.Machine.{Result, ok, err, World}
use orchestration_system.Product.Workflow.Action.{◌>>=◌, modify}
use orchestration_system.Product.Workflow.Store.{
  ProductDefinitionWorkflow, of_project, question_keys, has_question, question_row, insert_question,
  add_question, conflict_key, add_conflicts, create_conflict_questions,
}

abbrev pub succeeds : {A : Type 0} → Result A × World → Bool
succeeds (ok a, w) = true
succeeds (err e, w) = false

-- Each key differs from the ones seen before it.
abbrev pub all_new : List String → List String → Bool
all_new seen [] = true
all_new seen (key ∷ keys) = not (contains seen key) && all_new (key ∷ seen) keys

-- the keys that are not among the existing ones
abbrev pub fresh_keys :
    ProductDefinitionWorkflow → List String → List DecisionConflict → List String
fresh_keys flow existing conflicts =
    filter (λ k. not (contains existing k)) (map (conflict_key flow) conflicts)

has_question-contains :
    (project : ℕ) (key : String) (qs : List RequirementQuestion)
    → any (λ q. of_project project q && str_eq q.question_key key) qs
      ≡ contains (map (λ q. q.question_key) (filter (of_project project) qs)) key
has_question-contains project key [] = refl
has_question-contains project key (q ∷ qs) = elim (Bool-cases (of_project project q)) [
  | inl own ↦
      rw (own, has_question-contains project key qs)
        (ap (λ b. b || contains (map (λ q. q.question_key) (filter (of_project project) qs)) key)
          (str_eq_comm q.question_key key))
  | inr other ↦ rw (other, has_question-contains project key qs) refl
]

module _ (flow : ProductDefinitionWorkflow) where
  added :
      (w : World) (c : DecisionConflict)
      → question_keys
          (modify (insert_question flow w.subject.id (conflict_key flow c) c.message) w).1
        ≡ conflict_key flow c ∷ question_keys w
  unfolding insert_question question_row question_keys
  added w c = rw (eq_self w.subject.id) refl

  taken :
      (w : World) (key : String) (b : Bool)
      → has_question w.subject.id key w.db ≡ b
      → contains (question_keys w) key ≡ b
  unfolding question_keys
  taken w key b e = sym (has_question-contains w.subject.id key w.db.questions) ∙ e

  add_conflicts-all_new :
      (existing : List String) (conflicts : List DecisionConflict) (w : World)
      → succeeds (add_conflicts flow existing conflicts w)
        ≡ all_new (question_keys w) (fresh_keys flow existing conflicts)
  unfolding add_conflicts add_question ◌>>=◌
  add_conflicts-all_new existing [] w = refl
  add_conflicts-all_new existing (c ∷ conflicts) w =
      elim (Bool-cases (contains existing (conflict_key flow c))) [
        | inl known ↦ rw known (add_conflicts-all_new existing conflicts w)
        | inr fresh ↦ elim (Bool-cases (has_question w.subject.id (conflict_key flow c) w.db)) [
          | inl stored ↦ rw (fresh, stored, taken w _ true stored) refl
          | inr missing ↦
              let u =
                (modify (insert_question flow w.subject.id (conflict_key flow c) c.message) w).1 in
              rw (fresh, missing, taken w _ false missing)
                (add_conflicts-all_new existing conflicts u
                  ∙ ap (λ ks. all_new ks (fresh_keys flow existing conflicts)) (added w c))
        ]
      ]

  -- The questions about conflicts are stored if and only if the keys of those that the project does
  -- not have yet differ from each other. A key is made of the decision's key alone, so two
  -- requirements that clash with the same decision, which has no question yet, make the call fail.
  pub create_conflict_questions-all_new :
      (conflicts : List DecisionConflict) (w : World)
      → succeeds (create_conflict_questions flow conflicts w)
        ≡ all_new (question_keys w) (fresh_keys flow (question_keys w) conflicts)
  unfolding create_conflict_questions ◌>>=◌
  create_conflict_questions-all_new conflicts w =
      add_conflicts-all_new (question_keys w) conflicts w
