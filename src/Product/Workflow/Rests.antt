-- ===== src/Product/Workflow/Rests.antt =====
-- The parts of the workflow's methods, by the rules of `Outcomes`: what they leave of the status.
use orchestration_system.Common.{
  str_eq, ℕ, String, ◌≡◌, refl, Bool, true, Option, List, [], ◌∷◌, contains, Bool-cases,
  Option-cases, inl, inr,
}
use orchestration_system.Enums.{ApprovalType, ApprovalDecision, DocumentType, ConsultationTrigger}
use orchestration_system.Product.Schemas.{
  QuestionDraft, RequirementSet, CoreAnalysis, ClassificationResult, SpecificationResult,
}
use orchestration_system.Memory.Conflicts.{DecisionConflict}
use orchestration_system.Consultation.Package.{ConsultationContext}
use orchestration_system.Orchestrator.Subjects.{Context, is_present}
use orchestration_system.Orchestrator.Machine.{World}
use orchestration_system.Product.Workflow.Action.{Action, ◌>>=◌}
use orchestration_system.Product.Workflow.Store.{
  ProductDefinitionWorkflow, current_classification, question_keys, has_question, fire_event,
  add_question, add_cards, upsert_questions, conflict_key, add_conflicts, create_conflict_questions,
  save_generated_document, add_approval,
}
use orchestration_system.Product.Workflow.Consult.{consult}
use orchestration_system.Product.Workflow.Specify.{
  generate_backlog, plan_missing, activate_pending_expansions,
}
use orchestration_system.Product.Workflow.Draft.{
  finish_draft, draft_requirements, redraft, save_classification,
}
use orchestration_system.Product.Workflow.Handlers.{log_decision, save_feedback, confirm_expert}
use orchestration_system.Orchestrator.Transitions.{
  MachineType, transitions_for, product_transitions,
}
use orchestration_system.Orchestrator.Engine.Index.{machine_for}
use orchestration_system.Product.Workflow.Outcomes.{
  Meets, is, Meets-pure, Meets-gets, Meets-modify, Meets-if, Meets-bind, Meets-any, Meets-assert,
  leads_into, Meets-fire,
}

-- The states in which nothing is left to do for the program.
unfoldable pub resting : String → Bool
unfolding str_eq
resting = contains (
    "WAITING_REQUIREMENT_INPUT" ∷ "WAITING_REQUIREMENT_APPROVAL" ∷ "WAITING_APPROVAL"
    ∷ "WAITING_EXPERT_CONFIRMATION" ∷ "WAITING_EXPANSION_APPROVAL" ∷ "AUTO_BLOCKED_BY_POLICY"
    ∷ "EXPANSION_REJECTED" ∷ "CANCELLED" ∷ "READY_FOR_DEVELOPMENT" ∷ [])

-- What the tables and tests compute with
unfoldable pub tabled : ℕ
unfolding leads_into resting transitions_for product_transitions str_eq
tabled = 0

module _ (flow : ProductDefinitionWorkflow) (limit : ℕ)
    (built : flow.machine ≡ machine_for MachineType.product limit) where
  pub fires :
      (p q : String → Bool) (event : String) (reason : Option String) (context : Context)
      (actor : Option ℕ)
      → leads_into event q ≡ true
      → Meets p (fire_event flow event reason context actor) q
  fires p q event reason context actor into =
      Meets-any p q _ (Meets-fire flow limit built event reason context actor q into)

  -- a method that fires an event into one state, and goes on there
  pub fires_then :
      (p r : String → Bool) (name event : String) (reason : Option String) (context : Context)
      (actor : Option ℕ) {A : Type 0} (k : Action A)
      → leads_into event (is name) ≡ true
      → Meets (is name) k r
      → Meets p (fire_event flow event reason context actor >>= λ _. k) r
  fires_then p r name event reason context actor k into rest =
      Meets-bind p (is name) r _ _ (fires p (is name) event reason context actor into) (λ _. rest)

  module _ (p : String → Bool) where
    Meets-add_question : (key question : String) → Meets p (add_question flow key question) p
    unfolding add_question
    Meets-add_question key question = record {
      at = λ w h. elim (Bool-cases (has_question w.subject.id key w.db)) [
        | inl known ↦ rw known refl
        | inr new ↦ rw new h
      ];
    }

    Meets-add_cards :
        (existing : List String) (cards : List QuestionDraft)
        → Meets p (add_cards flow existing cards) p
    unfolding add_cards
    Meets-add_cards existing [] = Meets-pure p tt
    Meets-add_cards existing (card ∷ cards) =
        let rest = Meets-add_cards existing cards in
        Meets-if p p (contains existing card.key) _ _ rest
          (Meets-bind p p p _ _ (Meets-add_question card.key card.question) (λ _. rest))

    Meets-add_conflicts :
        (existing : List String) (conflicts : List DecisionConflict)
        → Meets p (add_conflicts flow existing conflicts) p
    unfolding add_conflicts
    Meets-add_conflicts existing [] = Meets-pure p tt
    Meets-add_conflicts existing (c ∷ conflicts) =
        let rest = Meets-add_conflicts existing conflicts in
        Meets-if p p (contains existing (conflict_key flow c)) _ _ rest
          (Meets-bind p p p _ _ (Meets-add_question (conflict_key flow c) c.message) (λ _. rest))

    Meets-upsert_questions : (s : RequirementSet) → Meets p (upsert_questions flow s) p
    unfolding upsert_questions
    Meets-upsert_questions s =
        Meets-bind p p p _ _ (Meets-gets p question_keys) (λ existing. Meets-add_cards existing _)

    Meets-conflict_questions :
        (conflicts : List DecisionConflict) → Meets p (create_conflict_questions flow conflicts) p
    unfolding create_conflict_questions
    Meets-conflict_questions conflicts =
        Meets-bind p p p _ _ (Meets-gets p question_keys)
          (λ existing. Meets-add_conflicts existing conflicts)

    -- the methods that write rows and nothing else
    pub Meets-document :
        (type : DocumentType) (content : String)
        → Meets p (save_generated_document flow type content) p
    unfolding save_generated_document
    Meets-document type content = record { at = λ w h. h }

    pub Meets-approval :
        (user : ℕ) (type : ApprovalType) (decision : ApprovalDecision) (comment : Option String)
        → Meets p (add_approval flow user type decision comment) p
    unfolding add_approval
    Meets-approval user type decision comment = record { at = λ w h. h }

    pub Meets-consult :
        (trigger : ConsultationTrigger) (context : World → ConsultationContext) (actor : Option ℕ)
        → Meets p (consult flow trigger context actor) p
    unfolding consult
    Meets-consult trigger context actor = record { at = λ w h. h }

    pub Meets-plan : (missing : List String) → Meets p (plan_missing flow missing) p
    unfolding plan_missing
    Meets-plan missing = record { at = λ w h. h }

    pub Meets-activate : Meets p (activate_pending_expansions flow) p
    unfolding activate_pending_expansions
    Meets-activate = record { at = λ w h. h }

    pub Meets-classification : (c : ClassificationResult) → Meets p (save_classification flow c) p
    unfolding save_classification
    Meets-classification c = Meets-bind p p p _ _ (Meets-gets p _) λ confirmed.
        Meets-bind p p p _ _ (Meets-gets p _)
          λ project. Meets-bind p p p _ _ (Meets-modify p _) λ _. Meets-pure p confirmed

    pub Meets-log :
        (title decision : String) (reason : Option String)
        → Meets p (log_decision flow title decision reason) p
    unfolding log_decision
    Meets-log title decision reason = record { at = λ w h. h }

    pub Meets-feedback :
        (user : ℕ) (comment : Option String) → Meets p (save_feedback flow user comment) p
    unfolding save_feedback
    Meets-feedback user comment = record {
      at = λ w h. elim (Bool-cases (is_present comment)) [
        | inl given ↦ rw given h
        | inr absent ↦ rw absent h
      ];
    }

    pub Meets-confirm : Meets p (confirm_expert flow) p
    unfolding confirm_expert
    Meets-confirm = record {
      at = λ w h. elim (Option-cases (current_classification w)) [
        | inl missing ↦ rw (missing, confirm_expert) h
        | inr (c, found) ↦ rw (found, confirm_expert) h
      ];
    }

  abbrev pub drafting : String → Bool
  drafting = is "REQUIREMENT_DRAFTING"

  Meets-finish :
      (p : String → Bool) (open_count : ℕ) (actor : Option ℕ)
      → Meets p (finish_draft flow open_count actor) resting
  unfolding finish_draft tabled
  Meets-finish p open_count actor =
      Meets-if p resting _ _ _ (fires p resting _ _ _ actor refl) (fires p resting _ _ _ actor refl)

  pub Meets-draft :
      (analysis : CoreAnalysis) (actor : Option ℕ)
      → Meets drafting (draft_requirements flow analysis actor) resting
  unfolding draft_requirements
  Meets-draft analysis actor =
      let p = drafting in
      Meets-assert "REQUIREMENT_DRAFTING" resting _ (
        Meets-bind p p resting _ _ (Meets-gets p _) λ answers.
          Meets-bind p p resting _ _ (Meets-gets p _) λ conflicts.
            Meets-bind p p resting _ _ (Meets-gets p _) λ project.
              Meets-bind p p resting _ _ (Meets-modify p _) λ _.
                Meets-bind p p resting _ _ (Meets-upsert_questions p _) λ _.
                  Meets-bind p p resting _ _ (Meets-conflict_questions p conflicts) λ _.
                    Meets-bind p p resting _ _ (Meets-gets p _)
                      λ open_count. Meets-finish p open_count actor)

  pub Meets-redraft : (actor : Option ℕ) → Meets drafting (redraft flow actor) resting
  unfolding redraft
  Meets-redraft actor =
      Meets-bind drafting drafting resting _ _ (Meets-gets drafting _)
        (λ analysis. Meets-draft analysis actor)

  pub Meets-backlog :
      (p : String → Bool) (spec : SpecificationResult) (actor : Option ℕ)
      → Meets p (generate_backlog flow spec actor) resting
  unfolding generate_backlog tabled
  Meets-backlog p spec actor =
      Meets-bind p p resting _ _ (Meets-document p _ _) (λ _. fires p resting _ _ _ actor refl)
