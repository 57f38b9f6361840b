-- ===== src/Product/Workflow/Keeps.antt =====
-- An induction principle for the workflow: what every call of `fire` keeps, and what no write to the
-- other tables can break, holds after any method.
use orchestration_system.Common.{
  ℕ, String, ◌≡◌, refl, str_eq, Bool, true, false, Option, none, List, [], ◌∷◌, contains,
  Bool-cases, inl, inr,
}
use orchestration_system.Enums.{
  PolicyDecision, ClassificationGate, ApprovalType, ApprovalDecision, DocumentType,
  ConsultationTrigger,
}
use orchestration_system.Database.{Db}
use orchestration_system.Product.Schemas.{
  QuestionDraft, RequirementSet, CoreAnalysis, ClassificationResult, SpecificationResult,
  combined_text,
}
use orchestration_system.Product.Questions.{build_question_cards}
use orchestration_system.Memory.Conflicts.{DecisionConflict}
use orchestration_system.Consultation.Package.{ConsultationContext}
use orchestration_system.Consultation.Service.{create}
use orchestration_system.Expansion.Service.{ExpansionResolution, plan_and_judge, approve_pending}
use orchestration_system.Orchestrator.Subjects.{Context}
use orchestration_system.Orchestrator.Machine.{Error, World}
use orchestration_system.Orchestrator.Engine.{Call, fire}
use orchestration_system.Product.Workflow.Action.{Action, modify, ◌>>=◌, is_in}
use orchestration_system.Product.Workflow.Store.{
  ProductDefinitionWorkflow, call_of, question_keys, has_question, fire_event, insert_question,
  add_question, add_cards, upsert_questions, conflict_key, add_conflicts, create_conflict_questions,
  insert_document, save_generated_document, insert_approval, add_approval, insert_classification,
}
use orchestration_system.Product.Workflow.Consult.{consult}
use orchestration_system.Product.Workflow.Specify.{
  generate_backlog, route_expansion, plan_missing, resolve_expansion, close_gap,
  generate_specification, activate_pending_expansions,
}
use orchestration_system.Product.Workflow.Draft.{
  finish_draft, draft_requirements, redraft, route_gate, save_classification, entry_event,
  run_analysis,
}
use orchestration_system.Product.Workflow.Frames.{
  ensure_seeded-Same, plan_and_judge-Same, activate-Same, approve_pending-Same,
  sync_requirements-Same,
}
use orchestration_system.Product.Workflow.Saves.{is_workflow_event}
use orchestration_system.Product.Workflow.Rules.{
  Keeps, Elsewhere, Keeps-pure, Keeps-gets, Keeps-if, Keeps-require, Keeps-bind, Keeps-state,
  Keeps-modify, Keeps-beside,
}

module _ (flow : ProductDefinitionWorkflow) (P : World → Type 0)
    (fires : (c : Call) (w : World)
      → is_workflow_event c.event ≡ true
      → P w
      → P (fire flow.env flow.machine c w).1)
    (writes : (w : World) (d : Db) → Elsewhere d w.db → P w → P (record w { db = d })) where
  pub Keeps-fire :
      (event : String) (reason : Option String) (context : Context) (actor : Option ℕ)
      → is_workflow_event event ≡ true
      → Keeps P (fire_event flow event reason context actor)
  unfolding fire_event
  Keeps-fire event reason context actor known = record {
    at = λ w h. fires (call_of event reason context actor) w known h;
  }

  pub Keeps-write : (f : Db → Db) → ((db : Db) → Elsewhere (f db) db) → Keeps P (modify f)
  Keeps-write = Keeps-modify P writes

  Keeps-add_question : (key question : String) → Keeps P (add_question flow key question)
  unfolding add_question insert_question
  Keeps-add_question key question = record {
    at = λ w h. elim (Bool-cases (has_question w.subject.id key w.db)) [
      | inl known ↦ rw known h
      | inr new ↦ rw new (writes w _ (refl, refl) h)
    ];
  }

  Keeps-add_cards :
      (existing : List String) (cards : List QuestionDraft)
      → Keeps P (add_cards flow existing cards)
  unfolding add_cards
  Keeps-add_cards existing [] = Keeps-pure P tt
  Keeps-add_cards existing (card ∷ cards) =
      let rest = Keeps-add_cards existing cards in
      Keeps-if P (contains existing card.key) _ _ rest
        (Keeps-bind P _ _ (Keeps-add_question card.key card.question) (λ _. rest))

  Keeps-upsert_questions : (s : RequirementSet) → Keeps P (upsert_questions flow s)
  unfolding upsert_questions
  Keeps-upsert_questions s =
      Keeps-bind P _ _ (Keeps-gets P question_keys)
        (λ existing. Keeps-add_cards existing (build_question_cards s))

  Keeps-add_conflicts :
      (existing : List String) (conflicts : List DecisionConflict)
      → Keeps P (add_conflicts flow existing conflicts)
  unfolding add_conflicts
  Keeps-add_conflicts existing [] = Keeps-pure P tt
  Keeps-add_conflicts existing (c ∷ conflicts) =
      let rest = Keeps-add_conflicts existing conflicts in
      Keeps-if P (contains existing (conflict_key flow c)) _ _ rest
        (Keeps-bind P _ _ (Keeps-add_question (conflict_key flow c) c.message) (λ _. rest))

  Keeps-conflict_questions :
      (conflicts : List DecisionConflict) → Keeps P (create_conflict_questions flow conflicts)
  unfolding create_conflict_questions
  Keeps-conflict_questions conflicts =
      Keeps-bind P _ _ (Keeps-gets P question_keys)
        (λ existing. Keeps-add_conflicts existing conflicts)

  Keeps-document :
      (type : DocumentType) (content : String) → Keeps P (save_generated_document flow type content)
  unfolding save_generated_document insert_document
  Keeps-document type content = record { at = λ w h. writes w _ (refl, refl) h }

  pub Keeps-approval :
      (user : ℕ) (type : ApprovalType) (decision : ApprovalDecision) (comment : Option String)
      → Keeps P (add_approval flow user type decision comment)
  unfolding add_approval insert_approval
  Keeps-approval user type decision comment = record { at = λ w h. writes w _ (refl, refl) h }

  pub Keeps-consult :
      (trigger : ConsultationTrigger) (context : World → ConsultationContext) (actor : Option ℕ)
      → Keeps P (consult flow trigger context actor)
  unfolding consult create
  Keeps-consult trigger context actor = record { at = λ w h. writes w _ (refl, refl) h }

  Keeps-finish : (open_count : ℕ) (actor : Option ℕ) → Keeps P (finish_draft flow open_count actor)
  unfolding finish_draft str_eq
  Keeps-finish open_count actor =
      Keeps-if P _ _ _ (Keeps-fire _ _ _ actor refl) (Keeps-fire _ _ _ actor refl)

  Keeps-draft :
      (analysis : CoreAnalysis) (actor : Option ℕ)
      → Keeps P (draft_requirements flow analysis actor)
  unfolding draft_requirements
  Keeps-draft analysis actor = Keeps-bind P _ _ (Keeps-gets P _) λ drafting.
      Keeps-bind P _ _ (Keeps-require P drafting Error.assertion) λ _.
        Keeps-bind P _ _ (Keeps-gets P _) λ answers. Keeps-bind P _ _ (Keeps-gets P _) λ conflicts.
          Keeps-bind P _ _ (Keeps-gets P _) λ project.
            Keeps-bind P _ _ (Keeps-beside P writes _ (sync_requirements-Same flow.env project _ _))
              λ _. Keeps-bind P _ _ (Keeps-upsert_questions _) λ _.
                Keeps-bind P _ _ (Keeps-conflict_questions conflicts)
                  λ _. Keeps-bind P _ _ (Keeps-gets P _) λ open_count. Keeps-finish open_count actor

  pub Keeps-redraft : (actor : Option ℕ) → Keeps P (redraft flow actor)
  unfolding redraft
  Keeps-redraft actor = Keeps-bind P _ _ (Keeps-gets P _) (λ analysis. Keeps-draft analysis actor)

  pub Keeps-backlog :
      (spec : SpecificationResult) (actor : Option ℕ) → Keeps P (generate_backlog flow spec actor)
  unfolding generate_backlog str_eq
  Keeps-backlog spec actor =
      Keeps-bind P _ _ (Keeps-document _ _) (λ _. Keeps-fire _ _ _ actor refl)

  Keeps-route_expansion :
      (spec : SpecificationResult) (r : ExpansionResolution) (actor : Option ℕ)
      (decision : PolicyDecision)
      → Keeps P (route_expansion flow spec r actor decision)
  unfolding route_expansion str_eq
  Keeps-route_expansion spec r actor PolicyDecision.auto_approve =
      Keeps-bind P _ _ (Keeps-state P writes _ (activate-Same flow.env r))
        λ _. Keeps-bind P _ _ (Keeps-fire _ _ _ actor refl) λ _. Keeps-backlog spec actor
  Keeps-route_expansion spec r actor PolicyDecision.user_approval = Keeps-fire _ _ _ actor refl
  Keeps-route_expansion spec r actor PolicyDecision.expert_required =
      Keeps-bind P _ _ (Keeps-consult _ _ none) (λ _. Keeps-fire _ _ _ actor refl)
  Keeps-route_expansion spec r actor PolicyDecision.auto_blocked = Keeps-fire _ _ _ actor refl

  Keeps-plan : (missing : List String) → Keeps P (plan_missing flow missing)
  unfolding plan_missing
  Keeps-plan missing = record {
    at = λ w h.
        (Keeps-state P writes (plan_and_judge flow.env flow.expansion w.subject.id missing)
            (plan_and_judge-Same flow.env flow.expansion w.subject.id missing)).at
          w h;
  }

  Keeps-gap :
      (spec : SpecificationResult) (gap : Bool) (missing : List String) (actor : Option ℕ)
      → Keeps P (close_gap flow spec gap missing actor)
  unfolding close_gap resolve_expansion str_eq
  Keeps-gap spec true missing actor =
      Keeps-bind P _ _ (Keeps-fire _ _ _ actor refl) λ _.
        Keeps-bind P _ _ (Keeps-plan missing) λ r. Keeps-route_expansion spec r actor r.decision
  Keeps-gap spec false missing actor =
      Keeps-bind P _ _ (Keeps-fire _ _ _ actor refl) (λ _. Keeps-backlog spec actor)

  pub Keeps-specification : (actor : Option ℕ) → Keeps P (generate_specification flow actor)
  unfolding generate_specification str_eq
  Keeps-specification actor = Keeps-bind P _ _ (Keeps-gets P _) λ analysis.
      Keeps-bind P _ _ (Keeps-gets P _) λ spec. Keeps-bind P _ _ (Keeps-document _ _) λ _.
        Keeps-bind P _ _ (Keeps-fire _ _ _ actor refl) λ _.
          Keeps-bind P _ _
            (Keeps-beside P writes _ (ensure_seeded-Same flow.env flow.capabilities_config))
            λ _. Keeps-bind P _ _ (Keeps-gets P _) λ gap. Keeps-gap spec _ _ actor

  pub Keeps-activate : Keeps P (activate_pending_expansions flow)
  unfolding activate_pending_expansions
  Keeps-activate = record {
    at = λ w h.
        (Keeps-state P writes (approve_pending flow.env w.subject.id)
            (approve_pending-Same flow.env w.subject.id)).at
          w h;
  }

  Keeps-route_gate :
      (analysis : CoreAnalysis) (c : ClassificationResult) (confirmed : Bool) (actor : Option ℕ)
      (gate : ClassificationGate)
      → Keeps P (route_gate flow analysis c confirmed actor gate)
  unfolding route_gate str_eq
  Keeps-route_gate analysis c confirmed actor ClassificationGate.blocked =
      Keeps-fire _ _ _ actor refl
  Keeps-route_gate analysis c confirmed actor ClassificationGate.unsupported =
      Keeps-fire _ _ _ actor refl
  Keeps-route_gate analysis c true actor ClassificationGate.needs_expert =
      Keeps-bind P _ _ (Keeps-fire _ _ _ actor refl) (λ _. Keeps-draft analysis actor)
  Keeps-route_gate analysis c false actor ClassificationGate.needs_expert =
      Keeps-bind P _ _ (Keeps-consult _ _ none) (λ _. Keeps-fire _ _ _ actor refl)
  Keeps-route_gate analysis c confirmed actor ClassificationGate.needs_approval =
      Keeps-fire _ _ _ actor refl
  Keeps-route_gate analysis c confirmed actor ClassificationGate.proceed =
      Keeps-bind P _ _ (Keeps-fire _ _ _ actor refl) (λ _. Keeps-draft analysis actor)

  Keeps-classification : (c : ClassificationResult) → Keeps P (save_classification flow c)
  unfolding save_classification insert_classification
  Keeps-classification c = Keeps-bind P _ _ (Keeps-gets P _) λ confirmed.
      Keeps-bind P _ _ (Keeps-gets P _)
        λ project. Keeps-bind P _ _ (Keeps-write _ (λ db. (refl, refl))) λ _. Keeps-pure P confirmed

  -- the event of the entry is one of the workflow's
  Keeps-entry :
      {B : Type 0} (k : String → Action B)
      → ((event : String) → is_workflow_event event ≡ true → Keeps P (k event))
      → Keeps P (entry_event flow >>= k)
  unfolding entry_event ◌>>=◌ str_eq
  Keeps-entry k kk = record {
    at = λ w h. elim (Bool-cases (is_in "IDEA_RECEIVED" w)) [
      | inl idea ↦ rw idea ((kk "ANALYSIS_STARTED" refl).at w h)
      | inr other ↦ elim (Bool-cases (is_in "AUTO_BLOCKED_BY_POLICY" w)) [
        | inl stopped ↦ rw (other, stopped) ((kk "ALTERNATIVE_ACCEPTED" refl).at w h)
        | inr begun ↦ rw (other, begun) h
      ]
    ];
  }

  pub Keeps-run_analysis : (actor : Option ℕ) → Keeps P (run_analysis flow actor)
  unfolding run_analysis str_eq
  Keeps-run_analysis actor = Keeps-entry _ λ event known.
      Keeps-bind P _ _ (Keeps-fire _ _ _ actor known) λ _.
        Keeps-bind P _ _ (Keeps-gets P _) λ input.
          Keeps-bind P _ _ (Keeps-fire _ _ _ actor refl) λ _.
            Keeps-bind P _ _ (Keeps-classification (flow.classifier (combined_text input)))
              λ confirmed. Keeps-route_gate _ _ confirmed actor _
