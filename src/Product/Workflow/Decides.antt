-- ===== src/Product/Workflow/Decides.antt =====
-- The same principle for the methods that take a decision, an answer or a reply.
use orchestration_system.Common.{
  ℕ, String, ◌≡◌, refl, str_eq, Bool, true, false, Option, some, Bool-cases, Option-cases, inl, inr,
}
use orchestration_system.Enums.{ApprovalType, ApprovalDecision}
use orchestration_system.Database.{Db}
use orchestration_system.Memory.Decisions.{add_decision, add_feedback}
use orchestration_system.Consultation.Service.{record_answer, mark_applied}
use orchestration_system.Orchestrator.Subjects.{is_present}
use orchestration_system.Orchestrator.Machine.{Error, World}
use orchestration_system.Orchestrator.Engine.{Call, fire}
use orchestration_system.Product.Workflow.Action.{Action, gets, ◌>>=◌, require, is_in}
use orchestration_system.Product.Workflow.Store.{
  ProductDefinitionWorkflow, current_classification, add_approval,
}
use orchestration_system.Product.Workflow.Consult.{manual_context, create_manual_consultation}
use orchestration_system.Product.Workflow.Handlers.{
  Resolution, log_decision, write_answer, after_answer, answer_question, save_feedback,
  after_requirements, decide_requirements, after_scope, decide_reduced_scope, after_expansion,
  decide_expansion, confirm_expert, resume_gate, resume_expansion, resume, unblock_after_expert,
  apply_resolution, apply_consultation_answer,
}
use orchestration_system.Product.Workflow.Saves.{is_workflow_event}
use orchestration_system.Product.Workflow.Rules.{
  Keeps, Elsewhere, Keeps-pure, Keeps-gets, Keeps-query, Keeps-or_raise, Keeps-if, Keeps-require,
  Keeps-bind,
}
use orchestration_system.Product.Workflow.Keeps.{
  Keeps-fire, Keeps-write, Keeps-approval, Keeps-consult, Keeps-redraft, Keeps-backlog,
  Keeps-specification, Keeps-activate,
}

module _ (flow : ProductDefinitionWorkflow) (P : World → Type 0)
    (fires : (c : Call) (w : World)
      → is_workflow_event c.event ≡ true
      → P w
      → P (fire flow.env flow.machine c w).1)
    (writes : (w : World) (d : Db) → Elsewhere d w.db → P w → P (record w { db = d })) where
  Keeps-log :
      (title decision : String) (reason : Option String)
      → Keeps P (log_decision flow title decision reason)
  unfolding log_decision add_decision
  Keeps-log title decision reason = record { at = λ w h. writes w _ (refl, refl) h }

  pub Keeps-answer_question :
      (key answer : String) (user : ℕ) → Keeps P (answer_question flow key answer user)
  unfolding answer_question write_answer after_answer str_eq
  Keeps-answer_question key answer user = Keeps-bind P _ _ (Keeps-gets P _) λ waiting.
      Keeps-bind P _ _ (Keeps-require P waiting _) λ _. Keeps-bind P _ _ (Keeps-query P _) λ found.
        Keeps-bind P _ _ (Keeps-or_raise P found) λ q. Keeps-bind P _ _ (Keeps-require P _ _) λ _.
          Keeps-bind P _ _ (Keeps-write flow P fires writes _ (λ db. (refl, refl))) λ _.
            Keeps-bind P _ _ (Keeps-log _ _ _) λ _. Keeps-bind P _ _ (Keeps-gets P _) λ open_count.
              Keeps-if P _ _ _
                (Keeps-bind P _ _ (Keeps-fire flow P fires writes _ _ _ (some user) refl)
                  (λ _. Keeps-redraft flow P fires writes (some user)))
                (Keeps-pure P tt)

  Keeps-feedback : (user : ℕ) (comment : Option String) → Keeps P (save_feedback flow user comment)
  unfolding save_feedback add_feedback
  Keeps-feedback user comment = record {
    at = λ w h. elim (Bool-cases (is_present comment)) [
      | inl given ↦ rw given (writes w _ (refl, refl) h)
      | inr absent ↦ rw absent h
    ];
  }

  Keeps-after_requirements :
      (user : ℕ) (comment : Option String) (approved : Bool)
      → Keeps P (after_requirements flow user comment approved)
  unfolding after_requirements str_eq
  Keeps-after_requirements user comment true =
      Keeps-bind P _ _ (Keeps-fire flow P fires writes _ _ _ (some user) refl)
        (λ _. Keeps-specification flow P fires writes (some user))
  Keeps-after_requirements user comment false = Keeps-bind P _ _ (Keeps-feedback user comment) λ _.
      Keeps-bind P _ _ (Keeps-fire flow P fires writes _ _ _ (some user) refl)
        λ _. Keeps-redraft flow P fires writes (some user)

  -- a decision: a check of the state, the row of the approval, and what follows
  Keeps-decision :
      (name : String) (user : ℕ) (type : ApprovalType) (decision : ApprovalDecision)
      (comment : Option String) (after : Action (Unit {0}))
      → Keeps P after
      → Keeps P (
          gets (is_in name) >>= λ waiting. require waiting Error.workflow_state >>= λ _.
          add_approval flow user type decision comment >>= λ _. after)
  Keeps-decision name user type decision comment after kept =
      Keeps-bind P _ _ (Keeps-gets P _) λ waiting. Keeps-bind P _ _ (Keeps-require P waiting _) λ _.
        Keeps-bind P _ _ (Keeps-approval flow P fires writes user type decision comment) λ _. kept

  pub Keeps-decide_requirements :
      (user : ℕ) (decision : ApprovalDecision) (comment : Option String)
      → Keeps P (decide_requirements flow user decision comment)
  unfolding decide_requirements
  Keeps-decide_requirements user decision comment =
      Keeps-decision _ user _ decision comment _ (Keeps-after_requirements user comment _)

  Keeps-after_scope :
      (user : ℕ) (comment : Option String) (approved : Bool)
      → Keeps P (after_scope flow user comment approved)
  unfolding after_scope str_eq
  Keeps-after_scope user comment true = Keeps-bind P _ _ (Keeps-gets P _) λ c.
      Keeps-bind P _ _ (Keeps-log _ _ comment) λ _.
        Keeps-bind P _ _ (Keeps-fire flow P fires writes _ _ _ (some user) refl)
          λ _. Keeps-redraft flow P fires writes (some user)
  Keeps-after_scope user comment false = Keeps-fire flow P fires writes _ _ _ (some user) refl

  pub Keeps-decide_scope :
      (user : ℕ) (decision : ApprovalDecision) (comment : Option String)
      → Keeps P (decide_reduced_scope flow user decision comment)
  unfolding decide_reduced_scope
  Keeps-decide_scope user decision comment =
      Keeps-decision _ user _ decision comment _ (Keeps-after_scope user comment _)

  Keeps-after_expansion :
      (user : ℕ) (approved : Bool) → Keeps P (after_expansion flow user approved)
  unfolding after_expansion str_eq
  Keeps-after_expansion user true = Keeps-bind P _ _ (Keeps-activate flow P fires writes) λ _.
      Keeps-bind P _ _ (Keeps-fire flow P fires writes _ _ _ (some user) refl) λ _.
        Keeps-bind P _ _ (Keeps-gets P _) λ spec. Keeps-backlog flow P fires writes spec (some user)
  Keeps-after_expansion user false = Keeps-fire flow P fires writes _ _ _ (some user) refl

  pub Keeps-decide_expansion :
      (user : ℕ) (decision : ApprovalDecision) (comment : Option String)
      → Keeps P (decide_expansion flow user decision comment)
  unfolding decide_expansion
  Keeps-decide_expansion user decision comment =
      Keeps-decision _ user _ decision comment _ (Keeps-after_expansion user _)

  Keeps-confirm : Keeps P (confirm_expert flow)
  unfolding confirm_expert
  Keeps-confirm = record {
    at = λ w h. elim (Option-cases (current_classification w)) [
      | inl missing ↦ rw (missing, confirm_expert) h
      | inr (c, found) ↦ rw (found, confirm_expert) (writes w _ (refl, refl) h)
    ];
  }

  Keeps-resume_gate : (user : ℕ) → Keeps P (resume_gate flow user)
  unfolding resume_gate str_eq
  Keeps-resume_gate user =
      Keeps-bind P _ _ (Keeps-fire flow P fires writes _ _ _ (some user) refl)
        (λ _. Keeps-redraft flow P fires writes (some user))

  Keeps-resume_expansion : (user : ℕ) → Keeps P (resume_expansion flow user)
  unfolding resume_expansion str_eq
  Keeps-resume_expansion user = Keeps-bind P _ _ (Keeps-activate flow P fires writes) λ _.
      Keeps-bind P _ _ (Keeps-fire flow P fires writes _ _ _ (some user) refl) λ _.
        Keeps-bind P _ _ (Keeps-gets P _) λ spec. Keeps-backlog flow P fires writes spec (some user)

  Keeps-resume : (user : ℕ) → Keeps P (resume flow user)
  unfolding resume
  Keeps-resume user = record {
    at = λ w h. elim (Bool-cases (is_in "CLASSIFYING" w)) [
      | inl gate ↦ rw gate ((Keeps-resume_gate user).at w h)
      | inr other ↦ elim (Bool-cases (is_in "EXPANSION_PROPOSING" w)) [
        | inl proposing ↦ rw (other, proposing) ((Keeps-resume_expansion user).at w h)
        | inr elsewhere ↦ rw (other, elsewhere) h
      ]
    ];
  }

  Keeps-resolution :
      (user : ℕ) (resolution : Resolution) → Keeps P (apply_resolution flow user resolution)
  unfolding apply_resolution unblock_after_expert str_eq
  Keeps-resolution user Resolution.stop = Keeps-fire flow P fires writes _ _ _ (some user) refl
  Keeps-resolution user Resolution.adjust_scope =
      Keeps-bind P _ _ (Keeps-fire flow P fires writes _ _ _ (some user) refl)
        (λ _. Keeps-redraft flow P fires writes (some user))
  Keeps-resolution user Resolution.unblock = Keeps-bind P _ _ Keeps-confirm λ _.
      Keeps-bind P _ _ (Keeps-fire flow P fires writes _ _ _ (some user) refl)
        λ _. Keeps-resume user

  pub Keeps-consultation_answer :
      (user : ℕ) (key answer resolution : String)
      → Keeps P (apply_consultation_answer flow user key answer resolution)
  unfolding apply_consultation_answer record_answer mark_applied
  Keeps-consultation_answer user key answer resolution =
      Keeps-bind P _ _ (Keeps-gets P _) λ waiting. Keeps-bind P _ _ (Keeps-require P waiting _) λ _.
        Keeps-bind P _ _ (Keeps-or_raise P _) λ known. Keeps-bind P _ _ (Keeps-gets P _) λ latest.
          Keeps-bind P _ _ (Keeps-or_raise P latest) λ consultation.
            Keeps-bind P _ _ (Keeps-write flow P fires writes _ (λ db. (refl, refl))) λ _.
              Keeps-bind P _ _ (Keeps-resolution user known)
                λ _. Keeps-write flow P fires writes _ (λ db. (refl, refl))

  pub Keeps-manual : (user : ℕ) → Keeps P (create_manual_consultation flow user)
  unfolding create_manual_consultation
  Keeps-manual user = Keeps-consult flow P fires writes _ (manual_context flow) (some user)
