-- ===== src/Product/Workflow/Returns.antt =====
-- Each method of the workflow returns in a state that waits for a person or ends the work, and raises
-- only the errors that are expected.
use orchestration_system.Common.{
  str_eq→eq, ◌==◌, ℕ, String, ◌≡◌, refl, Bool, true, false, Option, none, some, List, Bool-cases,
  inl, inr,
}
use orchestration_system.Enums.{PolicyDecision, ClassificationGate, ApprovalType, ApprovalDecision}
use orchestration_system.Product.Schemas.{
  CoreAnalysis, ClassificationResult, SpecificationResult, combined_text,
}
use orchestration_system.Expansion.Service.{ExpansionResolution}
use orchestration_system.Orchestrator.Machine.{Error}
use orchestration_system.Product.Workflow.Action.{Action, gets, ◌>>=◌, require, is_in}
use orchestration_system.Product.Workflow.Store.{
  ProductDefinitionWorkflow, no_context, add_approval,
}
use orchestration_system.Product.Workflow.Specify.{
  route_expansion, resolve_expansion, close_gap, generate_specification,
}
use orchestration_system.Product.Workflow.Draft.{route_gate, entry_event, run_analysis}
use orchestration_system.Product.Workflow.Handlers.{
  find_question, write_answer, after_answer, answer_question, after_requirements,
  decide_requirements, after_scope, decide_reduced_scope, after_expansion, decide_expansion,
  resume_gate, resume_expansion,
}
use orchestration_system.Orchestrator.Transitions.{MachineType}
use orchestration_system.Orchestrator.Engine.Index.{machine_for}
use orchestration_system.Product.Workflow.Outcomes.{
  Meets, any_status, is, Meets-pure, Meets-gets, Meets-modify, Meets-state, Meets-or_raise,
  Meets-require, Meets-if, Meets-bind, Meets-weaker, Meets-query_rows, Meets-entry, Meets-fire_any,
}
use orchestration_system.Product.Workflow.Rests.{
  fires, fires_then, Meets-activate, Meets-approval, Meets-backlog, Meets-classification,
  Meets-consult, Meets-document, Meets-draft, Meets-feedback, Meets-log, Meets-plan, Meets-redraft,
  resting, tabled,
}

module _ (flow : ProductDefinitionWorkflow) (limit : ℕ)
    (built : flow.machine ≡ machine_for MachineType.product limit) where
  abbrev proposing : String → Bool
  proposing = is "EXPANSION_PROPOSING"

  abbrev backlogging : String → Bool
  backlogging = is "BACKLOG_GENERATING"

  rests_route_expansion :
      (spec : SpecificationResult) (r : ExpansionResolution) (actor : Option ℕ)
      (decision : PolicyDecision)
      → Meets proposing (route_expansion flow spec r actor decision) resting
  unfolding route_expansion tabled
  rests_route_expansion spec r actor PolicyDecision.auto_approve =
      Meets-bind proposing proposing resting _ _ (Meets-state proposing _) λ _.
        fires_then flow limit built proposing resting "BACKLOG_GENERATING" _ _ _ actor _ refl
          (Meets-backlog flow limit built backlogging spec actor)
  rests_route_expansion spec r actor PolicyDecision.user_approval =
      fires flow limit built proposing resting _ _ _ actor refl
  rests_route_expansion spec r actor PolicyDecision.expert_required =
      Meets-bind proposing proposing resting _ _ (Meets-consult flow limit built proposing _ _ none)
        (λ _. fires flow limit built proposing resting _ _ _ actor refl)
  rests_route_expansion spec r actor PolicyDecision.auto_blocked =
      fires flow limit built proposing resting _ _ _ actor refl

  rests_gap :
      (p : String → Bool) (spec : SpecificationResult) (gap : Bool) (missing : List String)
      (actor : Option ℕ)
      → Meets p (close_gap flow spec gap missing actor) resting
  unfolding close_gap resolve_expansion tabled
  rests_gap p spec true missing actor =
      fires_then flow limit built p resting "EXPANSION_PROPOSING" _ _ _ actor _ refl (
        Meets-bind proposing proposing resting _ _ (Meets-plan flow limit built proposing missing)
          (λ r. rests_route_expansion spec r actor r.decision))
  rests_gap p spec false missing actor =
      fires_then flow limit built p resting "BACKLOG_GENERATING" _ _ _ actor _ refl
        (Meets-backlog flow limit built backlogging spec actor)

  rests_specification :
      (p : String → Bool) (actor : Option ℕ) → Meets p (generate_specification flow actor) resting
  unfolding generate_specification tabled
  rests_specification p actor =
      let analyzing = is "CAPABILITY_ANALYZING" in
      Meets-bind p p resting _ _ (Meets-gets p _) λ analysis.
        Meets-bind p p resting _ _ (Meets-gets p _) λ spec.
          Meets-bind p p resting _ _ (Meets-document flow limit built p _ _) λ _.
            fires_then flow limit built p resting "CAPABILITY_ANALYZING" _ _ _ actor _ refl (
              Meets-bind analyzing analyzing resting _ _ (Meets-modify analyzing _) λ _.
                Meets-bind analyzing analyzing resting _ _ (Meets-gets analyzing _)
                  λ gap. rests_gap analyzing spec _ _ actor)

  rests_route_gate :
      (p : String → Bool) (analysis : CoreAnalysis) (c : ClassificationResult) (confirmed : Bool)
      (actor : Option ℕ) (gate : ClassificationGate)
      → Meets p (route_gate flow analysis c confirmed actor gate) resting
  unfolding route_gate tabled
  rests_route_gate p analysis c confirmed actor ClassificationGate.blocked =
      fires flow limit built p resting _ _ _ actor refl
  rests_route_gate p analysis c confirmed actor ClassificationGate.unsupported =
      fires flow limit built p resting _ _ _ actor refl
  rests_route_gate p analysis c true actor ClassificationGate.needs_expert =
      fires_then flow limit built p resting "REQUIREMENT_DRAFTING" _ _ _ actor _ refl
        (Meets-draft flow limit built analysis actor)
  rests_route_gate p analysis c false actor ClassificationGate.needs_expert =
      Meets-bind p p resting _ _ (Meets-consult flow limit built p _ _ none)
        (λ _. fires flow limit built p resting _ _ _ actor refl)
  rests_route_gate p analysis c confirmed actor ClassificationGate.needs_approval =
      fires flow limit built p resting _ _ _ actor refl
  rests_route_gate p analysis c confirmed actor ClassificationGate.proceed =
      fires_then flow limit built p resting "REQUIREMENT_DRAFTING" _ _ _ actor _ refl
        (Meets-draft flow limit built analysis actor)

  rests_entry : Meets any_status (entry_event flow) any_status
  unfolding entry_event
  rests_entry = record {
    at = λ w h. elim (Bool-cases (is_in "IDEA_RECEIVED" w)) [
      | inl idea ↦ rw idea refl
      | inr other ↦ elim (Bool-cases (is_in "AUTO_BLOCKED_BY_POLICY" w)) [
        | inl stopped ↦ rw (other, stopped) refl
        | inr begun ↦ rw (other, begun) refl
      ]
    ];
  }

  pub rests_run_analysis : (actor : Option ℕ) → Meets any_status (run_analysis flow actor) resting
  unfolding run_analysis tabled
  rests_run_analysis actor =
      let p = any_status in
      let classifying = is "CLASSIFYING" in
      Meets-bind p p resting _ _ rests_entry λ event.
        Meets-bind p p resting _ _ (Meets-fire_any flow limit built event none no_context actor)
          λ _. Meets-bind p p resting _ _ (Meets-gets p _) λ input.
            fires_then flow limit built p resting "CLASSIFYING" _ _ _ actor _ refl (
              Meets-bind classifying classifying resting _ _
                (Meets-classification flow limit built classifying
                  (flow.classifier (combined_text input)))
                (λ confirmed. rests_route_gate classifying _ _ confirmed actor _))

  rests_after_answer :
      (user open_count : ℕ)
      → Meets (is "WAITING_REQUIREMENT_INPUT") (after_answer flow user open_count) resting
  unfolding after_answer tabled
  rests_after_answer user open_count =
      let p = is "WAITING_REQUIREMENT_INPUT" in
      Meets-if p resting (open_count == 0) _ _
        (fires_then flow limit built p resting "REQUIREMENT_DRAFTING" _ _ _ (some user) _ refl
          (Meets-redraft flow limit built (some user)))
        (Meets-weaker p resting _ (λ s h. rw (str_eq→eq s "WAITING_REQUIREMENT_INPUT" h) refl)
          (Meets-pure p tt))

  pub rests_answer_question :
      (key answer : String) (user : ℕ)
      → Meets any_status (answer_question flow key answer user) resting
  unfolding answer_question write_answer find_question
  rests_answer_question key answer user =
      let p = is "WAITING_REQUIREMENT_INPUT" in
      Meets-entry "WAITING_REQUIREMENT_INPUT" resting _ (
        Meets-bind p p resting _ _ (Meets-query_rows p _) λ found.
          Meets-bind p p resting _ _ (Meets-or_raise p found) λ q.
            Meets-bind p p resting _ _ (Meets-require p _ _ refl) λ _.
              Meets-bind p p resting _ _ (Meets-modify p _) λ _.
                Meets-bind p p resting _ _ (Meets-log flow limit built p _ _ _) λ _.
                  Meets-bind p p resting _ _ (Meets-gets p _)
                    λ open_count. rests_after_answer user open_count)

  -- a decision: a check of the state, the row of the approval, and what follows
  rests_decision :
      (name : String) (user : ℕ) (type : ApprovalType) (decision : ApprovalDecision)
      (comment : Option String) (after : Action (Unit {0}))
      → Meets (is name) after resting
      → Meets any_status
          (gets (is_in name) >>= λ waiting. require waiting Error.workflow_state >>= λ _.
            add_approval flow user type decision comment >>= λ _. after)
          resting
  rests_decision name user type decision comment after rest = Meets-entry name resting _ (
      Meets-bind (is name) (is name) resting _ _
        (Meets-approval flow limit built (is name) user type decision comment) (λ _. rest))

  rests_after_requirements :
      (p : String → Bool) (user : ℕ) (comment : Option String) (approved : Bool)
      → Meets p (after_requirements flow user comment approved) resting
  unfolding after_requirements tabled
  rests_after_requirements p user comment true =
      fires_then flow limit built p resting "SPECIFICATION_GENERATING" _ _ _ (some user) _ refl
        (rests_specification (is "SPECIFICATION_GENERATING") (some user))
  rests_after_requirements p user comment false =
      Meets-bind p p resting _ _ (Meets-feedback flow limit built p user comment) λ _.
        fires_then flow limit built p resting "REQUIREMENT_DRAFTING" _ _ _ (some user) _ refl
          (Meets-redraft flow limit built (some user))

  pub rests_decide_requirements :
      (user : ℕ) (decision : ApprovalDecision) (comment : Option String)
      → Meets any_status (decide_requirements flow user decision comment) resting
  unfolding decide_requirements
  rests_decide_requirements user decision comment =
      rests_decision _ user _ decision comment _ (rests_after_requirements _ user comment _)

  rests_after_scope :
      (p : String → Bool) (user : ℕ) (comment : Option String) (approved : Bool)
      → Meets p (after_scope flow user comment approved) resting
  unfolding after_scope tabled
  rests_after_scope p user comment true = Meets-bind p p resting _ _ (Meets-gets p _) λ c.
      Meets-bind p p resting _ _ (Meets-log flow limit built p _ _ comment) λ _.
        fires_then flow limit built p resting "REQUIREMENT_DRAFTING" _ _ _ (some user) _ refl
          (Meets-redraft flow limit built (some user))
  rests_after_scope p user comment false = fires flow limit built p resting _ _ _ (some user) refl

  pub rests_decide_scope :
      (user : ℕ) (decision : ApprovalDecision) (comment : Option String)
      → Meets any_status (decide_reduced_scope flow user decision comment) resting
  unfolding decide_reduced_scope
  rests_decide_scope user decision comment =
      rests_decision _ user _ decision comment _ (rests_after_scope _ user comment _)

  rests_after_expansion :
      (p : String → Bool) (user : ℕ) (approved : Bool)
      → Meets p (after_expansion flow user approved) resting
  unfolding after_expansion tabled
  rests_after_expansion p user true =
      Meets-bind p p resting _ _ (Meets-activate flow limit built p) λ _.
        fires_then flow limit built p resting "BACKLOG_GENERATING" _ _ _ (some user) _ refl (
          Meets-bind backlogging backlogging resting _ _ (Meets-gets backlogging _)
            (λ spec. Meets-backlog flow limit built backlogging spec (some user)))
  rests_after_expansion p user false = fires flow limit built p resting _ _ _ (some user) refl

  pub rests_decide_expansion :
      (user : ℕ) (decision : ApprovalDecision) (comment : Option String)
      → Meets any_status (decide_expansion flow user decision comment) resting
  unfolding decide_expansion
  rests_decide_expansion user decision comment =
      rests_decision _ user _ decision comment _ (rests_after_expansion _ user _)

  pub rests_resume_gate : (p : String → Bool) (user : ℕ) → Meets p (resume_gate flow user) resting
  unfolding resume_gate tabled
  rests_resume_gate p user =
      fires_then flow limit built p resting "REQUIREMENT_DRAFTING" _ _ _ (some user) _ refl
        (Meets-redraft flow limit built (some user))

  pub rests_resume_expansion :
      (p : String → Bool) (user : ℕ) → Meets p (resume_expansion flow user) resting
  unfolding resume_expansion tabled
  rests_resume_expansion p user =
      Meets-bind p p resting _ _ (Meets-activate flow limit built p) λ _.
        fires_then flow limit built p resting "BACKLOG_GENERATING" _ _ _ (some user) _ refl (
          Meets-bind backlogging backlogging resting _ _ (Meets-gets backlogging _)
            (λ spec. Meets-backlog flow limit built backlogging spec (some user)))
