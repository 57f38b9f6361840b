-- ===== src/Product/Workflow/Specify.antt =====
-- app/product/workflow.py: the specification, the gap analysis, the expansion and the backlog.
use Prim.Native.String.{◌++◌}
use orchestration_system.Common.{
  ℕ, String, Bool, true, false, ◌&&◌, Option, none, some, List, [], ◌∷◌, map, ◌==◌, if◌then◌else◌,
  str_eq, filter, join,
}
use orchestration_system.Enums.{PolicyDecision, DocumentType, ConsultationTrigger}
use orchestration_system.Database.{Db, ProjectRequirement, order_by}
use orchestration_system.Product.Schemas.{RequirementDraft, CoreAnalysis, SpecificationResult}
use orchestration_system.Product.Backlog.{render_backlog_markdown}
use orchestration_system.Memory.Decisions.{active_decisions}
use orchestration_system.Capabilities.Schemas.{has_gap}
use orchestration_system.Capabilities.Registry.{ensure_seeded}
use orchestration_system.Capabilities.Matcher.{text_less, analyze}
use orchestration_system.Expansion.Service.{
  ExpansionResolution, plan_and_judge, activate, approve_pending,
}
use orchestration_system.Orchestrator.Machine.{World}
use orchestration_system.Product.Workflow.Action.{Action, gets, state, modify, ◌>>=◌, ◌>>◌}
use orchestration_system.Product.Workflow.Store.{
  ProductDefinitionWorkflow, no_context, with_decision, with_missing, collect_input, fire_event,
  save_generated_document,
}
use orchestration_system.Product.Workflow.Consult.{consult, expansion_context}

-- `RequirementStore.list_active`
unfoldable pub active_requirements : ℕ → Db → List ProjectRequirement
active_requirements project db =
    order_by (λ r s. text_less r.req_key s.req_key)
      (filter (λ r. r.project_id == project && r.is_active) db.requirements)

unfoldable pub draft_of : ProjectRequirement → RequirementDraft
draft_of r = record {
  key = r.req_key;
  description = r.description;
  status = r.status;
  category = r.category;
  priority = r.priority;
}

-- `resolution.reason or "…"`
abbrev reason_or : String → String → String
reason_or reason other = if str_eq reason "" then other else reason

-- `alt_text` of a blocked expansion
abbrev alternatives_text : List String → String
alternatives_text [] = ""
alternatives_text (a ∷ more) = "\n대안: " ++ join " / " (a ∷ more)

module _ (flow : ProductDefinitionWorkflow) where
  unfoldable pub analysis_of : World → CoreAnalysis
  unfolding collect_input
  analysis_of w = flow.core_agent (collect_input flow w)

  -- `_build_spec`
  unfoldable pub build_spec : World → SpecificationResult
  unfolding analysis_of active_requirements draft_of active_decisions
  build_spec w = flow.specification_agent (record {
    project_name = flow.name;
    project_goal = (analysis_of w).project_goal;
    deliverable_type = (analysis_of w).deliverable_type;
    requirements = map draft_of (active_requirements w.subject.id w.db);
    decisions = map (λ d. (d.title, d.decision)) (active_decisions w.subject.id w.db);
  })

  -- `_generate_backlog`
  unfoldable pub generate_backlog : SpecificationResult → Option ℕ → Action (Unit {0})
  generate_backlog spec actor = do
    save_generated_document flow DocumentType.backlog (render_backlog_markdown flow.name spec)
    fire_event flow "BACKLOG_READY_EXISTING"
        (some "요구사항이 승인되어 개발 준비가 끝났습니다. PRD와 Backlog를 확인할 수 있습니다.") no_context actor

  -- The `match` of `_resolve_expansion`
  unfoldable pub route_expansion :
      SpecificationResult → ExpansionResolution → Option ℕ → PolicyDecision → Action (Unit {0})
  unfolding generate_backlog
  route_expansion spec resolution actor PolicyDecision.auto_approve = do
    state (activate flow.env resolution)
    fire_event flow "PROPOSAL_AUTO_APPROVED"
        (some (reason_or resolution.reason "필요한 확장을 자동으로 준비했습니다."))
        (with_decision PolicyDecision.auto_approve) actor
    generate_backlog spec actor
  route_expansion spec resolution actor PolicyDecision.user_approval =
      fire_event flow "PROPOSAL_NEEDS_USER"
        (some (resolution.reason ++ "\n승인 화면에서 이 확장을 진행할지 결정해 주세요."))
        (with_decision PolicyDecision.user_approval) actor
  route_expansion spec resolution actor PolicyDecision.expert_required = do
    consult flow ConsultationTrigger.expert_required (expansion_context flow resolution) none
    fire_event flow "PROPOSAL_NEEDS_EXPERT" (some resolution.reason)
        (with_decision PolicyDecision.expert_required) actor
  route_expansion spec resolution actor PolicyDecision.auto_blocked =
      fire_event flow "PROPOSAL_BLOCKED"
        (some (resolution.reason ++ alternatives_text resolution.alternatives))
        (with_decision PolicyDecision.auto_blocked) actor

  unfoldable pub plan_missing : List String → Action ExpansionResolution
  unfolding plan_and_judge
  plan_missing missing w = state (plan_and_judge flow.env flow.expansion w.subject.id missing) w

  -- `_resolve_expansion`
  unfoldable pub resolve_expansion :
      SpecificationResult → List String → Option ℕ → Action (Unit {0})
  unfolding plan_missing route_expansion
  resolve_expansion spec missing actor = do
    resolution ← plan_missing missing
    route_expansion spec resolution actor resolution.decision

  -- What `_generate_specification` does with the gap
  unfoldable pub close_gap : SpecificationResult → Bool → List String → Option ℕ → Action (Unit {0})
  unfolding resolve_expansion generate_backlog
  close_gap spec true missing actor = do
    fire_event flow "GAP_FOUND" none (with_missing missing) actor
    resolve_expansion spec missing actor
  close_gap spec false missing actor = do
    fire_event flow "NO_GAP_FOUND" none (with_missing missing) actor
    generate_backlog spec actor

  -- `_generate_specification`
  unfoldable pub generate_specification : Option ℕ → Action (Unit {0})
  unfolding close_gap
  generate_specification actor = do
    analysis ← gets analysis_of
    spec ← gets build_spec
    save_generated_document flow DocumentType.prd spec.prd_markdown
    fire_event flow "SPEC_COMPLETED" none no_context actor
    modify (ensure_seeded flow.env flow.capabilities_config)
    gap ← gets (λ w. analyze w.db analysis.required_capabilities)
    close_gap spec (has_gap gap) gap.missing actor

  -- `_activate_pending_expansions`
  unfoldable pub activate_pending_expansions : Action (List String)
  activate_pending_expansions w = state (approve_pending flow.env w.subject.id) w
