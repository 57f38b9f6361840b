-- ===== src/Agents/Levels.antt =====
-- What the policy engine decides on a definition that passed the checks.
use orchestration_system.Common.{
  ◌≡◌, refl, ap, ◌∙◌, String, Bool, true, not, ◌&&◌, ◌||◌, Option, none, some, List, str_eq,
  contains, all, arith, if◌then◌else◌, Bool-cases, inl, inr,
}
use orchestration_system.Enums.{PolicyDecision}
use orchestration_system.Policy.Schemas.{new_proposal}
use orchestration_system.Policy.Engine.{decide}
use orchestration_system.Policy.Levels.{
  level, decide-level, is_forbidden, needs_expert, needs_user, is_low_risk,
}
use orchestration_system.Agents.Schemas.{AgentDefinition, allowed_model_providers}
use orchestration_system.Agents.Checks.{
  is_acceptable, has_safe_permissions, is_within_budget, is_testable, run_validation_chain-ok,
}
use orchestration_system.Agents.Factory.{FactoryAssessment, is_persistent, derive_proposal, assess}

-- the level of an agent without forbidden permissions
unfoldable pub agent_level : AgentDefinition → PolicyDecision
agent_level defn =
    if not (str_eq defn.permissions.network "denied")
      || not (str_eq defn.permissions.shell "denied")
      || is_persistent defn.lifecycle.type
    then PolicyDecision.expert_required
    else PolicyDecision.auto_approve

safe-decide :
    (defn : AgentDefinition)
    → has_safe_permissions defn ≡ true
    → (decide (derive_proposal defn)).decision ≡ agent_level defn
unfolding has_safe_permissions derive_proposal new_proposal agent_level level is_forbidden
    needs_expert needs_user is_low_risk
safe-decide defn safe = decide-level (derive_proposal defn) ∙ ground (arith, safe)

first_holds : (a b c d e : Bool) → (a && b && c && d && e) ≡ true → a ≡ true
first_holds a b c d e h = ground (arith, h)

acceptable-safe :
    (defn : AgentDefinition) (known_mcp_ids : List String)
    → is_acceptable defn known_mcp_ids ≡ true
    → has_safe_permissions defn ≡ true
unfolding is_acceptable
acceptable-safe defn known_mcp_ids good =
    first_holds (has_safe_permissions defn) (contains allowed_model_providers defn.model.provider)
      (all (contains known_mcp_ids) defn.mcp_dependencies) (is_within_budget defn)
      (is_testable defn) good

-- the judgment of an assessment
abbrev pub decided : FactoryAssessment → Option PolicyDecision
decided assessment = elim assessment.judgment [ none ↦ none | some j ↦ some j.decision ]

-- A definition is judged only if it is acceptable; then it is never blocked: an expert decides if it
-- asks for the network or a shell or is persistent, and else it is approved, whether or not it
-- belongs to a project.
pub assess-decided :
    (defn : AgentDefinition) (known_mcp_ids : List String)
    → decided (assess defn known_mcp_ids)
      ≡ (if is_acceptable defn known_mcp_ids then some (agent_level defn) else none)
unfolding assess
assess-decided defn known_mcp_ids = elim (Bool-cases (is_acceptable defn known_mcp_ids)) [
  | inl good ↦
      rw (run_validation_chain-ok defn known_mcp_ids, good)
        (ap some (safe-decide defn (acceptable-safe defn known_mcp_ids good)))
  | inr bad ↦ rw (run_validation_chain-ok defn known_mcp_ids, bad) refl
]
