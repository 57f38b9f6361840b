-- ===== src/Agents/Checks.antt =====
-- The chain of checks finds no issue exactly when the definition meets every condition.
use orchestration_system.Common.{
  String, Bool, true, false, not, ◌&&◌, ◌||◌, ◌≡◌, refl, ◌∙◌, ap, List, [], ◌∷◌, leb, str_eq,
  contains, is_empty, all, arith,
}
use orchestration_system.Agents.Schemas.{
  AgentDefinition, allowed_model_providers, filesystem_levels, network_levels, shell_levels,
}
use orchestration_system.Agents.Validators.{
  ValidationReport, is_ok, add_if, validate_permissions, validate_model, check_dependencies,
  validate_mcp_dependencies, validate_token_budget, validate_sandbox, run_validation_chain,
  max_input_tokens_cap, max_output_tokens_cap,
}

abbrev writes_files : AgentDefinition → Bool
writes_files defn = str_eq defn.permissions.filesystem "read_write_scoped"

-- no forbidden permission, known levels, and paths for what writes files
unfoldable pub has_safe_permissions : AgentDefinition → Bool
has_safe_permissions defn =
    not defn.permissions.admin
    && not defn.permissions.accesses_secret
    && contains filesystem_levels defn.permissions.filesystem
    && contains network_levels defn.permissions.network
    && contains shell_levels defn.permissions.shell
    && (not (writes_files defn) || not (is_empty defn.scope.allowed_paths))

unfoldable pub is_within_budget : AgentDefinition → Bool
is_within_budget defn =
    leb defn.token_budget.max_input_tokens max_input_tokens_cap
    && leb defn.token_budget.max_output_tokens max_output_tokens_cap

-- a capability, and a quality gate for what writes files
unfoldable pub is_testable : AgentDefinition → Bool
is_testable defn =
    not (is_empty defn.capabilities)
    && (not (writes_files defn) || not (is_empty defn.quality_gates))

unfoldable pub is_acceptable : AgentDefinition → List String → Bool
is_acceptable defn known_mcp_ids =
    has_safe_permissions defn
    && contains allowed_model_providers defn.model.provider
    && all (contains known_mcp_ids) defn.mcp_dependencies
    && is_within_budget defn
    && is_testable defn

add_if-ok :
    (fails : Bool) (code field : String) (report : ValidationReport)
    → is_ok (add_if fails code field report) ≡ (not fails && is_ok report)
unfolding add_if
add_if-ok false code field report = refl
add_if-ok true code field [] = refl
add_if-ok true code field (issue ∷ report) = refl

check_dependencies-ok :
    (deps known : List String) (report : ValidationReport)
    → is_ok (check_dependencies deps known report) ≡ (all (contains known) deps && is_ok report)
unfolding check_dependencies
check_dependencies-ok [] known report = refl
check_dependencies-ok (dep ∷ deps) known report =
    check_dependencies-ok deps known
      (add_if (not (contains known dep)) "mcp.unknown" "mcp_dependencies" report)
    ∙ rw add_if-ok (ground arith)

module _ (defn : AgentDefinition) (report : ValidationReport) where
  validate_permissions-ok :
      is_ok (validate_permissions defn report) ≡ (has_safe_permissions defn && is_ok report)
  unfolding validate_permissions has_safe_permissions
  validate_permissions-ok = simp add_if-ok (ground arith)

  validate_token_budget-ok :
      is_ok (validate_token_budget defn report) ≡ (is_within_budget defn && is_ok report)
  unfolding validate_token_budget is_within_budget
  validate_token_budget-ok = simp add_if-ok (ground arith)

  validate_sandbox-ok : is_ok (validate_sandbox defn report) ≡ (is_testable defn && is_ok report)
  unfolding validate_sandbox is_testable
  validate_sandbox-ok = simp add_if-ok (ground arith)

-- the checks in the order in which the chain adds to the report
gather :
    (a b c d e : Bool) → (e && (d && (c && (not (not b) && (a && true))))) ≡ (a && b && c && d && e)
gather a b c d e = ground arith

-- A definition passes the chain of checks exactly when it has no forbidden permission, its levels
-- and its model are known, its dependencies are registered, its budget is within the caps, it has a
-- capability, and, if it writes files, it has paths and a quality gate.
pub run_validation_chain-ok :
    (defn : AgentDefinition) (known_mcp_ids : List String)
    → is_ok (run_validation_chain defn known_mcp_ids) ≡ is_acceptable defn known_mcp_ids
unfolding run_validation_chain validate_model validate_mcp_dependencies is_acceptable
run_validation_chain-ok defn known_mcp_ids =
    let deps = all (contains known_mcp_ids) defn.mcp_dependencies in
    let knows = contains allowed_model_providers defn.model.provider in
    let r1 = validate_permissions defn [] in
    let r2 = validate_model defn r1 in
    let r3 = validate_mcp_dependencies defn known_mcp_ids r2 in
    validate_sandbox-ok defn (validate_token_budget defn r3)
    ∙ ap (λ x. is_testable defn && x)
        (validate_token_budget-ok defn r3
          ∙ ap (λ x. is_within_budget defn && x)
              (check_dependencies-ok defn.mcp_dependencies known_mcp_ids r2
                ∙ ap (λ x. deps && x)
                    (add_if-ok (not knows) "model.provider" "model.provider" r1
                      ∙ ap (λ x. not (not knows) && x) (validate_permissions-ok defn []))))
    ∙ gather (has_safe_permissions defn) knows deps (is_within_budget defn) (is_testable defn)
