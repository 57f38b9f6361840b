-- ===== src/Agents/Validators.antt =====
-- app/agents/validators.py: the chain of checks before a definition is judged. An issue keeps its code
-- and its field; its message, a text for the user, is left out.
use orchestration_system.Common.{
  ℕ, String, Bool, not, ◌&&◌, List, [], ◌∷◌, ◌++◌, ltb, if◌then◌else◌, str_eq, contains, is_empty,
}
use orchestration_system.Agents.Schemas.{
  AgentDefinition, allowed_model_providers, filesystem_levels, network_levels, shell_levels,
}

-- MAX_INPUT_TOKENS_CAP
unfoldable pub max_input_tokens_cap : ℕ
max_input_tokens_cap = 200000

-- MAX_OUTPUT_TOKENS_CAP
unfoldable pub max_output_tokens_cap : ℕ
max_output_tokens_cap = 64000

pub record ValidationIssue : Type 0 where
  pub code : String
  pub field : String

-- `ValidationReport.issues`
abbrev pub ValidationReport : Type 0
ValidationReport = List ValidationIssue

-- `ValidationReport.ok`
abbrev pub is_ok : ValidationReport → Bool
is_ok report = is_empty report

-- `ValidationReport.add`, when a test says so
unfoldable pub add_if : Bool → String → String → ValidationReport → ValidationReport
add_if fails code field report =
    if fails then report ++ (record { code = code; field = field } ∷ []) else report

unfoldable pub validate_permissions : AgentDefinition → ValidationReport → ValidationReport
unfolding add_if filesystem_levels network_levels shell_levels
validate_permissions defn report =
    let perms = defn.permissions in
    let r1 = add_if perms.admin "perm.admin" "permissions.admin" report in
    let r2 = add_if perms.accesses_secret "perm.secret" "permissions.accesses_secret" r1 in
    let r3 =
      add_if (not (contains filesystem_levels perms.filesystem)) "perm.fs" "permissions.filesystem"
        r2 in
    let r4 =
      add_if (not (contains network_levels perms.network)) "perm.net" "permissions.network" r3 in
    let r5 = add_if (not (contains shell_levels perms.shell)) "perm.shell" "permissions.shell" r4 in
    add_if (str_eq perms.filesystem "read_write_scoped" && is_empty defn.scope.allowed_paths)
      "perm.unscoped_write" "scope.allowed_paths" r5

unfoldable pub validate_model : AgentDefinition → ValidationReport → ValidationReport
unfolding add_if allowed_model_providers
validate_model defn report =
    add_if (not (contains allowed_model_providers defn.model.provider)) "model.provider"
      "model.provider" report

-- The loop of `validate_mcp_dependencies`
unfoldable pub check_dependencies : List String → List String → ValidationReport → ValidationReport
unfolding add_if
check_dependencies [] known report = report
check_dependencies (dep ∷ deps) known report =
    check_dependencies deps known
      (add_if (not (contains known dep)) "mcp.unknown" "mcp_dependencies" report)

unfoldable pub validate_mcp_dependencies :
    AgentDefinition → List String → ValidationReport → ValidationReport
unfolding check_dependencies
validate_mcp_dependencies defn known report = check_dependencies defn.mcp_dependencies known report

unfoldable pub validate_token_budget : AgentDefinition → ValidationReport → ValidationReport
unfolding add_if max_input_tokens_cap max_output_tokens_cap
validate_token_budget defn report =
    add_if (ltb max_output_tokens_cap defn.token_budget.max_output_tokens) "budget.output"
      "token_budget.max_output_tokens"
      (add_if (ltb max_input_tokens_cap defn.token_budget.max_input_tokens) "budget.input"
        "token_budget.max_input_tokens" report)

unfoldable pub validate_sandbox : AgentDefinition → ValidationReport → ValidationReport
unfolding add_if
validate_sandbox defn report =
    add_if (str_eq defn.permissions.filesystem "read_write_scoped" && is_empty defn.quality_gates)
      "sandbox.no_quality_gate" "quality_gates"
      (add_if (is_empty defn.capabilities) "sandbox.no_capability" "capabilities" report)

unfoldable pub run_validation_chain : AgentDefinition → List String → ValidationReport
unfolding validate_permissions validate_model validate_mcp_dependencies validate_token_budget
    validate_sandbox
run_validation_chain defn known_mcp_ids =
    let r1 = validate_permissions defn [] in
    let r2 = validate_model defn r1 in
    let r3 = validate_mcp_dependencies defn known_mcp_ids r2 in
    let r4 = validate_token_budget defn r3 in validate_sandbox defn r4
