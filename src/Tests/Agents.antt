-- ===== src/Tests/Agents.antt =====
-- Agents and timeouts: the theorems at concrete inputs.
use orchestration_system.Common.{
  ℕ, String, ◌≡◌, refl, true, false, none, some, List, [], ◌∷◌, arith, str_eq,
}
use orchestration_system.Enums.{PolicyDecision, AgentLifecycleType, AgentStatus}
use orchestration_system.Database.{Env, Db, empty_db}
use orchestration_system.Orchestrator.Transitions.{MachineType}
use orchestration_system.Orchestrator.Timeouts.{TimeoutNotification, Limits, check}
use orchestration_system.Orchestrator.Timeouts.Once.{check-once}
use orchestration_system.Agents.Schemas.{AgentDefinition}
use orchestration_system.Agents.Validators.{is_ok, run_validation_chain}
use orchestration_system.Agents.Factory.{assess}
use orchestration_system.Agents.Registry.{register}
use orchestration_system.Agents.Checks.{
  is_acceptable, has_safe_permissions, is_within_budget, is_testable, run_validation_chain-ok,
}
use orchestration_system.Agents.Levels.{agent_level, decided, assess-decided}

abbrev env : Env
env = record { utc_now = λ n. n; uuid4 = λ n. n }

abbrev writer : AgentDefinition
writer = record {
  id = "docs-writer";
  name = "Docs writer";
  version = "1.0.0";
  purpose = "writes the documents";
  model = record { provider = "mock"; adapter = "mock" };
  scope = record { project_id = none; allowed_paths = "docs/" ∷ [] };
  capabilities = "documentation" ∷ [];
  mcp_dependencies = "internal-docs-mcp" ∷ [];
  permissions = record {
    filesystem = "read_write_scoped";
    network = "denied";
    shell = "denied";
    admin = false;
    accesses_secret = false;
  };
  rules = [];
  quality_gates = "lint" ∷ [];
  token_budget = record { max_input_tokens = 200000; max_output_tokens = 8000 };
  lifecycle = record { type = AgentLifecycleType.project_scoped; expires_after_project = true };
}

abbrev known : List String
known = "internal-docs-mcp" ∷ []

-- what a run of the factory computes with
assessing : ℕ
unfolding assess is_acceptable agent_level str_eq check has_safe_permissions is_within_budget
    is_testable
assessing = 0

-- It belongs to no project, and the rule for reading tools approves it.
writer_rule :
    (assess writer known).judgment
    ≡ some (record {
      decision = PolicyDecision.auto_approve;
      matched_rule = "auto:readonly_lowrisk_mcp";
      reason = "읽기 전용이며 위험도가 낮은 도구를 켜므로 자동으로 진행합니다.";
      alternatives = [];
    })
unfolding assessing
writer_rule = refl

assess-decided_example : decided (assess writer known) ≡ some PolicyDecision.auto_approve
unfolding assessing
assess-decided_example = assess-decided writer known

unknown_dependency :
    run_validation_chain writer []
    ≡ record { code = "mcp.unknown"; field = "mcp_dependencies" } ∷ []
unfolding assessing
unknown_dependency = refl

run_validation_chain-ok_example : is_ok (run_validation_chain writer known) ≡ true
unfolding assessing
run_validation_chain-ok_example = run_validation_chain-ok writer known

abbrev with_writer : Db
with_writer = register env writer (some 7) AgentStatus.active empty_db

abbrev limits : Limits
limits = ("USER_APPROVAL_REQUIRED", 1) ∷ []

abbrev waiting : Db
waiting = record empty_db {
  made = 5;
  events =
      record {
        id = 1;
        subject_type = "project";
        subject_id = 7;
        machine = MachineType.product;
        event = "PROPOSAL_NEEDS_USER";
        from_state = "EXPANSION_PLANNING";
        to_state = "USER_APPROVAL_REQUIRED";
        idempotency_key = none;
        created_at = 2;
      }
      ∷ [];
}

abbrev told : TimeoutNotification
told = record {
  subject_type = "project";
  subject_id = 7;
  state = "USER_APPROVAL_REQUIRED";
  entered_at = 2;
  limit_seconds = 1;
}

first_told : (check env limits "project" 7 "USER_APPROVAL_REQUIRED" 1000003 waiting).0 ≡ some told
unfolding assessing
first_told = refl

check-once_example :
    (check env limits "project" 7 "USER_APPROVAL_REQUIRED" 9000000
      (check env limits "project" 7 "USER_APPROVAL_REQUIRED" 1000003 waiting).1).0
    ≡ none
unfolding assessing
check-once_example =
    check-once env limits "project" 7 "USER_APPROVAL_REQUIRED" 1000003 9000000 waiting
      (check env limits "project" 7 "USER_APPROVAL_REQUIRED" 1000003 waiting).1 [] first_told
      (omega arith) refl refl
