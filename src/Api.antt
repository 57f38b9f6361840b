-- ===== src/Api.antt =====
-- app/api/projects.py, approvals.py and requirements.py: the requests that run the workflow. A handler
-- commits after the workflow has returned; the session of one that raises is closed without a commit.
pub mod Answers
pub mod Documents
pub mod Owners
pub mod Projects
pub mod Queries
pub mod Refusals
pub mod Served
use orchestration_system.Common.{ℕ, String, Option, none, some}
use orchestration_system.Enums.{ApprovalType, ApprovalDecision}
use orchestration_system.Orchestrator.Machine.{Error, Result, ok, err, World}
use orchestration_system.Product.Workflow.Action.{Action, pure, raise, ◌>>=◌, ◌>>◌}
use orchestration_system.Product.Workflow.Store.{ProductDefinitionWorkflow}
use orchestration_system.Product.Workflow.Consult.{create_manual_consultation}
use orchestration_system.Product.Workflow.Draft.{run_analysis}
use orchestration_system.Product.Workflow.Handlers.{
  answer_question, decide_requirements, decide_reduced_scope, decide_expansion,
  apply_consultation_answer,
}

-- A request of a user, with its payload
pub data Request : Type 0 where
  -- POST …/analyze
  analyze_project : ℕ → Request
  -- POST …/questions/{key}/answer
  answer_request : ℕ → String → String → Request
  -- POST …/approvals
  decide_request : ℕ → ApprovalType → ApprovalDecision → Option String → Request
  -- POST …/consultation/answers, with the question's key, the answer and the resolution
  answer_consultation : ℕ → String → String → String → Request
  -- POST …/consultation
  create_consultation : ℕ → Request

module _ (flow : ProductDefinitionWorkflow) where
  -- `decide` of approvals.py
  unfoldable pub decide : ℕ → ApprovalDecision → Option String → ApprovalType → Action (Unit {0})
  decide user decision comment ApprovalType.requirements =
      decide_requirements flow user decision comment
  decide user decision comment ApprovalType.reduced_scope =
      decide_reduced_scope flow user decision comment
  decide user decision comment ApprovalType.expansion = decide_expansion flow user decision comment
  decide user decision comment ApprovalType.plan = raise Error.unsupported_approval
  decide user decision comment ApprovalType.result = raise Error.unsupported_approval

  -- What an endpoint has the workflow do
  unfoldable pub handle : Request → Action (Unit {0})
  unfolding decide
  handle (analyze_project user) = run_analysis flow (some user)
  handle (answer_request user key answer) = answer_question flow key answer user
  handle (decide_request user type decision comment) = decide user decision comment type
  handle (answer_consultation user key answer resolution) =
      apply_consultation_answer flow user key answer resolution
  handle (create_consultation user) = create_manual_consultation flow user >> pure tt

-- the code of a request that succeeds
abbrev pub success_code : Request → ℕ
success_code (create_consultation user) = 201
success_code _ = 200

-- `except (WorkflowStateError, StateMachineError)` gives 409; what nothing catches gives 500.
unfoldable pub error_code : Error → ℕ
error_code Error.workflow_state = 409
error_code Error.illegal_transition = 409
error_code Error.guard_rejected = 409
error_code Error.unsupported_approval = 400
error_code _ = 500

unfoldable pub respond : Request → World → Result (Unit {0}) × World → ℕ × World
unfolding error_code
respond request before (ok done, after) = (success_code request, after)
respond request before (err e, after) = (error_code e, before)

-- The status code of the response, and what the database holds after the request
unfoldable pub serve : ProductDefinitionWorkflow → Request → World → ℕ × World
unfolding handle respond
serve flow request w = respond request w (handle flow request w)
