-- ===== src/Api/Answers.antt =====
-- Every request has an answer of the kinds that the API documents, and leaves the project at rest.
use orchestration_system.Common.{ℕ, String, Option, some, ◌≡◌, refl, Bool, true, str_eq, eq→str_eq}
use orchestration_system.Enums.{ApprovalType, ApprovalDecision}
use orchestration_system.Orchestrator.Machine.{Error, Result, ok, err, World}
use orchestration_system.Orchestrator.Transitions.{MachineType}
use orchestration_system.Orchestrator.Engine.Index.{machine_for}
use orchestration_system.Product.Workflow.Action.{◌>>=◌}
use orchestration_system.Product.Workflow.Store.{ProductDefinitionWorkflow}
use orchestration_system.Product.Workflow.Consult.{consult, create_manual_consultation}
use orchestration_system.Product.Workflow.Outcomes.{expected, Holds}
use orchestration_system.Product.Workflow.Rests.{resting}
use orchestration_system.Product.Workflow.Returns.{
  rests_run_analysis, rests_answer_question, rests_decide_requirements, rests_decide_scope,
  rests_decide_expansion,
}
use orchestration_system.Product.Workflow.Saves.{Resumes}
use orchestration_system.Product.Workflow.Replies.{rests_consultation_answer}
use orchestration_system.Api.{
  Request, analyze_project, answer_request, decide_request, answer_consultation,
  create_consultation, decide, handle, success_code, error_code, respond, serve,
}

-- The test of the status after a request that was served: the material for a developer leaves it alone.
abbrev pub rests_after : Request → World → String → Bool
rests_after (create_consultation user) w s = str_eq s w.subject.status
rests_after _ w s = resting s

-- The response, and the world after it
pub data Answers (flow : ProductDefinitionWorkflow) (request : Request) (w : World)
    : ℕ × World → Type 0 where
  served :
      {u : World}
      → handle flow request w ≡ (ok tt, u)
      → rests_after request w u.subject.status ≡ true
      → Answers flow request w (success_code request, u)
  failed :
      {u : World} (e : Error)
      → handle flow request w ≡ (err e, u)
      → expected e ≡ true
      → Answers flow request w (error_code e, w)

module _ (flow : ProductDefinitionWorkflow) (limit : ℕ) (w : World)
    (built : flow.machine ≡ machine_for MachineType.product limit) (saved : Resumes w) where
  answers_decision :
      (user : ℕ) (type : ApprovalType) (decision : ApprovalDecision) (comment : Option String)
      → Holds resting (decide flow user decision comment type w)
  unfolding decide
  answers_decision user ApprovalType.requirements decision comment =
      (rests_decide_requirements flow limit built user decision comment).at w refl
  answers_decision user ApprovalType.reduced_scope decision comment =
      (rests_decide_scope flow limit built user decision comment).at w refl
  answers_decision user ApprovalType.expansion decision comment =
      (rests_decide_expansion flow limit built user decision comment).at w refl
  answers_decision user ApprovalType.plan decision comment = refl
  answers_decision user ApprovalType.result decision comment = refl

  answers : (request : Request) → Holds (rests_after request w) (handle flow request w)
  unfolding handle
  answers (analyze_project user) = (rests_run_analysis flow limit built (some user)).at w refl
  answers (answer_request user key answer) =
      (rests_answer_question flow limit built key answer user).at w refl
  answers (decide_request user type decision comment) = answers_decision user type decision comment
  answers (answer_consultation user key answer resolution) =
      (rests_consultation_answer flow limit built user key answer resolution).at w saved
  answers (create_consultation user) =
      (unfold ◌>>=◌ create_manual_consultation consult in
        eq→str_eq w.subject.status w.subject.status refl)

  -- If the project's checkpoints hold states from which the workflow goes on, every request is either
  -- served, with its success code, and leaves the project at rest (the material for a developer leaves
  -- its status alone), or is answered with the code of an error and leaves the database as it was. The
  -- error is never a failed assertion: a 500 comes from a constraint of the database or a query.
  pub serve-answers : (request : Request) → Answers flow request w (serve flow request w)
  unfolding serve respond
  serve-answers request = by_outcome (handle flow request w) refl (answers request)
    where
      by_outcome :
          (o : Result (Unit {0}) × World)
          → handle flow request w ≡ o
          → Holds (rests_after request w) o
          → Answers flow request w (respond request w o)
      by_outcome (ok tt, u) same rests = served same rests
      by_outcome (err e, u) same known = failed e same known
