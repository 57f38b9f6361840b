-- ===== src/Api/Served.antt =====
-- A project's life: its requests one after another, and the writes of other code. The workflow alone
-- calls `fire`.
use orchestration_system.Common.{ℕ, String, ◌≡◌, true, Option, some, []}
use orchestration_system.Enums.{ApprovalType, ApprovalDecision}
use orchestration_system.Database.{Env, Db}
use orchestration_system.Orchestrator.Machine.{Result, ok, err, World}
use orchestration_system.Orchestrator.Transitions.{MachineType}
use orchestration_system.Orchestrator.Engine.{Call, fire}
use orchestration_system.Orchestrator.Engine.Index.{machine_for}
use orchestration_system.Product.Workflow.Store.{ProductDefinitionWorkflow}
use orchestration_system.Product.Workflow.Saves.{is_workflow_event, Resumes, fire-Resumes}
use orchestration_system.Api.Answers.{Answers, serve-answers}
use orchestration_system.Product.Workflow.Rules.{
  Keeps, Elsewhere, Keeps-bind, Keeps-pure, Keeps-raise,
}
use orchestration_system.Product.Workflow.Keeps.{Keeps-run_analysis}
use orchestration_system.Product.Workflow.Decides.{
  Keeps-answer_question, Keeps-decide_requirements, Keeps-decide_scope, Keeps-decide_expansion,
  Keeps-consultation_answer, Keeps-manual,
}
use orchestration_system.Api.{
  Request, analyze_project, answer_request, decide_request, answer_consultation,
  create_consultation, decide, handle, respond, serve,
}

module _ (flow : ProductDefinitionWorkflow) (P : World → Type 0)
    (fires : (c : Call) (w : World)
      → is_workflow_event c.event ≡ true
      → P w
      → P (fire flow.env flow.machine c w).1)
    (writes : (w : World) (d : Db) → Elsewhere d w.db → P w → P (record w { db = d })) where
  Keeps-decide :
      (user : ℕ) (type : ApprovalType) (decision : ApprovalDecision) (comment : Option String)
      → Keeps P (decide flow user decision comment type)
  unfolding decide
  Keeps-decide user ApprovalType.requirements decision comment =
      Keeps-decide_requirements flow P fires writes user decision comment
  Keeps-decide user ApprovalType.reduced_scope decision comment =
      Keeps-decide_scope flow P fires writes user decision comment
  Keeps-decide user ApprovalType.expansion decision comment =
      Keeps-decide_expansion flow P fires writes user decision comment
  Keeps-decide user ApprovalType.plan decision comment = Keeps-raise P _
  Keeps-decide user ApprovalType.result decision comment = Keeps-raise P _

  Keeps-handle : (request : Request) → Keeps P (handle flow request)
  unfolding handle
  Keeps-handle (analyze_project user) = Keeps-run_analysis flow P fires writes (some user)
  Keeps-handle (answer_request user key answer) =
      Keeps-answer_question flow P fires writes key answer user
  Keeps-handle (decide_request user type decision comment) = Keeps-decide user type decision comment
  Keeps-handle (answer_consultation user key answer resolution) =
      Keeps-consultation_answer flow P fires writes user key answer resolution
  Keeps-handle (create_consultation user) =
      Keeps-bind P _ _ (Keeps-manual flow P fires writes user) (λ _. Keeps-pure P tt)

  -- What every call of `fire` keeps, and no write to other tables breaks, holds after a request.
  keeps_serve : (request : Request) (w : World) → P w → P (serve flow request w).1
  unfolding serve respond
  keeps_serve request w h = by_outcome (handle flow request w) ((Keeps-handle request).at w h)
    where
      by_outcome : (o : Result (Unit {0}) × World) → P o.1 → P (respond request w o).1
      by_outcome (ok done, u) after = after
      by_outcome (err e, u) after = h

module _ (env : Env) (limit : ℕ) where
  -- `requested`: a request is served, with agents, patterns and a configuration of its own.
  -- `elsewhere`: other code writes to tables of its own, or another project is loaded.
  pub data Life (start : World) : World → Type 0 where
    begun : Life start start
    requested :
        {w u : World} (flow : ProductDefinitionWorkflow) (request : Request)
        → flow.env ≡ env
        → flow.machine ≡ machine_for MachineType.product limit
        → Life start w
        → u ≡ (serve flow request w).1
        → Life start u
    elsewhere :
        {w u : World}
        → Life start w
        → u.db.events ≡ w.db.events
        → u.db.checkpoints ≡ w.db.checkpoints
        → Life start u

  -- What holds at the start, is kept by every event of the workflow, and is not broken by other writes,
  -- holds at any time of a life.
  Life-induction :
      (P : World → Type 0)
      → ((c : Call) (w : World)
          → is_workflow_event c.event ≡ true
          → P w
          → P (fire env (machine_for MachineType.product limit) c w).1)
      → ((w u : World) → Elsewhere u.db w.db → P w → P u)
      → {start w : World} → P start
      → Life start w
      → P w
  Life-induction P fires writes h begun = h
  Life-induction P fires writes h (requested {w = w} flow request same built before after) =
      rw after (
        keeps_serve flow P (λ c u known. rw (same, built) (fires c u known))
          (λ u d beside. writes u (record u { db = d }) beside) request w
          (Life-induction P fires writes h before))
  Life-induction P fires writes h (elsewhere {w = w} {u = u} before events checkpoints) =
      writes w u (events, checkpoints) (Life-induction P fires writes h before)

  -- Starting from a table with no checkpoints, after whatever requests to the workflow for whatever
  -- projects, mixed with any writes to other tables, every such request is either served, with its
  -- success code, and leaves the project at rest (the material for a developer leaves its status alone),
  -- or is answered with the code of an error and leaves the database as it was. The error is never a
  -- failed assertion: a 500 comes from a constraint of the database or a query. All requests run with
  -- the product machine and one limit of retries.
  pub Life-Answers :
      {start w : World}
      → start.db.checkpoints ≡ []
      → Life start w
      → (flow : ProductDefinitionWorkflow) → flow.machine ≡ machine_for MachineType.product limit
      → (request : Request) → Answers flow request w (serve flow request w)
  Life-Answers {w = w} no_checkpoints life flow built = serve-answers flow limit w built (
      Life-induction Resumes (λ c u known. fire-Resumes env limit c u known)
        (λ v u beside. λ saved. rw (beside.1) saved) (rw no_checkpoints tt) life)
