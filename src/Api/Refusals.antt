-- ===== src/Api/Refusals.antt =====
-- What a request that fails leaves, and in which states each request is served.
use mathlib.Core.Bool.{false≢true}
use Prim.Native.String.{◌++◌}
use orchestration_system.Common.{
  update, not, ◌&&◌, ◌==◌, ap, Option, some, Bool-cases, or-true_left, or-true_right, ℕ, String,
  ◌≡◌, refl, sym, ◌∙◌, Bool, true, false, List, [], ◌∷◌, contains, inl, inr,
}
use orchestration_system.Enums.{ApprovalType, ApprovalDecision, QuestionStatus, DecisionSource}
use orchestration_system.Database.{Db, RequirementQuestion}
use orchestration_system.Memory.Decisions.{add_decision}
use orchestration_system.Orchestrator.Subjects.{is_status}
use orchestration_system.Orchestrator.Machine.{Error, err, World}
use orchestration_system.Product.Workflow.Action.{Action, gets, require, is_in, ◌>>=◌}
use orchestration_system.Product.Workflow.Store.{ProductDefinitionWorkflow, of_project}
use orchestration_system.Product.Workflow.Draft.{run_analysis, entry_event}
use orchestration_system.Product.Workflow.Handlers.{
  answer_question, decide_requirements, decide_reduced_scope, decide_expansion,
  apply_consultation_answer, answered_question,
}
use orchestration_system.Api.{
  Request, analyze_project, answer_request, decide_request, answer_consultation,
  create_consultation, error_code, respond, serve,
}

-- the states in which an approval of a type is awaited; two types are not supported
abbrev awaited : ApprovalType → List String
awaited ApprovalType.requirements = "WAITING_REQUIREMENT_APPROVAL" ∷ []
awaited ApprovalType.reduced_scope = "WAITING_APPROVAL" ∷ []
awaited ApprovalType.expansion = "WAITING_EXPANSION_APPROVAL" ∷ []
awaited ApprovalType.plan = []
awaited ApprovalType.result = []

-- Whether a request can be served in a state at all
abbrev pub serves_in : Request → String → Bool
serves_in (analyze_project user) s = contains ("IDEA_RECEIVED" ∷ "AUTO_BLOCKED_BY_POLICY" ∷ []) s
serves_in (answer_request user key answer) s = contains ("WAITING_REQUIREMENT_INPUT" ∷ []) s
serves_in (decide_request user type decision comment) s = contains (awaited type) s
serves_in (answer_consultation user key answer resolution) s =
    contains ("WAITING_EXPERT_CONFIRMATION" ∷ []) s
serves_in (create_consultation user) s = true

-- the code of a refusal
abbrev pub refusal_code : Request → ℕ
refusal_code (decide_request user ApprovalType.plan decision comment) = 400
refusal_code (decide_request user ApprovalType.result decision comment) = 400
refusal_code _ = 409

-- A method that begins with the check of its state raises outside it.
entry-raises :
    {A : Type 0} (name : String) (k : Action A) (w : World)
    → contains (name ∷ []) w.subject.status ≡ false
    → (gets (is_in name) >>= λ waiting. require waiting Error.workflow_state >>= λ _. k) w
      ≡ (err Error.workflow_state, w)
unfolding ◌>>=◌
entry-raises name k w outside = elim (Bool-cases (is_in name w)) [
  | inl inside ↦ absurd (false≢true (sym outside ∙ or-true_left false inside))
  | inr missing ↦ rw missing refl
]

-- `run_analysis` begins with a check of two states.
run_analysis-raises :
    (flow : ProductDefinitionWorkflow) (actor : Option ℕ) (w : World)
    → contains ("IDEA_RECEIVED" ∷ "AUTO_BLOCKED_BY_POLICY" ∷ []) w.subject.status ≡ false
    → run_analysis flow actor w ≡ (err Error.workflow_state, w)
unfolding run_analysis entry_event ◌>>=◌
run_analysis-raises flow actor w outside = elim (Bool-cases (is_in "IDEA_RECEIVED" w)) [
  | inl idea ↦ absurd (false≢true (sym outside ∙ or-true_left _ idea))
  | inr other ↦ elim (Bool-cases (is_in "AUTO_BLOCKED_BY_POLICY" w)) [
    | inl stopped ↦ absurd (
        false≢true
          (sym outside ∙ or-true_right (is_in "IDEA_RECEIVED" w) (or-true_left false stopped)))
    | inr begun ↦ rw (other, begun) refl
  ]
]

module _ (flow : ProductDefinitionWorkflow) (w : World) where
  decide-refuses :
      (user : ℕ) (type : ApprovalType) (decision : ApprovalDecision) (comment : Option String)
      → contains (awaited type) w.subject.status ≡ false
      → serve flow (decide_request user type decision comment) w
        ≡ (refusal_code (decide_request user type decision comment), w)
  unfolding serve respond error_code decide_requirements decide_reduced_scope decide_expansion
  decide-refuses user ApprovalType.requirements decision comment outside =
      ap (respond (decide_request user ApprovalType.requirements decision comment) w)
        (entry-raises "WAITING_REQUIREMENT_APPROVAL" _ w outside)
  decide-refuses user ApprovalType.reduced_scope decision comment outside =
      ap (respond (decide_request user ApprovalType.reduced_scope decision comment) w)
        (entry-raises "WAITING_APPROVAL" _ w outside)
  decide-refuses user ApprovalType.expansion decision comment outside =
      ap (respond (decide_request user ApprovalType.expansion decision comment) w)
        (entry-raises "WAITING_EXPANSION_APPROVAL" _ w outside)
  decide-refuses user ApprovalType.plan decision comment outside = refl
  decide-refuses user ApprovalType.result decision comment outside = refl

  -- A request outside the states of its entry check changes nothing: an approval of a type that is not
  -- supported is answered with 400, and every other such request with 409. Outside the states means,
  -- for the analysis, neither at the idea nor after a block, and for an answer, an approval of each
  -- supported type and an expert's reply, not in the state in which it is waited for; an approval of
  -- another type is outside in every state.
  pub serve-refuses :
      (request : Request)
      → serves_in request w.subject.status ≡ false
      → serve flow request w ≡ (refusal_code request, w)
  unfolding serve respond error_code answer_question apply_consultation_answer
  serve-refuses (analyze_project user) outside =
      ap (respond (analyze_project user) w) (run_analysis-raises flow (some user) w outside)
  serve-refuses (answer_request user key answer) outside =
      ap (respond (answer_request user key answer) w)
        (entry-raises "WAITING_REQUIREMENT_INPUT" _ w outside)
  serve-refuses (decide_request user type decision comment) outside =
      decide-refuses user type decision comment outside
  serve-refuses (answer_consultation user key answer resolution) outside =
      ap (respond (answer_consultation user key answer resolution) w)
        (entry-raises "WAITING_EXPERT_CONFIRMATION" _ w outside)
  serve-refuses (create_consultation user) outside = cc

  abbrev is_other_open : ℕ → RequirementQuestion → Bool
  is_other_open id q =
      of_project w.subject.id q
      && (is_status q.status QuestionStatus.open_question && not (q.id == id))

  -- the tables after an answer
  abbrev answered_db : RequirementQuestion → String → Db
  answered_db q answer =
      add_decision flow.env w.subject.id q.question answer
        (some ("질문 " ++ q.question_key ++ "에 대한 사용자 답변")) DecisionSource.user_confirmed
        (record w.db {
          questions = update (λ x. x.id == q.id) (answered_question answer) w.db.questions;
        })
