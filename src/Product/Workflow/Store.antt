-- ===== src/Product/Workflow/Store.antt =====
-- app/product/workflow.py, the constructor and the helpers at its end: `_fire` and the queries.
use Prim.Native.String.{◌++◌}
use orchestration_system.Common.{
  ℕ, ◌+◌, String, Bool, ◌&&◌, Option, none, some, List, [], ◌∷◌, map, ltb, ◌==◌, if◌then◌else◌,
  str_eq, contains, any, count, filter, take_text, remove_prefix,
}
use orchestration_system.Enums.{
  PolicyDecision, QuestionStatus, DocumentKind, DocumentType, ApprovalType, ApprovalDecision,
}
use orchestration_system.Database.{Env, Db, ProjectClassification, RequirementQuestion, order_by}
use orchestration_system.Product.Schemas.{
  QuestionDraft, CoreAnalysis, RequirementSet, ClassificationResult, ProjectInput,
  SpecificationInput, SpecificationResult,
}
use orchestration_system.Product.Refinement.{Answers}
use orchestration_system.Product.Questions.{build_question_cards}
use orchestration_system.Memory.Conflicts.{DecisionConflict}
use orchestration_system.Capabilities.Schemas.{CapabilitySpec}
use orchestration_system.Consultation.Masking.{Patterns}
use orchestration_system.Consultation.Service.{actor_type_of}
use orchestration_system.Expansion.Service.{ExpansionService}
use orchestration_system.Orchestrator.Subjects.{Context, is_kind, is_status}
use orchestration_system.Orchestrator.Guards.{latest_classification}
use orchestration_system.Orchestrator.Machine.{Error, ok, err, World, StateMachine}
use orchestration_system.Orchestrator.Engine.{Call, fire}
use orchestration_system.Product.Workflow.Action.{Action, pure, raise, gets, modify, ◌>>=◌, ◌>>◌}

-- `ProductDefinitionWorkflow.__init__`, with the settings that the services read. `name` is the
-- project's, which nothing changes; `lower` is `str.lower`.
pub record ProductDefinitionWorkflow : Type 0 where
  pub env : Env
  pub machine : StateMachine
  pub classifier : String → ClassificationResult
  pub core_agent : ProjectInput → CoreAnalysis
  pub requirement_agent : CoreAnalysis → Answers → RequirementSet
  pub specification_agent : SpecificationInput → SpecificationResult
  pub expansion : ExpansionService
  pub capabilities_config : List CapabilitySpec
  pub patterns : Patterns
  pub lower : String → String
  pub name : String

-- `x or ""`
abbrev pub text_or_empty : Option String → String
text_or_empty none = ""
text_or_empty (some s) = s

-- The keyword arguments of `_fire`
abbrev pub no_context : Context
no_context = record {
  capability_missing = none;
  policy_decision = none;
  subject_type = "";
  max_retries = 0;
}

abbrev pub with_decision : PolicyDecision → Context
with_decision d = record no_context { policy_decision = some d }

abbrev pub with_missing : List String → Context
with_missing missing = record no_context { capability_missing = some missing }

unfoldable pub call_of : String → Option String → Context → Option ℕ → Call
call_of event reason context actor = record {
  event = event;
  reason = reason;
  actor_type = actor_type_of actor;
  actor_id = actor;
  context = context;
  idempotency_key = none;
  checkpoint_payload = none;
}

-- the rows of a query on one project's questions
abbrev pub of_project : ℕ → RequirementQuestion → Bool
of_project project q = q.project_id == project

-- `_count_open_questions`
unfoldable pub count_open_questions : World → ℕ
count_open_questions w =
    count (λ q. of_project w.subject.id q && is_status q.status QuestionStatus.open_question)
      w.db.questions

-- `_collect_answers`: a later row for a key would overwrite an earlier one
unfoldable pub collect_answers : World → Answers
collect_answers w =
    map (λ q. (q.question_key, text_or_empty q.answer))
      (filter (λ q. of_project w.subject.id q && is_status q.status QuestionStatus.answered)
        w.db.questions)

-- `_latest_classification`
unfoldable pub current_classification : World → Option ProjectClassification
unfolding latest_classification
current_classification w = latest_classification w.db w.subject.id

-- the keys of the set `existing`
unfoldable pub question_keys : World → List String
question_keys w = map (λ q. q.question_key) (filter (of_project w.subject.id) w.db.questions)

-- the constraint uq_question_key
abbrev pub has_question : ℕ → String → Db → Bool
has_question project key db =
    any (λ q. of_project project q && str_eq q.question_key key) db.questions

module _ (flow : ProductDefinitionWorkflow) where
  -- `_fire`
  unfoldable pub fire_event : String → Option String → Context → Option ℕ → Action (Unit {0})
  unfolding call_of
  fire_event event reason context actor w =
      let (r, u) = fire flow.env flow.machine (call_of event reason context actor) w in
      (elim r [ ok _ ↦ ok tt | err e ↦ err e ], u)

  -- `_collect_input`
  unfoldable pub collect_input : World → ProjectInput
  unfolding order_by
  collect_input w = record {
    project_name = flow.name;
    idea_text = text_or_empty w.subject.idea_text;
    document_texts =
        map (λ d. d.content)
          (order_by (λ d e. ltb d.created_at e.created_at)
            (filter (λ d. d.project_id == w.subject.id && is_kind d.kind DocumentKind.uploaded)
              w.db.documents));
  }

  unfoldable pub question_row : ℕ → String → String → ℕ → RequirementQuestion
  question_row project key question made = record {
    id = flow.env.uuid4 made;
    project_id = project;
    question_key = key;
    question = question;
    status = QuestionStatus.open_question;
    answer = none;
  }

  unfoldable pub insert_question : ℕ → String → String → Db → Db
  unfolding question_row
  insert_question project key question db = record db {
    made = db.made + 1;
    questions = question_row project key question db.made ∷ db.questions;
  }

  -- One more question; the flush refuses a second row for a key.
  unfoldable pub add_question : String → String → Action (Unit {0})
  unfolding insert_question
  add_question key question w =
      if has_question w.subject.id key w.db
      then raise Error.integrity w
      else modify (insert_question w.subject.id key question) w

  -- The loop of `_upsert_questions`
  unfoldable pub add_cards : List String → List QuestionDraft → Action (Unit {0})
  unfolding add_question
  add_cards existing [] = pure tt
  add_cards existing (card ∷ cards) =
      let rest = add_cards existing cards in
      if contains existing card.key then rest else add_question card.key card.question >> rest

  -- `_upsert_questions`
  unfoldable pub upsert_questions : RequirementSet → Action (Unit {0})
  unfolding question_keys add_cards
  upsert_questions requirement_set = do
    existing ← gets question_keys
    add_cards existing (build_question_cards requirement_set)

  -- `f"Q-C{conflict.decision_key.removeprefix('DEC-')}"[:20]`
  unfoldable pub conflict_key : DecisionConflict → String
  conflict_key c = take_text 20 ("Q-C" ++ remove_prefix "DEC-" c.decision_key)

  -- The loop of `_create_conflict_questions`: `existing` is read before it, and not added to.
  unfoldable pub add_conflicts : List String → List DecisionConflict → Action (Unit {0})
  unfolding add_question conflict_key
  add_conflicts existing [] = pure tt
  add_conflicts existing (c ∷ conflicts) =
      let rest = add_conflicts existing conflicts in
      if contains existing (conflict_key c)
      then rest
      else add_question (conflict_key c) c.message >> rest

  -- `_create_conflict_questions`
  unfoldable pub create_conflict_questions : List DecisionConflict → Action (Unit {0})
  unfolding question_keys add_conflicts
  create_conflict_questions conflicts = do
    existing ← gets question_keys
    add_conflicts existing conflicts

  unfoldable pub insert_document : ℕ → DocumentType → String → Db → Db
  insert_document project type content db = record db {
    made = db.made + 1;
    documents =
        record {
          id = flow.env.uuid4 db.made;
          project_id = project;
          kind = DocumentKind.generated;
          doc_type = type;
          content = content;
          created_at = flow.env.utc_now db.made;
        }
        ∷ db.documents;
  }

  -- `_save_generated_document`
  unfoldable pub save_generated_document : DocumentType → String → Action (Unit {0})
  unfolding insert_document
  save_generated_document type content w = modify (insert_document w.subject.id type content) w

  unfoldable pub insert_approval : ℕ → ℕ → ApprovalType → ApprovalDecision → Option String → Db → Db
  insert_approval project user type decision comment db = record db {
    made = db.made + 1;
    approvals =
        record {
          id = flow.env.uuid4 db.made;
          project_id = project;
          user_id = user;
          approval_type = type;
          decision = decision;
          comment = comment;
        }
        ∷ db.approvals;
  }

  -- the row of user_approvals that each decision adds
  unfoldable pub add_approval :
      ℕ → ApprovalType → ApprovalDecision → Option String → Action (Unit {0})
  unfolding insert_approval
  add_approval user type decision comment w =
      modify (insert_approval w.subject.id user type decision comment) w

  unfoldable pub insert_classification : ℕ → ClassificationResult → Bool → Db → Db
  insert_classification project c confirmed db = record db {
    made = db.made + 1;
    classifications =
        record {
          id = flow.env.uuid4 db.made;
          project_id = project;
          automation_class = c.automation_class;
          gate = c.gate;
          prohibited_features = c.prohibited_features;
          risky_features = c.risky_features;
          user_message = c.user_message;
          expert_confirmed = confirmed;
          created_at = flow.env.utc_now db.made;
        }
        ∷ db.classifications;
  }
