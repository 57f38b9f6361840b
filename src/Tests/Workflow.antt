-- ===== src/Tests/Workflow.antt =====
-- The workflow behind the API: runs of requests, and the theorems at concrete inputs.
use orchestration_system.Common.{
  ℕ, ◌≤◌, String, ◌≡◌, refl, false, none, some, [], ◌∷◌, length, count, join, str_eq, strip,
  take_text, remove_prefix,
}
use orchestration_system.Enums.{
  QuestionStatus, DeliverableType, RequirementStatus, RequirementCategory,
}
use orchestration_system.Database.{Env, RequirementQuestion, empty_db, latest}
use orchestration_system.Orchestrator.Machine.{World, build_index, subject_type_of}
use orchestration_system.Orchestrator.Transitions.{
  MachineType, transitions_for, exception_states_for, terminal_states_for, product_transitions,
  product_exception_states, product_terminal_states,
}
use orchestration_system.Orchestrator.Engine.Index.{machine_for, index_for}
use orchestration_system.Product.Schemas.{combined_text, ProjectInput, SpecificationInput}
use orchestration_system.Product.Classifier.{BlockPolicy, classify}
use orchestration_system.Product.Questions.{build_question_cards}
use orchestration_system.Product.Refinement.{Answers, lookup_answer, refine}
use orchestration_system.Product.CoreAgent.{analyze}
use orchestration_system.Product.SpecificationAgent.{generate}
use orchestration_system.Product.Backlogs.{in_epics, generate-tasks}
use orchestration_system.Product.Known.{is_unknown}
use orchestration_system.Product.Rounds.{refine-analyze_settles}
use orchestration_system.Product.Bounds.{analyze-bounds}
use orchestration_system.Expansion.Service.{ExpansionService}
use orchestration_system.Memory.Conflicts.{DecisionConflict, find_conflicts, detect_conflicts}
use orchestration_system.Consultation.Masking.{Patterns, Cut, mask_secrets}
use orchestration_system.Consultation.Package.{ConsultationContext, new_context, build_package}
use orchestration_system.Consultation.Disclosure.{build_package-hides}
use orchestration_system.Product.Workflow.Store.{
  ProductDefinitionWorkflow, fire_event, collect_input, question_keys, upsert_questions, add_cards,
  add_question, insert_question, insert_classification, count_open_questions, collect_answers,
  create_conflict_questions, conflict_key,
}
use orchestration_system.Product.Workflow.Conflicts.{succeeds, create_conflict_questions-all_new}
use orchestration_system.Product.Workflow.Action.{◌>>=◌}
use orchestration_system.Product.Workflow.Draft.{
  draft_requirements, finish_draft, route_gate, save_classification, entry_event, run_analysis,
}
use orchestration_system.Memory.Requirements.{sync}
use orchestration_system.Orchestrator.Guards.{
  evaluate, has_planning_input, classification_saved, open_questions_exist,
}
use orchestration_system.Orchestrator.Engine.{fire}
use orchestration_system.Api.{analyze_project, answer_request, serve}
use orchestration_system.Api.Refusals.{serve-refuses}
use orchestration_system.Api.Answers.{Answers as Answered}
use orchestration_system.Api.Served.{begun, requested, Life-Answers}

abbrev env : Env
env = record { utc_now = λ n. n; uuid4 = λ n. n }

abbrev same_text : String → String
same_text s = s

abbrev policy : BlockPolicy
policy = record {
  prohibited = record { label = "결제 기능"; keywords = "payment" ∷ []; alternative = "결제 제외" } ∷ [];
  unsupported = [];
  expert_review = "sso" ∷ [];
  risky = "크롤링" ∷ [];
}

abbrev service : ExpansionService
service = record { allowlist = []; catalog = []; server_specs = none }

-- a pattern that matches nothing, and one that takes the whole text for a value
abbrev nothing : String → Cut
nothing s = record { hits = []; rest = s }

abbrev whole : String → Cut
whole s = record { hits = record { before = ""; whole = s; kept = "password=" } ∷ []; rest = "" }

abbrev patterns : Patterns
patterns = record {
  is_decimal = λ c. false;
  kv_pattern = whole;
  bearer_pattern = nothing;
  value_patterns = [];
}

abbrev flow : ProductDefinitionWorkflow
flow = record {
  env = env;
  machine = machine_for MachineType.product 3;
  classifier = classify same_text policy;
  core_agent = analyze same_text;
  requirement_agent = refine;
  specification_agent = generate;
  expansion = service;
  capabilities_config = [];
  patterns = patterns;
  lower = same_text;
  name = "보고서";
}

abbrev world : String → World
world status = record {
  subject = record {
    id = 7;
    project_id = none;
    idea_text = some "엑셀 파일을 입력한다. 보고서를 생성한다";
    status = status;
    status_reason = none;
  };
  db = empty_db;
}

abbrev idea : World
idea = world "IDEA_RECEIVED"

-- what a request computes with
running : ℕ
unfolding serve question_keys str_eq run_analysis ◌>>=◌ fire_event fire machine_for index_for
    build_index transitions_for product_transitions exception_states_for product_exception_states
    terminal_states_for product_terminal_states subject_type_of evaluate has_planning_input classify
    combined_text strip join collect_input analyze refine build_question_cards upsert_questions
    add_cards add_question insert_question draft_requirements finish_draft route_gate
    save_classification insert_classification entry_event latest sync detect_conflicts
    count_open_questions collect_answers find_conflicts classification_saved
    create_conflict_questions open_questions_exist
running = 0

-- The analysis of the idea asks the two standard questions.
analysis_asks :
    let (code, after) = serve flow (analyze_project 1) idea in
    (code ≡ 200)
    × (after.subject.status ≡ "WAITING_REQUIREMENT_INPUT")
    × (question_keys after ≡ "Q-002" ∷ "Q-001" ∷ [])
unfolding running
analysis_asks = (refl, refl, refl)

-- An answer is refused at the idea.
serve-refuses_example : serve flow (answer_request 1 "Q-001" "혼자") idea ≡ (409, idea)
unfolding str_eq
serve-refuses_example = serve-refuses flow idea (answer_request 1 "Q-001" "혼자") refl

-- After the analysis, the first question is answered.
abbrev analyzed : World
analyzed = (serve flow (analyze_project 1) idea).1

Life-Answers_example :
    Answered flow
      (answer_request 1 "Q-001" "혼자")
      analyzed
      (serve flow (answer_request 1 "Q-001" "혼자") analyzed)
Life-Answers_example =
    Life-Answers env 3 refl (requested flow (analyze_project 1) refl refl begun refl) flow refl
      (answer_request 1 "Q-001" "혼자")

abbrev question : ℕ → String → RequirementQuestion
question id key = record {
  id = id;
  project_id = 7;
  question_key = key;
  question = "누가 사용하나요?";
  status = QuestionStatus.open_question;
  answer = none;
}

-- the project waits for the answers to two questions
abbrev asking : World
asking = record (world "WAITING_REQUIREMENT_INPUT") {
  db = record empty_db { questions = question 2 "Q-002" ∷ question 1 "Q-001" ∷ [] };
}

abbrev secret : String → ConsultationContext
secret text = new_context "보고서" text "확인이 필요합니다"

build_package-hides_example :
    build_package patterns (secret "password=1234") ≡ build_package patterns (secret "password=abc")
build_package-hides_example =
    build_package-hides patterns (secret "password=1234") (secret "password=abc")
      (unfold mask_secrets str_eq in refl)

abbrev conflict : String → DecisionConflict
conflict key = record {
  requirement_key = key;
  decision_key = "DEC-001";
  decision_title = "보관 기간";
  message = "기존 결정과 겹칩니다";
}

-- Two requirements that clash with one decision: the questions cannot be stored.
create_conflict_questions-all_new_example :
    succeeds (create_conflict_questions flow (conflict "FR-001" ∷ conflict "FR-002" ∷ []) idea)
    ≡ false
unfolding question_keys conflict_key str_eq take_text remove_prefix
create_conflict_questions-all_new_example =
    create_conflict_questions-all_new flow (conflict "FR-001" ∷ conflict "FR-002" ∷ []) idea

abbrev input : ProjectInput
input = record { project_name = "보고서"; idea_text = "엑셀 파일을 입력한다. 보고서를 생성한다"; document_texts = [] }

abbrev answers : Answers
answers = ("Q-001", "혼자 사용한다") ∷ ("Q-002", "1년") ∷ []

refine-analyze_settles_example :
    (count is_unknown (refine (analyze same_text input) answers).requirements ≡ 0)
    × (build_question_cards (refine (analyze same_text input) answers) ≡ [])
refine-analyze_settles_example =
    refine-analyze_settles same_text input answers (unfold analyze lookup_answer str_eq in refl)

analyze-bounds_example :
    (3 ≤ length (analyze same_text input).functional_requirements)
    × (length (analyze same_text input).functional_requirements ≤ 22)
    × (count is_unknown (analyze same_text input).functional_requirements ≡ 2)
analyze-bounds_example = analyze-bounds same_text input

abbrev described : SpecificationInput
described = record {
  project_name = "보고서";
  project_goal = "보고서를 생성한다";
  deliverable_type = DeliverableType.web_app;
  requirements =
      record {
        key = "FR-001";
        description = "보고서를 생성한다";
        status = RequirementStatus.confirmed;
        category = RequirementCategory.functional;
        priority = none;
      }
      ∷ [];
  decisions = [];
}

generate-tasks_example : in_epics (str_eq "FR-001 구현") (generate described).epics ≡ 1
unfolding str_eq
generate-tasks_example = generate-tasks (str_eq "FR-001 구현") described
