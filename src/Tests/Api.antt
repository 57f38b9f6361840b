-- ===== src/Tests/Api.antt =====
-- The handlers beside the workflow: uploads and projects at concrete inputs.
use mathlib.Core.List.{◌++◌ as append}
use orchestration_system.Common.{
  arith, ℕ, ◌≤◌, String, ◌≡◌, refl, true, false, none, some, List, [], ◌∷◌,
}
use orchestration_system.Enums.{DocumentType}
use orchestration_system.Database.{Env, empty_db}
use orchestration_system.Orchestrator.Machine.{World}
use orchestration_system.Orchestrator.Transitions.{MachineType}
use orchestration_system.Orchestrator.Engine.Index.{machine_for}
use orchestration_system.Product.Classifier.{classify}
use orchestration_system.Product.Refinement.{refine}
use orchestration_system.Product.CoreAgent.{analyze}
use orchestration_system.Product.SpecificationAgent.{generate}
use orchestration_system.Product.Workflow.Store.{ProductDefinitionWorkflow}
use orchestration_system.Enums.{ConsultationTrigger}
use orchestration_system.Consultation.Package.{build_package}
use orchestration_system.Consultation.Service.{new_consultation}
use orchestration_system.Product.Workflow.Consult.{manual_context}
use orchestration_system.Api.{create_consultation, serve}
use orchestration_system.Api.Queries.{get_consultation, create_consultation-get_consultation}
use orchestration_system.Api.Documents.{
  UploadFile, max_upload_bytes, is_allowed, texts, upload_document, upload_document-collect_input,
}
use orchestration_system.Api.Projects.{
  Projects, ProjectRequest, create_request, update_request, create_project, handle_requests,
  list_projects, get_owned_project,
}
use orchestration_system.Api.Owners.{IsDistinct, IsKeyed, list_projects-others}

abbrev env : Env
env = record { utc_now = λ n. n; uuid4 = λ n. n }

abbrev flow : ProductDefinitionWorkflow
flow = record {
  env = env;
  machine = machine_for MachineType.product 3;
  classifier =
      classify (λ s. s)
        (record { prohibited = []; unsupported = []; expert_review = []; risky = [] });
  core_agent = analyze (λ s. s);
  requirement_agent = refine;
  specification_agent = generate;
  expansion = record { allowlist = []; catalog = []; server_specs = none };
  capabilities_config = [];
  patterns = record {
    is_decimal = λ c. false;
    kv_pattern = λ s. record { hits = []; rest = s };
    bearer_pattern = λ s. record { hits = []; rest = s };
    value_patterns = [];
  };
  lower = λ s. s;
  name = "보고서";
}

abbrev world : World
world = record {
  subject = record {
    id = 7;
    project_id = none;
    idea_text = none;
    status = "IDEA_RECEIVED";
    status_reason = none;
  };
  db = empty_db;
}

abbrev plan : UploadFile
plan = record { size = 12; text = some "기획안" }

abbrev uploaded : World
uploaded = (upload_document env DocumentType.idea plan world).1

upload_document-collect_input_example :
    (is_allowed DocumentType.idea ≡ true)
    × (12 ≤ max_upload_bytes)
    × (content : String) × (plan.text ≡ some content)
    × (texts flow uploaded ≡ append (texts flow world) (content ∷ []))
upload_document-collect_input_example =
    upload_document-collect_input flow DocumentType.idea plan world tt
      (unfold upload_document in refl)

abbrev projects : Projects
projects = create_project env 1 "보고서" none (record { made = 0; rows = [] })

abbrev others : List ProjectRequest
others = create_request 2 "정산" none ∷ update_request 2 0 "다른 기획" ∷ []

-- the ids of `env` count up
env-IsDistinct : IsDistinct env
env-IsDistinct m n same = same

projects-IsKeyed : IsKeyed env projects
unfolding create_project
projects-IsKeyed = record { once = λ id. ground arith; fresh = λ n later. ground arith }

list_projects-others_example :
    (list_projects 1 (handle_requests env others projects) ≡ list_projects 1 projects)
    × ((id : ℕ)
        → get_owned_project 1 id (handle_requests env others projects)
          ≡ get_owned_project 1 id projects)
list_projects-others_example =
    list_projects-others 1 env others projects env-IsDistinct projects-IsKeyed refl

abbrev asked : ℕ × World
asked = serve flow (create_consultation 1) world

create_consultation-get_consultation_example :
    (asked.0 ≡ 201)
    × (get_consultation asked.1
        ≡ some (
            new_consultation env
              (build_package flow.patterns (manual_context flow world))
              7
              none
              ConsultationTrigger.user_requested
              0))
create_consultation-get_consultation_example = create_consultation-get_consultation flow 1 world tt
