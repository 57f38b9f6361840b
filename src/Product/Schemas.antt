-- ===== src/Product/Schemas.antt =====
-- app/product/schemas.py: what the agents of the product definition hand on. The patterns of the keys
-- are checked by pydantic before.
use orchestration_system.Common.{String, Bool, Option, List, ◌∷◌, join, strip}
use orchestration_system.Enums.{
  AutomationClass, ClassificationGate, DeliverableType, RequirementStatus, RequirementCategory,
}

pub record RequirementDraft : Type 0 where
  pub key : String
  pub description : String
  pub status : RequirementStatus
  pub category : RequirementCategory
  pub priority : Option String

pub record QuestionDraft : Type 0 where
  pub key : String
  pub question : String
  pub reason : Option String
  pub related_requirement_key : Option String

pub record CoreAnalysis : Type 0 where
  pub project_goal : String
  pub target_users : List String
  pub deliverable_type : DeliverableType
  pub functional_requirements : List RequirementDraft
  pub open_questions : List QuestionDraft
  pub required_capabilities : List String
  pub expansion_required : Bool

pub record RequirementSet : Type 0 where
  pub requirements : List RequirementDraft
  pub open_questions : List QuestionDraft

pub record ClassificationResult : Type 0 where
  pub automation_class : AutomationClass
  pub gate : ClassificationGate
  pub reasons : List String
  pub prohibited_features : List String
  pub risky_features : List String
  pub user_message : String

pub record ProjectInput : Type 0 where
  pub project_name : String
  pub idea_text : String
  pub document_texts : List String

-- `ProjectInput.combined_text`
unfoldable pub combined_text : ProjectInput → String
combined_text i = strip (join "\n" (i.idea_text ∷ i.document_texts))

pub record BacklogTask : Type 0 where
  pub key : String
  pub title : String
  pub description : String

pub record UserStory : Type 0 where
  pub key : String
  pub title : String
  pub tasks : List BacklogTask

pub record Epic : Type 0 where
  pub key : String
  pub title : String
  pub stories : List UserStory

pub record SpecificationResult : Type 0 where
  pub prd_markdown : String
  pub deliverable_type : DeliverableType
  pub acceptance_criteria : List String
  pub epics : List Epic
  pub out_of_scope : List String
  pub risks : List String
  pub test_scenarios : List String

-- The arguments of `SpecificationAgent.generate`
pub record SpecificationInput : Type 0 where
  pub project_name : String
  pub project_goal : String
  pub deliverable_type : DeliverableType
  pub requirements : List RequirementDraft
  pub decisions : List (String × String)
