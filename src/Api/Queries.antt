-- ===== src/Api/Queries.antt =====
-- The queries of the API: app/api/projects.py (get_consultation) and requirements.py.
use orchestration_system.Common.{
  eq_self, ℕ, ◌≡◌, refl, false, Option, none, some, List, filter, filter-All, All, ◌==◌,
}
use orchestration_system.Enums.{ConsultationTrigger}
use orchestration_system.Capabilities.Matcher.{text_less}
use orchestration_system.Database.{
  ExpertConsultation, ProjectRequirement, RequirementQuestion, order_by, is_before, latest-newest,
}
use orchestration_system.Orchestrator.Machine.{World}
use orchestration_system.Consultation.Package.{build_package}
use orchestration_system.Consultation.Service.{
  consultation_key, latest_for_project, new_consultation, create,
}
use orchestration_system.Product.Workflow.Action.{◌>>=◌}
use orchestration_system.Product.Workflow.Store.{ProductDefinitionWorkflow, of_project}
use orchestration_system.Product.Workflow.Specify.{active_requirements}
use orchestration_system.Product.Workflow.Consult.{
  manual_context, consult, create_manual_consultation,
}
use orchestration_system.Api.{create_consultation, handle, respond, serve}

-- `get_consultation`; nothing is the answer 404.
unfoldable pub get_consultation : World → Option ExpertConsultation
unfolding latest_for_project
get_consultation w = latest_for_project w.subject.id w.db

-- `list_requirements`
unfoldable pub list_requirements : World → List ProjectRequirement
unfolding active_requirements
list_requirements w = active_requirements w.subject.id w.db

-- `list_questions`
unfoldable pub list_questions : World → List RequirementQuestion
unfolding order_by text_less
list_questions w =
    order_by (λ p q. text_less p.question_key q.question_key)
      (filter (of_project w.subject.id) w.db.questions)

-- If no consultation is newer than the clock, then the request for material for a developer is answered
-- with 201, and what the project's owner gets next is that material: the package of the project as it
-- was at the request.
pub create_consultation-get_consultation :
    (flow : ProductDefinitionWorkflow) (user : ℕ) (w : World)
    → All
        (λ c.
          is_before (flow.env.utc_now w.db.made, flow.env.uuid4 w.db.made) (consultation_key c)
          ≡ false)
        w.db.consultations
    → let (code, after) = serve flow (create_consultation user) w in
      (code ≡ 201)
      × (get_consultation after
          ≡ some (
              new_consultation flow.env
                (build_package flow.patterns (manual_context flow w))
                w.subject.id
                none
                ConsultationTrigger.user_requested
                w.db.made))
unfolding serve handle respond ◌>>=◌ create_manual_consultation consult create get_consultation
    latest_for_project new_consultation
create_consultation-get_consultation flow user w past =
    let row =
      new_consultation flow.env (build_package flow.patterns (manual_context flow w)) w.subject.id
        none ConsultationTrigger.user_requested w.db.made in
    (
      refl,
      rw (eq_self w.subject.id) (
          latest-newest consultation_key row
            (filter (λ c. c.project_id == w.subject.id) w.db.consultations)
            (filter-All _ (λ c. c.project_id == w.subject.id) w.db.consultations past)),
    )
