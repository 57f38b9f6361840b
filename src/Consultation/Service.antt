-- ===== src/Consultation/Service.antt =====
-- app/consultation/service.py: a consultation is created, answered and applied; it changes no status of
-- a project.
use orchestration_system.Common.{
  ℕ, ◌+◌, String, Option, none, some, [], ◌∷◌, ◌++◌, ◌==◌, if◌then◌else◌, is_some, filter, update,
}
use orchestration_system.Enums.{ConsultationTrigger, ConsultationStatus, AuditEventType}
use orchestration_system.Database.{Env, Db, AuditLog, ExpertConsultation, AnswerEntry, latest}
use orchestration_system.Orchestrator.Engine.{audit_record}
use orchestration_system.Consultation.Masking.{Patterns}
use orchestration_system.Consultation.Package.{
  ConsultationContext, ConsultationPackage, build_package,
}

-- `"user" if actor_id else "system"`
abbrev pub actor_type_of : Option ℕ → String
actor_type_of none = "system"
actor_type_of (some _) = "user"

unfoldable pub consultation_audit : AuditEventType → String → ℕ → Option ℕ → ℕ → ℕ → AuditLog
consultation_audit type subject_type subject actor id now = record {
  id = id;
  occurred_at = now;
  actor_type = actor_type_of actor;
  actor_id = actor;
  subject_type = subject_type;
  subject_id = subject;
  event_type = type;
  event = none;
  machine = none;
  from_state = none;
  to_state = none;
}

unfoldable pub new_consultation :
    Env → ConsultationPackage → ℕ → Option ℕ → ConsultationTrigger → ℕ → ExpertConsultation
new_consultation env built project task trigger made = record {
  id = env.uuid4 made;
  project_id = project;
  task_id = task;
  trigger = trigger;
  status = ConsultationStatus.pending;
  title = built.title;
  package_markdown = built.markdown;
  questions = built.questions;
  answers = [];
  masking_summary = built.masking_summary;
  created_at = env.utc_now made;
  answered_at = none;
  resolved_at = none;
}

-- `ConsultationService.create`, for a project (`task` is none) or a task
unfoldable pub create :
    Env
    → Patterns
    → ℕ
    → Option ℕ
    → ConsultationTrigger
    → ConsultationContext
    → Option ℕ
    → Db
    → ExpertConsultation × Db
unfolding build_package new_consultation consultation_audit audit_record
create env patterns project task trigger context actor db =
    let row = new_consultation env (build_package patterns context) project task trigger db.made in
    let added = record db { made = db.made + 1; consultations = row ∷ db.consultations } in
    let subject_type = (if is_some task then "task" else "project") in
    let subject : ℕ = elim task [ none ↦ project | some t ↦ t ] in
    (
      row,
      audit_record env
          (consultation_audit AuditEventType.consultation_created subject_type subject actor) added,
    )

abbrev pub consultation_key : ExpertConsultation → ℕ × ℕ
consultation_key c = (c.created_at, c.id)

-- `ConsultationService.latest_for_project`
unfoldable pub latest_for_project : ℕ → Db → Option ExpertConsultation
latest_for_project project db =
    latest consultation_key (filter (λ c. c.project_id == project) db.consultations)

unfoldable pub answer_entry : String → String → String → ℕ → AnswerEntry
answer_entry question_key answer action now = record {
  question_key = question_key;
  answer = answer;
  action = action;
  answered_at = now;
}

-- The assignments to the row change the one object that the session has for it.
unfoldable pub answered : AnswerEntry → ExpertConsultation → ExpertConsultation
answered entry c = record c {
  answers = c.answers ++ entry ∷ [];
  status = ConsultationStatus.answered;
  answered_at = some entry.answered_at;
}

-- `ConsultationService.record_answer`
unfoldable pub record_answer :
    Env → ExpertConsultation → String → String → String → Option ℕ → Db → Db
unfolding answer_entry answered consultation_audit audit_record
record_answer env consultation question_key answer action actor db =
    let entry = answer_entry question_key answer action (env.utc_now db.made) in
    audit_record env
      (consultation_audit AuditEventType.expert_answer_recorded "project" consultation.project_id
        actor)
      (record db {
        consultations = update (λ c. c.id == consultation.id) (answered entry) db.consultations;
      })

unfoldable pub applied_at : ℕ → ExpertConsultation → ExpertConsultation
applied_at now c = record c { status = ConsultationStatus.applied; resolved_at = some now }

-- `ConsultationService.mark_applied`
unfoldable pub mark_applied : Env → ExpertConsultation → Db → Db
unfolding applied_at
mark_applied env consultation db = record db {
  consultations =
      update (λ c. c.id == consultation.id) (applied_at (env.utc_now db.made)) db.consultations;
}
