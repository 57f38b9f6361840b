-- ===== src/Memory/Decisions.antt =====
-- app/project_memory/decision_log.py and feedback_store.py.
use Prim.Native.String.{◌++◌}
use orchestration_system.Common.{
  ℕ, ◌+◌, String, Bool, true, false, ◌&&◌, Option, List, ◌∷◌, ◌==◌, count, filter, update, pad3,
  take_text,
}
use orchestration_system.Enums.{DecisionSource, DecisionStatus}
use orchestration_system.Database.{Env, Db, ProjectDecision, order_by}
use orchestration_system.Capabilities.Matcher.{text_less}

abbrev pub is_active : DecisionStatus → Bool
is_active DecisionStatus.active = true
is_active DecisionStatus.superseded = false

unfoldable pub decision_of :
    ℕ → ℕ → String → String → Option String → DecisionSource → ℕ → ProjectDecision
decision_of project count title decision reason source id = record {
  id = id;
  project_id = project;
  decision_key = "DEC-" ++ pad3 (count + 1);
  title = take_text 200 title;
  decision = decision;
  reason = reason;
  source = source;
  status = DecisionStatus.active;
}

-- `DecisionLog.add`
unfoldable pub add_decision : Env → ℕ → String → String → Option String → DecisionSource → Db → Db
unfolding decision_of
add_decision env project title decision reason source db =
    let n = count (λ d. d.project_id == project) db.decisions in
    record db {
      made = db.made + 1;
      decisions =
          decision_of project n title decision reason source (env.uuid4 db.made) ∷ db.decisions;
    }

-- `DecisionLog.list_active`
unfoldable pub active_decisions : ℕ → Db → List ProjectDecision
active_decisions project db =
    order_by (λ d e. text_less d.decision_key e.decision_key)
      (filter (λ d. d.project_id == project && is_active d.status) db.decisions)

-- `DecisionLog.supersede`
unfoldable pub supersede : ProjectDecision → Db → Db
supersede decision db = record db {
  decisions =
      update (λ d. d.id == decision.id) (λ d. record d { status = DecisionStatus.superseded })
        db.decisions;
}

-- `FeedbackStore.add`
unfoldable pub add_feedback : Env → ℕ → ℕ → String → String → Db → Db
add_feedback env project user content category db = record db {
  made = db.made + 1;
  feedback =
      record {
        id = env.uuid4 db.made;
        project_id = project;
        user_id = user;
        category = category;
        content = content;
      }
      ∷ db.feedback;
}
