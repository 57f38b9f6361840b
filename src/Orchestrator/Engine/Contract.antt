-- ===== src/Orchestrator/Engine/Contract.antt =====
-- What one call of `fire` must do, told from its documentation and in the rows of the tables: each rule
-- writes out the result and the whole world after the call. It uses none of the steps of the code in
-- app/orchestrator/state_machine.py, audit.py and checkpoints.py, only the tables and their queries.
use orchestration_system.Common.{
  ℕ, ◌+◌, String, ◌≡◌, Bool, true, false, not, Option, none, some, List, [], ◌∷◌, ◌⊎◌, str_eq,
  filter, contains,
}
use orchestration_system.Enums.{AuditEventType}
use orchestration_system.Database.{Env, Db, WorkflowEvent, AuditLog, WorkflowCheckpoint, latest}
use orchestration_system.Orchestrator.Transitions.{TransitionDef, checkpoint}
use orchestration_system.Orchestrator.Guards.{checkpoint_of, evaluate}
use orchestration_system.Orchestrator.Machine.{Error, ok, err, World, StateMachine, lookup_index}
use orchestration_system.Orchestrator.Engine.{Call, TransitionResult, Outcome, checkpoint_key}
use orchestration_system.Orchestrator.Engine.Keys.{under_key}

module _ (env : Env) (m : StateMachine) (c : Call) (w : World) where
  -- the latest checkpoint of the subject
  abbrev pub last_saved : Option WorkflowCheckpoint
  last_saved =
      latest checkpoint_key (filter (checkpoint_of m.subject_type w.subject.id) w.db.checkpoints)

  abbrev pub row : Option TransitionDef
  row = lookup_index w.subject.status c.event m.index

  -- A row leads to the state that it names, or to that of the latest checkpoint.
  pub data Target (t : TransitionDef) (target : String) : Type 0 where
    by_name : str_eq t.target checkpoint ≡ false → t.target ≡ target → Target t target
    by_checkpoint :
        (cp : WorkflowCheckpoint)
        → str_eq t.target checkpoint ≡ true
        → last_saved ≡ some cp
        → cp.state ≡ target
        → Target t target

  -- what the guard of a row says
  abbrev pub guard_holds : String → Bool
  guard_holds name =
      evaluate name w.db w.subject
        (record c.context { subject_type = m.subject_type; max_retries = m.max_retries })

  pub data Guarded (t : TransitionDef) : Bool → Type 0 where
    unguarded : t.guard ≡ none → Guarded t true
    guarded :
        {answer : Bool} (name : String)
        → t.guard ≡ some name
        → guard_holds name ≡ answer
        → Guarded t answer

  abbrev pub is_exception : String → Bool
  is_exception state = contains m.exception_states state

  -- the row of the audit log that is made as the n-th row
  abbrev entry : AuditEventType → String → Option String → ℕ → AuditLog
  entry type from to n = record {
    id = env.uuid4 n;
    occurred_at = env.utc_now n;
    actor_type = c.actor_type;
    actor_id = c.actor_id;
    subject_type = m.subject_type;
    subject_id = w.subject.id;
    event_type = type;
    event = some c.event;
    machine = some m.machine;
    from_state = some from;
    to_state = to;
  }

  -- the row of the workflow's events that is made as the n-th row
  abbrev moved : String → ℕ → WorkflowEvent
  moved target n = record {
    id = env.uuid4 n;
    subject_type = m.subject_type;
    subject_id = w.subject.id;
    machine = m.machine;
    event = c.event;
    from_state = w.subject.status;
    to_state = target;
    idempotency_key = c.idempotency_key;
    created_at = env.utc_now n;
  }

  -- the checkpoint of the state that is left, made as the n-th row
  abbrev left : ℕ → WorkflowCheckpoint
  left n = record {
    id = env.uuid4 n;
    subject_type = m.subject_type;
    subject_id = w.subject.id;
    state = w.subject.status;
    payload = elim c.checkpoint_payload [ none ↦ [] | some payload ↦ payload ];
    created_at = env.utc_now n;
  }

  abbrev result : String → String → Bool → TransitionResult
  result from to changed = record {
    subject_id = w.subject.id;
    machine = m.machine;
    event = c.event;
    from_state = from;
    to_state = to;
    applied = changed;
    idempotent_replay = not changed;
  }

  -- the world with one more row in the audit log
  abbrev logged : AuditEventType → String → Option String → World
  logged type from to = record w {
    db = record w.db { made = w.db.made + 1; audits = entry type from to w.db.made ∷ w.db.audits };
  }

  -- the world with the subject in its new state
  abbrev entered : String → Db → World
  entered target db = record {
    subject = record w.subject { status = target; status_reason = c.reason };
    db = db;
  }

  -- the outcome of a move that saves no checkpoint
  abbrev pub carried_on : String → Outcome
  carried_on target = (
    ok (result w.subject.status target true),
    entered target (record w.db {
      made = w.db.made + 1 + 1;
      events = moved target w.db.made ∷ w.db.events;
      audits =
          entry AuditEventType.state_transition w.subject.status (some target) (w.db.made + 1)
          ∷ w.db.audits;
    }),
  )

  -- the outcome of a move into an exception state, which saves the state that is left
  abbrev pub broken_off : String → Outcome
  broken_off target = (
    ok (result w.subject.status target true),
    entered target (record w.db {
      made = w.db.made + 1 + 1 + 1;
      checkpoints = left w.db.made ∷ w.db.checkpoints;
      events = moved target (w.db.made + 1) ∷ w.db.events;
      audits =
          entry AuditEventType.state_transition w.subject.status (some target) (w.db.made + 1 + 1)
          ∷ w.db.audits;
    }),
  )

  pub data Specified : Outcome → Type 0 where
    found_twice :
        (a b : WorkflowEvent) (rest : List WorkflowEvent)
        → under_key c w ≡ a ∷ b ∷ rest
        → Specified (err Error.multiple_results, w)
    found_once :
        (old : WorkflowEvent)
        → under_key c w ≡ old ∷ []
        → Specified (
          ok (result old.from_state old.to_state false),
          logged AuditEventType.idempotent_replay old.from_state (some old.to_state),
        )
    no_row :
        under_key c w ≡ []
        → row ≡ none
        → Specified (
          err Error.illegal_transition,
          logged AuditEventType.transition_rejected w.subject.status none,
        )
    no_checkpoint :
        (t : TransitionDef)
        → under_key c w ≡ []
        → row ≡ some t
        → str_eq t.target checkpoint ≡ true
        → last_saved ≡ none
        → Specified
            (err Error.guard_rejected, logged AuditEventType.guard_rejected w.subject.status none)
    guard_fails :
        (t : TransitionDef) (target : String)
        → under_key c w ≡ []
        → row ≡ some t
        → Target t target
        → Guarded t false
        → Specified (
          err Error.guard_rejected,
          logged AuditEventType.guard_rejected w.subject.status (some target),
        )
    moves :
        (t : TransitionDef) (target : String)
        → under_key c w ≡ []
        → row ≡ some t
        → Target t target
        → Guarded t true
        → (is_exception target ≡ false) ⊎ (is_exception w.subject.status ≡ true)
        → Specified (carried_on target)
    breaks_off :
        (t : TransitionDef) (target : String)
        → under_key c w ≡ []
        → row ≡ some t
        → Target t target
        → Guarded t true
        → is_exception target ≡ true
        → is_exception w.subject.status ≡ false
        → Specified (broken_off target)
