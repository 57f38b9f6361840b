-- ===== src/Orchestrator/Engine.antt =====
-- app/orchestrator/state_machine.py, checkpoints.py and audit.py: the engine that alone changes the
-- status of a project or a task. A call that raises gives back the world with the rows added before
-- the raise.
pub mod Index
pub mod Steps
pub mod Keys
pub mod Contract
pub mod Refines
pub mod Effects
pub mod Retry
pub mod Checkpoints
pub mod Resume
pub mod Clock
pub mod Idempotency
pub mod Histories
use orchestration_system.Orchestrator.Machine.{
  Error, Result, ok, err, World, lookup_index, StateMachine,
}
use orchestration_system.Common.{
  ℕ, ◌+◌, String, Bool, true, false, not, ◌&&◌, Option, none, some, List, [], ◌∷◌, if◌then◌else◌,
  str_eq, is_some, filter, contains,
}
use orchestration_system.Enums.{AuditEventType}
use orchestration_system.Database.{Env, Db, WorkflowEvent, AuditLog, WorkflowCheckpoint, latest}
use orchestration_system.Orchestrator.Transitions.{
  MachineType, TransitionDef, checkpoint, transitions_for, exception_states_for,
}
use orchestration_system.Orchestrator.Subjects.{Subject, Context}
use orchestration_system.Orchestrator.Guards.{checkpoint_of, evaluate}

-- The arguments of `fire` but the subject
pub record Call : Type 0 where
  pub event : String
  pub reason : Option String
  pub actor_type : String
  pub actor_id : Option ℕ
  pub context : Context
  pub idempotency_key : Option String
  pub checkpoint_payload : Option (List (String × String))

pub record TransitionResult : Type 0 where
  pub subject_id : ℕ
  pub machine : MachineType
  pub event : String
  pub from_state : String
  pub to_state : String
  pub applied : Bool
  pub idempotent_replay : Bool

abbrev pub Outcome : Type 0
Outcome = Result TransitionResult × World

-- `AuditLogger.record`: one more row of audit_logs
unfoldable pub audit_record : Env → (ℕ → ℕ → AuditLog) → Db → Db
audit_record env entry db = record db {
  made = db.made + 1;
  audits = entry (env.uuid4 db.made) (env.utc_now db.made) ∷ db.audits;
}

-- `CheckpointStore.save`
unfoldable pub save_checkpoint : Env → String → ℕ → String → List (String × String) → Db → Db
save_checkpoint env type id state payload db = record db {
  made = db.made + 1;
  checkpoints =
      record {
        id = env.uuid4 db.made;
        subject_type = type;
        subject_id = id;
        state = state;
        payload = payload;
        created_at = env.utc_now db.made;
      }
      ∷ db.checkpoints;
}

abbrev pub checkpoint_key : WorkflowCheckpoint → ℕ × ℕ
checkpoint_key c = (c.created_at, c.id)

-- `CheckpointStore.latest`
unfoldable pub latest_checkpoint : String → ℕ → Db → Option WorkflowCheckpoint
latest_checkpoint type id db = latest checkpoint_key (filter (checkpoint_of type id) db.checkpoints)

-- `scalar_one_or_none`
abbrev pub scalar_one_or_none {ℓ} : {A : Type ℓ} → List A → Result (Option A)
scalar_one_or_none [] = ok none
scalar_one_or_none (a ∷ []) = ok (some a)
scalar_one_or_none (a ∷ b ∷ rows) = err Error.multiple_results

unfoldable pub has_key : String → WorkflowEvent → Bool
has_key key e = elim e.idempotency_key [ none ↦ false | some k ↦ str_eq k key ]

-- step 1, the event that was applied under the call's key
unfoldable pub find_existing : Option String → List WorkflowEvent → Result (Option WorkflowEvent)
unfolding has_key
find_existing none events = ok none
find_existing (some key) events = scalar_one_or_none (filter (has_key key) events)

module _ (env : Env) (m : StateMachine) (c : Call) (w : World) where
  -- the row of audit_logs that a branch of `fire` writes
  unfoldable pub fire_audit : AuditEventType → String → Option String → ℕ → ℕ → AuditLog
  fire_audit type from to id now = record {
    id = id;
    occurred_at = now;
    actor_type = c.actor_type;
    actor_id = c.actor_id;
    subject_type = m.subject_type;
    subject_id = w.subject.id;
    event_type = type;
    event = some c.event;
    machine = some m.machine;
    from_state = some from;
    to_state = to;
  }

  unfoldable pub reject : Error → AuditEventType → Option String → Outcome
  unfolding fire_audit audit_record
  reject e type to =
      (err e, record w { db = audit_record env (fire_audit type w.subject.status to) w.db })

  -- step 1, a key that was used: nothing is applied again
  unfoldable pub replay : WorkflowEvent → Outcome
  unfolding fire_audit audit_record
  replay existing = (
    ok (record {
      subject_id = w.subject.id;
      machine = m.machine;
      event = c.event;
      from_state = existing.from_state;
      to_state = existing.to_state;
      applied = false;
      idempotent_replay = true;
    }),
    record w {
      db =
          audit_record env
            (fire_audit AuditEventType.idempotent_replay existing.from_state
              (some existing.to_state))
            w.db;
    },
  )

  -- step 3, the state that a row leads to; `none` if there is no checkpoint
  unfoldable pub resolve : TransitionDef → Option String
  unfolding latest_checkpoint
  resolve t =
      if str_eq t.target checkpoint
      then elim (latest_checkpoint m.subject_type w.subject.id w.db) [
        | none ↦ none
        | some cp ↦ some cp.state
      ]
      else some t.target

  -- step 4
  unfoldable pub guard_ok : TransitionDef → Bool
  guard_ok t = elim t.guard [
    | none ↦ true
    | some name ↦
        evaluate name w.db w.subject
          (record c.context { subject_type = m.subject_type; max_retries = m.max_retries })
  ]

  -- step 5
  unfoldable pub enter : String → Db
  unfolding save_checkpoint
  enter target =
      if contains m.exception_states target && not (contains m.exception_states w.subject.status)
      then save_checkpoint env m.subject_type w.subject.id w.subject.status
          (elim c.checkpoint_payload [ none ↦ [] | some payload ↦ payload ]) w.db
      else w.db

  -- the row of workflow_events of step 6
  unfoldable pub fire_event : String → ℕ → ℕ → WorkflowEvent
  fire_event target id now = record {
    id = id;
    subject_type = m.subject_type;
    subject_id = w.subject.id;
    machine = m.machine;
    event = c.event;
    from_state = w.subject.status;
    to_state = target;
    idempotency_key = c.idempotency_key;
    created_at = now;
  }

  unfoldable pub event_added : String → Db → Db
  unfolding fire_event
  event_added target db = record db {
    made = db.made + 1;
    events = fire_event target (env.uuid4 db.made) (env.utc_now db.made) ∷ db.events;
  }

  -- steps 5 and 6
  unfoldable pub apply : String → Outcome
  unfolding enter event_added fire_audit audit_record
  apply target = (
    ok (record {
      subject_id = w.subject.id;
      machine = m.machine;
      event = c.event;
      from_state = w.subject.status;
      to_state = target;
      applied = true;
      idempotent_replay = false;
    }),
    record {
      subject = record w.subject { status = target; status_reason = c.reason };
      db =
          audit_record env
            (fire_audit AuditEventType.state_transition w.subject.status (some target))
            (event_added target (enter target));
    },
  )

  -- steps 3 to 6, for a row of the table
  unfoldable pub fire_row : TransitionDef → Outcome
  unfolding resolve guard_ok reject apply
  fire_row t = elim (resolve t) [
    | none ↦ reject Error.guard_rejected AuditEventType.guard_rejected none
    | some target ↦
        if guard_ok t
        then apply target
        else reject Error.guard_rejected AuditEventType.guard_rejected (some target)
  ]

  -- steps 2 to 6
  unfoldable pub fire_new : Outcome
  unfolding fire_row lookup_index
  fire_new = elim (lookup_index w.subject.status c.event m.index) [
    | none ↦ reject Error.illegal_transition AuditEventType.transition_rejected none
    | some t ↦ fire_row t
  ]

  -- `StateMachine.fire`
  unfoldable pub fire : Outcome
  unfolding fire_new find_existing replay
  fire = elim (find_existing c.idempotency_key w.db.events) [
    | err e ↦ (err e, w)
    | ok (some existing) ↦ replay existing
    | ok none ↦ fire_new
  ]
