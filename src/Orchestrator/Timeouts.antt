-- ===== src/Orchestrator/Timeouts.antt =====
-- app/orchestrator/timeout_checker.py: one notification for each time that a subject stays in a
-- state for longer than its limit. The limits of the configuration file are a parameter; a moment is
-- a number of microseconds, as a datetime has.
pub mod Once
use Prim.Native.Nat.{◌*◌}
use orchestration_system.Common.{
  ℕ, ◌+◌, ◌-◌, max, String, Bool, true, false, ◌&&◌, Option, none, some, List, [], ◌∷◌, leb, ◌==◌,
  if◌then◌else◌, str_eq, any,
}
use orchestration_system.Enums.{AuditEventType}
use orchestration_system.Database.{Env, Db, WorkflowEvent, AuditLog}
use orchestration_system.Orchestrator.Engine.{audit_record}

pub record TimeoutNotification : Type 0 where
  pub subject_type : String
  pub subject_id : ℕ
  pub state : String
  pub entered_at : ℕ
  pub limit_seconds : ℕ

abbrev pub Limits : Type 0
Limits = List (String × ℕ)

-- `TimeoutChecker.limit_for`
unfoldable pub limit_for : Limits → String → Option ℕ
limit_for [] state = none
limit_for ((s, seconds) ∷ rest) state =
    let later = limit_for rest state in if str_eq s state then some seconds else later

abbrev pub enters : String → ℕ → String → WorkflowEvent → Bool
enters type id state e = str_eq e.subject_type type && e.subject_id == id && str_eq e.to_state state

abbrev later_of : ℕ → Option ℕ → ℕ
later_of t none = t
later_of t (some u) = max t u

-- the greatest time of the events that enter the state
unfoldable pub last_entry : String → ℕ → String → List WorkflowEvent → Option ℕ
last_entry type id state [] = none
last_entry type id state (e ∷ events) =
    let rest = last_entry type id state events in
    if enters type id state e then some (later_of e.created_at rest) else rest

-- `_state_entered_at`
unfoldable pub state_entered_at : String → ℕ → String → Db → Option ℕ
unfolding last_entry
state_entered_at type id state db = last_entry type id state db.events

abbrev pub is_timeout : AuditEventType → Bool
is_timeout AuditEventType.timeout_notified = true
is_timeout _ = false

abbrev text_is : Option String → String → Bool
text_is none t = false
text_is (some s) t = str_eq s t

unfoldable pub notifies : String → ℕ → String → ℕ → AuditLog → Bool
notifies type id state entered_at a =
    str_eq a.subject_type type
    && a.subject_id == id
    && is_timeout a.event_type
    && text_is a.from_state state
    && leb entered_at a.occurred_at

-- `_already_notified`
unfoldable pub already_notified : String → ℕ → String → ℕ → Db → Bool
unfolding notifies
already_notified type id state entered_at db = any (notifies type id state entered_at) db.audits

unfoldable pub timeout_audit : String → ℕ → String → ℕ → ℕ → AuditLog
timeout_audit type subject state id now = record {
  id = id;
  occurred_at = now;
  actor_type = "system";
  actor_id = none;
  subject_type = type;
  subject_id = subject;
  event_type = AuditEventType.timeout_notified;
  event = none;
  machine = none;
  from_state = some state;
  to_state = some state;
}

module _ (env : Env) (limits : Limits) (type : String) (id : ℕ) (state : String) (now : ℕ) where
  -- what follows once the limit and the time of entry are known
  unfoldable pub check_since : ℕ → ℕ → Db → Option TimeoutNotification × Db
  unfolding already_notified audit_record timeout_audit
  check_since limit entered_at db =
      if leb (now - entered_at) (limit * 1000000)
      then (none, db)
      else if already_notified type id state entered_at db
      then (none, db)
      else (
        some (record {
          subject_type = type;
          subject_id = id;
          state = state;
          entered_at = entered_at;
          limit_seconds = limit;
        }),
        audit_record env (timeout_audit type id state) db,
      )

  -- `TimeoutChecker.check`
  unfoldable pub check : Db → Option TimeoutNotification × Db
  unfolding limit_for state_entered_at check_since
  check db = elim (limit_for limits state) [
    | none ↦ (none, db)
    | some limit ↦ elim (state_entered_at type id state db) [
      | none ↦ (none, db)
      | some entered_at ↦ check_since limit entered_at db
    ]
  ]
