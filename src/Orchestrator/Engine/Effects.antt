-- ===== src/Orchestrator/Engine/Effects.antt =====
-- What one call of `fire` leaves behind: the row of the audit log, and what a refusal leaves alone.
use orchestration_system.Common.{
  ◌+◌, String, ◌≡◌, ◌≢◌, refl, sym, ◌∙◌, true, Option, none, some, ◌∷◌, arith, if◌then◌else◌,
}
use orchestration_system.Enums.{AuditEventType}
use orchestration_system.Database.{Env, Db, AuditLog}
use orchestration_system.Orchestrator.Transitions.{TransitionDef}
use orchestration_system.Orchestrator.Subjects.{Context}
use orchestration_system.Orchestrator.Guards.{evaluate}
use orchestration_system.Orchestrator.Machine.{Error, Result, ok, err, World, StateMachine}
use orchestration_system.Orchestrator.Engine.{
  Call, TransitionResult, Outcome, fire_audit, fire_event, enter, reject, replay, guard_ok, apply,
  fire,
}
use orchestration_system.Orchestrator.Engine.Keys.{
  TwoRows, under_key, scalar-err, find_existing-under_key,
}
use orchestration_system.Orchestrator.Engine.Steps.{
  LeadsTo, IsRow, Fires, ambiguous, replayed, illegal, stranded, refused, applied, fire-Fires,
}

-- The kind of audit row that a result calls for; a database error leaves none.
abbrev pub audit_type : Result TransitionResult → Option AuditEventType
audit_type (ok r) = some (
    if r.idempotent_replay
    then AuditEventType.idempotent_replay
    else AuditEventType.state_transition)
audit_type (err Error.illegal_transition) = some AuditEventType.transition_rejected
audit_type (err Error.guard_rejected) = some AuditEventType.guard_rejected
audit_type (err _) = none

module _ (c : Call) (w : World) where
  -- With a kind: one row of it, about the subject and the event, stands on the old rows. With none:
  -- the key of the call is on two events at least, and nothing is written.
  abbrev pub Logs : Option AuditEventType → Db → Type 0
  Logs none db = TwoRows (under_key c w) × (db ≡ w.db)
  Logs (some kind) db =
      (row : AuditLog) × (db.audits ≡ row ∷ w.db.audits)
      × (row.event_type ≡ kind)
      × (row.subject_id ≡ w.subject.id)
      × (row.event ≡ some c.event)

  -- The subject and every table but the audit log are as they were.
  abbrev pub Untouched : World → Type 0
  Untouched w' =
      (w'.subject ≡ w.subject) × (record w'.db { audits = w.db.audits; made = w.db.made } ≡ w.db)

module _ (env : Env) (m : StateMachine) (c : Call) (w : World) where
  -- the context that `fire` hands a guard
  abbrev pub guard_context : Context
  guard_context = record c.context { subject_type = m.subject_type; max_retries = m.max_retries }

  pub guard_ok-named :
      (t : TransitionDef) (name : String)
      → t.guard ≡ some name
      → guard_ok env m c w t ≡ evaluate name w.db w.subject guard_context
  unfolding guard_ok
  guard_ok-named t name h = rw (h, guard_ok)

  -- Entering a state saves a checkpoint or nothing; it writes to no other table.
  enter-frame :
      (target : String)
      → record (enter env m c w target) { checkpoints = w.db.checkpoints; made = w.db.made } ≡ w.db
  unfolding enter
  enter-frame target = ground arith

  -- The rows that an applied transition leaves, whether or not it saves a checkpoint
  pub apply-frame :
      (target : String)
      → let db = (apply env m c w target).1.db in
        (db.events
          ≡ fire_event env m c w target
              (env.uuid4 (enter env m c w target).made)
              (env.utc_now (enter env m c w target).made)
            ∷ w.db.events)
        × (db.checkpoints ≡ (enter env m c w target).checkpoints)
  unfolding apply
  apply-frame target = ground (arith, enter-frame target)

  Fires-Logs : {o : Outcome} → Fires env m c w o → Logs c w (audit_type o.0) o.1.db
  unfolding reject replay
  Fires-Logs (ambiguous e found) =
      let (same, twice) =
        scalar-err (under_key c w) e (sym (find_existing-under_key c w) ∙ found) in
      rw same (twice, refl)
  Fires-Logs (replayed existing found) = (_, refl, refl, refl, refl)
  Fires-Logs (illegal fresh nothing) = (_, refl, refl, refl, refl)
  Fires-Logs (stranded t fresh is_row same no_checkpoint) = (_, refl, refl, refl, refl)
  Fires-Logs (refused t target fresh is_row leads bad) = (_, refl, refl, refl, refl)
  Fires-Logs (applied t target fresh is_row leads good) =
      (unfold apply in
        (
          fire_audit env m c w AuditEventType.state_transition w.subject.status (some target)
              (env.uuid4 ((enter env m c w target).made + 1))
              (env.utc_now ((enter env m c w target).made + 1)),
          ground (arith, enter-frame target),
          refl,
          refl,
          refl,
        ))

  -- A call of `fire` whose idempotency key is on fewer than two events adds exactly one row to the
  -- audit log and removes none: its kind tells whether the transition was applied, was a replay, was
  -- illegal or was refused by a guard, and it names the subject and the event. A call that gives any
  -- other error has its key on two events at least, and leaves these tables as they were.
  pub fire-Logs : Logs c w (audit_type (fire env m c w).0) (fire env m c w).1.db
  fire-Logs = Fires-Logs (fire-Fires env m c w)

  Fires-Untouched : {o : Outcome} (e : Error) → Fires env m c w o → o.0 ≡ err e → Untouched c w o.1
  unfolding reject replay
  Fires-Untouched e (ambiguous d found) h = (refl, refl)
  Fires-Untouched e (replayed existing found) h = cc
  Fires-Untouched e (illegal fresh nothing) h = (refl, refl)
  Fires-Untouched e (stranded t fresh is_row same no_checkpoint) h = (refl, refl)
  Fires-Untouched e (refused t target fresh is_row leads bad) h = (refl, refl)
  Fires-Untouched e (applied t target fresh is_row leads good) h = (unfold apply in cc)

  -- A call that raises leaves the subject and every table but the audit log as they were.
  pub fire_error-Untouched :
      (e : Error) → (fire env m c w).0 ≡ err e → Untouched c w (fire env m c w).1
  fire_error-Untouched e h = Fires-Untouched e (fire-Fires env m c w) h

  -- What a change of the status rests on
  abbrev pub Moved : World → Type 0
  Moved w' =
      (t : TransitionDef) × IsRow env m c w t
      × LeadsTo env m c w t w'.subject.status
      × (guard_ok env m c w t ≡ true)

  Fires-Moved :
      {o : Outcome} → Fires env m c w o → o.1.subject.status ≢ w.subject.status → Moved o.1
  unfolding reject replay
  Fires-Moved (ambiguous d found) h = absurd (h refl)
  Fires-Moved (replayed existing found) h = absurd (h refl)
  Fires-Moved (illegal fresh nothing) h = absurd (h refl)
  Fires-Moved (stranded t fresh is_row same no_checkpoint) h = absurd (h refl)
  Fires-Moved (refused t target fresh is_row leads bad) h = absurd (h refl)
  Fires-Moved (applied t target fresh is_row leads good) h =
      (unfold apply in (t, is_row, leads, good))

  -- If a call changes the status, then the machine's index has a row for the old status and the
  -- event, the new status is the row's target or that of the latest checkpoint, and the row's guard
  -- held before the call.
  pub fire-Moved : (fire env m c w).1.subject.status ≢ w.subject.status → Moved (fire env m c w).1
  fire-Moved = Fires-Moved (fire-Fires env m c w)

  Fires-ok :
      {o : Outcome} {r : TransitionResult}
      → Fires env m c w o
      → o.0 ≡ ok r
      → r.applied ≡ true
      → Moved o.1
  unfolding reject replay
  Fires-ok (ambiguous d found) done changed = cc
  Fires-ok (replayed existing found) done changed = ground arith
  Fires-ok (illegal fresh nothing) done changed = cc
  Fires-ok (stranded t fresh is_row same no_checkpoint) done changed = cc
  Fires-ok (refused t target fresh is_row leads bad) done changed = cc
  Fires-ok (applied t target fresh is_row leads good) done changed =
      (unfold apply in (t, is_row, leads, good))

  -- A call that reports `applied` went along a row whose guard held.
  pub applied-Moved :
      {r : TransitionResult}
      → (fire env m c w).0 ≡ ok r
      → r.applied ≡ true
      → Moved (fire env m c w).1
  applied-Moved = Fires-ok (fire-Fires env m c w)
