-- ===== src/Orchestrator/Engine/Retry.antt =====
-- The retry limit: `can_retry` of app/orchestrator/transition_guard.py against the rows of
-- workflow_events that the engine writes.
use mathlib.Core.Path.{subst}
use orchestration_system.Common.{
  ℕ, ◌≤◌, ◌<◌, String, ◌≡◌, refl, sym, ◌∙◌, true, arith, count, Bool-cases, inl, inr, str_eq,
}
use orchestration_system.Database.{Env, Db, WorkflowEvent}
use orchestration_system.Orchestrator.Transitions.{MachineType, TransitionDef}
use orchestration_system.Orchestrator.Subjects.{Subject, Context}
use orchestration_system.Orchestrator.Guards.{can_retry, retry_of, evaluate}
use orchestration_system.Orchestrator.Tables.{lookup-retry}
use orchestration_system.Orchestrator.Machine.{World, subject_type_of}
use orchestration_system.Orchestrator.Engine.{
  Call, Outcome, reject, replay, guard_ok, apply, fire_event, enter, fire,
}
use orchestration_system.Orchestrator.Engine.Index.{machine_for}
use orchestration_system.Orchestrator.Engine.Steps.{
  IsRow, Fires, ambiguous, replayed, illegal, stranded, refused, applied, fire-Fires,
}
use orchestration_system.Orchestrator.Engine.Effects.{apply-frame, guard_ok-named, guard_context}

-- No subject of the machine has more RETRY_SCHEDULED events than the limit.
abbrev pub RetryBounded : MachineType → ℕ → Db → Type 0
RetryBounded machine limit db =
    (id : ℕ) → count (retry_of (subject_type_of machine) id) db.events ≤ limit

evaluate-can_retry :
    (db : Db) (s : Subject) (ctx : Context) → evaluate "can_retry" db s ctx ≡ can_retry db s ctx
unfolding evaluate str_eq
evaluate-can_retry db s ctx = refl

can_retry-below :
    (db : Db) (s : Subject) (ctx : Context)
    → can_retry db s ctx ≡ true
    → count (retry_of ctx.subject_type s.id) db.events < ctx.max_retries
can_retry-below db s ctx h = (unfold can_retry in ground arith)

module _ (env : Env) (machine : MachineType) (limit : ℕ) (c : Call) (w : World) where
  retry_guarded :
      (t : TransitionDef)
      → IsRow env (machine_for machine limit) c w t
      → guard_ok env (machine_for machine limit) c w t ≡ true
      → str_eq c.event "RETRY_SCHEDULED" ≡ true
      → count (retry_of (subject_type_of machine) w.subject.id) w.db.events < limit
  unfolding machine_for
  retry_guarded t is_row good h =
      let m = machine_for machine limit in
      let passed =
        guard_ok-named env m c w t "can_retry"
          (lookup-retry machine w.subject.status c.event t is_row h)
        ∙ evaluate-can_retry w.db w.subject (guard_context env m c w) in
      can_retry-below w.db w.subject (guard_context env m c w) (sym passed ∙ good)

  retry_of-fire_event :
      (id i now : ℕ) (target : String)
      → retry_of
          (subject_type_of machine)
          id
          (fire_event env (machine_for machine limit) c w target i now)
        ≡ true
      → (w.subject.id ≡ id) × (str_eq c.event "RETRY_SCHEDULED" ≡ true)
  unfolding machine_for retry_of fire_event
  retry_of-fire_event id i now target h = ground arith

  applied-RetryBounded :
      (t : TransitionDef) (target : String)
      → IsRow env (machine_for machine limit) c w t
      → guard_ok env (machine_for machine limit) c w t ≡ true
      → RetryBounded machine limit w.db
      → RetryBounded machine limit (apply env (machine_for machine limit) c w target).1.db
  applied-RetryBounded t target is_row good inv id =
      rw ((apply-frame env (machine_for machine limit) c w target).0)
        (elim (Bool-cases (retry_of (subject_type_of machine) id row)) [
          | inr other ↦ rw other (omega (arith, inv id))
          | inl retry ↦
              let (same, is_retry) = retry_of-fire_event id _ _ target retry in
              rw retry (
                omega (
                  arith,
                  subst (λ k. count (retry_of (subject_type_of machine) k) w.db.events < limit) same
                      (retry_guarded t is_row good is_retry),
                ))
        ])
    where
      row : WorkflowEvent
      row =
          fire_event env (machine_for machine limit) c w target
            (env.uuid4 (enter env (machine_for machine limit) c w target).made)
            (env.utc_now (enter env (machine_for machine limit) c w target).made)

  Fires-RetryBounded :
      {o : Outcome}
      → Fires env (machine_for machine limit) c w o
      → RetryBounded machine limit w.db
      → RetryBounded machine limit o.1.db
  unfolding reject replay
  Fires-RetryBounded (ambiguous e found) inv = inv
  Fires-RetryBounded (replayed existing found) inv = inv
  Fires-RetryBounded (illegal fresh nothing) inv = inv
  Fires-RetryBounded (stranded t fresh is_row same no_checkpoint) inv = inv
  Fires-RetryBounded (refused t target fresh is_row leads bad) inv = inv
  Fires-RetryBounded (applied t target fresh is_row leads good) inv =
      applied-RetryBounded t target is_row good inv

  -- The engine never schedules a retry beyond the limit: if no subject of the machine has more
  -- RETRY_SCHEDULED events than `max_retries`, then none has after the call.
  pub fire-RetryBounded :
      RetryBounded machine limit w.db
      → RetryBounded machine limit (fire env (machine_for machine limit) c w).1.db
  fire-RetryBounded = Fires-RetryBounded (fire-Fires env (machine_for machine limit) c w)
