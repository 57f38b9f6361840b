-- ===== src/Orchestrator/Engine/Steps.antt =====
-- The branches of one call of `fire` as a relation: each rule names the conditions under which a step
-- of the code gives the outcome. The relation of Contract says what these steps have to do.
use orchestration_system.Common.{
  String, ◌≡◌, refl, ◌∙◌, true, false, Option, none, some, arith, str_eq, inl, inr, Option-cases,
  Bool-cases, if◌then◌else◌,
}
use orchestration_system.Enums.{AuditEventType}
use orchestration_system.Database.{Env, WorkflowEvent, WorkflowCheckpoint}
use orchestration_system.Orchestrator.Transitions.{TransitionDef, checkpoint}
use orchestration_system.Orchestrator.Machine.{
  Error, Result, ok, err, World, StateMachine, lookup_index,
}
use orchestration_system.Orchestrator.Engine.{
  Call, Outcome, find_existing, latest_checkpoint, reject, replay, resolve, guard_ok, apply, fire,
  fire_new, fire_row,
}

module _ (env : Env) (m : StateMachine) (c : Call) (w : World) where
  -- where a row leads: to the state that it names, or to that of the latest checkpoint
  pub data LeadsTo (t : TransitionDef) (target : String) : Type 0 where
    named : str_eq t.target checkpoint ≡ false → t.target ≡ target → LeadsTo t target
    restored :
        (cp : WorkflowCheckpoint)
        → str_eq t.target checkpoint ≡ true
        → latest_checkpoint m.subject_type w.subject.id w.db ≡ some cp
        → cp.state ≡ target
        → LeadsTo t target

  abbrev pub IsFresh : Type 0
  IsFresh = find_existing c.idempotency_key w.db.events ≡ ok none

  abbrev pub IsRow : TransitionDef → Type 0
  IsRow t = lookup_index w.subject.status c.event m.index ≡ some t

  pub data Fires : Outcome → Type 0 where
    ambiguous : (e : Error) → find_existing c.idempotency_key w.db.events ≡ err e → Fires (err e, w)
    replayed :
        (existing : WorkflowEvent)
        → find_existing c.idempotency_key w.db.events ≡ ok (some existing)
        → Fires (replay env m c w existing)
    illegal :
        IsFresh
        → lookup_index w.subject.status c.event m.index ≡ none
        → Fires (reject env m c w Error.illegal_transition AuditEventType.transition_rejected none)
    stranded :
        (t : TransitionDef)
        → IsFresh
        → IsRow t
        → str_eq t.target checkpoint ≡ true
        → latest_checkpoint m.subject_type w.subject.id w.db ≡ none
        → Fires (reject env m c w Error.guard_rejected AuditEventType.guard_rejected none)
    refused :
        (t : TransitionDef) (target : String)
        → IsFresh
        → IsRow t
        → LeadsTo t target
        → guard_ok env m c w t ≡ false
        → Fires (reject env m c w Error.guard_rejected AuditEventType.guard_rejected (some target))
    applied :
        (t : TransitionDef) (target : String)
        → IsFresh
        → IsRow t
        → LeadsTo t target
        → guard_ok env m c w t ≡ true
        → Fires (apply env m c w target)

  resolve-LeadsTo :
      (t : TransitionDef) (target : String) → resolve env m c w t ≡ some target → LeadsTo t target
  unfolding resolve
  resolve-LeadsTo t target h = elim (Bool-cases (str_eq t.target checkpoint)) [
    | inr other ↦ named other (ground arith)
    | inl same ↦ elim (Option-cases (latest_checkpoint m.subject_type w.subject.id w.db)) [
      | inl nothing ↦ absurd (ground arith)
      | inr (cp, found) ↦ restored cp same found (ground arith)
    ]
  ]

  resolve-none :
      (t : TransitionDef)
      → resolve env m c w t ≡ none
      → (str_eq t.target checkpoint ≡ true)
        × (latest_checkpoint m.subject_type w.subject.id w.db ≡ none)
  unfolding resolve
  resolve-none t h = ground arith

  none-resolve :
      (t : TransitionDef)
      → str_eq t.target checkpoint ≡ true
      → latest_checkpoint m.subject_type w.subject.id w.db ≡ none
      → resolve env m c w t ≡ none
  unfolding resolve
  none-resolve t same nothing = rw (same, nothing)

  LeadsTo-resolve :
      (t : TransitionDef) (target : String) → LeadsTo t target → resolve env m c w t ≡ some target
  unfolding resolve
  LeadsTo-resolve t target (named other e) = rw other (cc e)
  LeadsTo-resolve t target (restored cp same found e) = ground arith

  fire_row-guarded :
      (t : TransitionDef) (target : String)
      → resolve env m c w t ≡ some target
      → fire_row env m c w t ≡ (
          if guard_ok env m c w t
          then apply env m c w target
          else reject env m c w Error.guard_rejected AuditEventType.guard_rejected (some target))
  unfolding fire_row
  fire_row-guarded t target h = rw (h, fire_row)

  fire_row-Fires : (t : TransitionDef) → IsFresh → IsRow t → Fires (fire_row env m c w t)
  fire_row-Fires t fresh is_row = elim (Option-cases (resolve env m c w t)) [
    | inl nothing ↦
        let (same, no_checkpoint) = resolve-none t nothing in
        (unfold fire_row in rw (nothing, fire_row) (stranded t fresh is_row same no_checkpoint))
    | inr (target, found) ↦
        rw (fire_row-guarded t target found) (elim (Bool-cases (guard_ok env m c w t)) [
          | inl good ↦ rw good (applied t target fresh is_row (resolve-LeadsTo t target found) good)
          | inr bad ↦ rw bad (refused t target fresh is_row (resolve-LeadsTo t target found) bad)
        ])
  ]

  fire_new-Fires : IsFresh → Fires (fire_new env m c w)
  fire_new-Fires fresh = elim (Option-cases (lookup_index w.subject.status c.event m.index)) [
    | inl nothing ↦ (unfold fire_new in rw (nothing, fire_new) (illegal fresh nothing))
    | inr (t, is_row) ↦ (unfold fire_new in rw (is_row, fire_new) (fire_row-Fires t fresh is_row))
  ]

  -- The outcome of a call is one that the rules allow.
  pub fire-Fires : Fires (fire env m c w)
  fire-Fires = by_key (find_existing c.idempotency_key w.db.events) refl
    where
      by_key :
          (r : Result (Option WorkflowEvent))
          → find_existing c.idempotency_key w.db.events ≡ r
          → Fires (fire env m c w)
      by_key (err e) found = (unfold fire in rw (found, fire) (ambiguous e found))
      by_key (ok (some existing)) found =
          (unfold fire in rw (found, fire) (replayed existing found))
      by_key (ok none) fresh = (unfold fire in rw (fresh, fire) (fire_new-Fires fresh))

  fire_of_fresh : IsFresh → fire env m c w ≡ fire_new env m c w
  unfolding fire
  fire_of_fresh fresh = rw (fresh, fire)

  fire_of_row : (t : TransitionDef) → IsFresh → IsRow t → fire env m c w ≡ fire_row env m c w t
  fire_of_row t fresh is_row = fire_of_fresh fresh ∙ (unfold fire_new in rw (is_row, fire_new))

  -- What the rules allow is the outcome of the call.
  pub Fires-fire : {o : Outcome} → Fires o → fire env m c w ≡ o
  Fires-fire (ambiguous e found) = (unfold fire in rw (found, fire))
  Fires-fire (replayed existing found) = (unfold fire in rw (found, fire))
  Fires-fire (illegal fresh nothing) =
      fire_of_fresh fresh ∙ (unfold fire_new in rw (nothing, fire_new))
  Fires-fire (stranded t fresh is_row same no_checkpoint) =
      fire_of_row t fresh is_row
      ∙ (unfold fire_row in rw (none-resolve t same no_checkpoint, fire_row))
  Fires-fire (refused t target fresh is_row leads bad) =
      fire_of_row t fresh is_row
      ∙ fire_row-guarded t target (LeadsTo-resolve t target leads)
      ∙ rw bad
  Fires-fire (applied t target fresh is_row leads good) =
      fire_of_row t fresh is_row
      ∙ fire_row-guarded t target (LeadsTo-resolve t target leads)
      ∙ rw good
