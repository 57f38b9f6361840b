-- ===== src/Orchestrator/Engine/Refines.antt =====
-- `fire` of app/orchestrator/state_machine.py keeps its contract, and the contract leaves it no choice.
use mathlib.Core.Path.{subst}
use orchestration_system.Common.{
  String, ◌≡◌, refl, sym, ◌∙◌, ap, ◌↔◌, Bool, true, false, Option, some, [], ◌⊎◌, inl, inr,
  Option-cases, Bool-cases, arith,
}
use orchestration_system.Database.{Env, WorkflowEvent}
use orchestration_system.Orchestrator.Transitions.{TransitionDef}
use orchestration_system.Orchestrator.Machine.{Result, err, World, StateMachine}
use orchestration_system.Orchestrator.Engine.{
  Call, Outcome, find_existing, scalar_one_or_none, latest_checkpoint, audit_record,
  save_checkpoint, fire_audit, fire_event, event_added, enter, reject, replay, guard_ok, apply,
  fire,
}
use orchestration_system.Orchestrator.Engine.Keys.{
  under_key, scalar-ok_none, scalar-ok_some, scalar-err, find_existing-under_key,
}
use orchestration_system.Orchestrator.Engine.Contract.{
  row, Target, by_name, by_checkpoint, Guarded, unguarded, guarded, is_exception, carried_on,
  broken_off, Specified, found_twice, found_once, no_row, no_checkpoint, guard_fails, moves,
  breaks_off,
}
use orchestration_system.Orchestrator.Engine.Steps.{
  IsFresh, LeadsTo, named, restored, Fires, ambiguous, replayed, illegal, stranded, refused,
  applied, fire-Fires, Fires-fire,
}

module _ (env : Env) (m : StateMachine) (c : Call) (w : World) where
  LeadsTo-Target :
      {t : TransitionDef} {target : String} → LeadsTo env m c w t target → Target env m c w t target
  unfolding latest_checkpoint
  LeadsTo-Target (named other e) = by_name other e
  LeadsTo-Target (restored cp same found e) = by_checkpoint cp same found e

  Target-LeadsTo :
      {t : TransitionDef} {target : String} → Target env m c w t target → LeadsTo env m c w t target
  unfolding latest_checkpoint
  Target-LeadsTo (by_name other e) = named other e
  Target-LeadsTo (by_checkpoint cp same found e) = restored cp same found e

  Guarded-guard_ok :
      {t : TransitionDef} {answer : Bool}
      → Guarded env m c w t answer
      → guard_ok env m c w t ≡ answer
  unfolding guard_ok
  Guarded-guard_ok (unguarded free) = rw free refl
  Guarded-guard_ok (guarded name present answer) = rw present answer

  guard_ok-Guarded : (t : TransitionDef) → Guarded env m c w t (guard_ok env m c w t)
  guard_ok-Guarded t = elim (Option-cases t.guard) [
    | inl free ↦
        subst (Guarded env m c w t) (sym (Guarded-guard_ok (unguarded free))) (unguarded free)
    | inr (name, present) ↦
        let answered = guarded name present refl in
        subst (Guarded env m c w t) (sym (Guarded-guard_ok answered)) answered
  ]

  enter_kept :
      (target : String)
      → (is_exception env m c w target ≡ false) ⊎ (is_exception env m c w w.subject.status ≡ true)
      → enter env m c w target ≡ w.db
  unfolding enter
  enter_kept target (inl ordinary) = rw ordinary refl
  enter_kept target (inr already) = ground (arith, already)

  apply_kept :
      (target : String)
      → (is_exception env m c w target ≡ false) ⊎ (is_exception env m c w w.subject.status ≡ true)
      → apply env m c w target ≡ carried_on env m c w target
  unfolding apply event_added fire_event fire_audit audit_record
  apply_kept target kept = rw (enter_kept target kept) refl

  apply_saved :
      (target : String)
      → is_exception env m c w target ≡ true
      → is_exception env m c w w.subject.status ≡ false
      → apply env m c w target ≡ broken_off env m c w target
  unfolding apply enter event_added fire_event fire_audit audit_record save_checkpoint
  apply_saved target exceptional ordinary = rw (exceptional, ordinary) refl

  IsFresh-under_key : IsFresh env m c w → under_key c w ≡ []
  IsFresh-under_key fresh =
      scalar-ok_none (under_key c w) (sym (find_existing-under_key c w) ∙ fresh)

  under_key-IsFresh : under_key c w ≡ [] → IsFresh env m c w
  under_key-IsFresh empty = find_existing-under_key c w ∙ ap scalar_one_or_none empty

  apply-Specified :
      (t : TransitionDef) (target : String)
      → under_key c w ≡ []
      → row env m c w ≡ some t
      → Target env m c w t target
      → Guarded env m c w t true
      → Specified env m c w (apply env m c w target)
  apply-Specified t target fresh is_row leads good =
      elim (Bool-cases (is_exception env m c w target)) [
        | inr ordinary ↦
            subst (Specified env m c w) (sym (apply_kept target (inl ordinary)))
              (moves t target fresh is_row leads good (inl ordinary))
        | inl exceptional ↦ elim (Bool-cases (is_exception env m c w w.subject.status)) [
          | inl already ↦
              subst (Specified env m c w) (sym (apply_kept target (inr already)))
                (moves t target fresh is_row leads good (inr already))
          | inr ordinary ↦
              subst (Specified env m c w) (sym (apply_saved target exceptional ordinary))
                (breaks_off t target fresh is_row leads good exceptional ordinary)
        ]
      ]

  Fires-Specified : {o : Outcome} → Fires env m c w o → Specified env m c w o
  unfolding reject replay fire_audit audit_record latest_checkpoint
  Fires-Specified (ambiguous e found) =
      let (same, (a, b, rest, twice)) =
        scalar-err (under_key c w) e (sym (find_existing-under_key c w) ∙ found) in
      subst (λ x. Specified env m c w (err x, w)) (sym same) (found_twice a b rest twice)
  Fires-Specified (replayed old found) =
      found_once old
        (scalar-ok_some (under_key c w) old (sym (find_existing-under_key c w) ∙ found))
  Fires-Specified (illegal fresh nothing) = no_row (IsFresh-under_key fresh) nothing
  Fires-Specified (stranded t fresh is_row same nothing) =
      no_checkpoint t (IsFresh-under_key fresh) is_row same nothing
  Fires-Specified (refused t target fresh is_row leads bad) =
      guard_fails t target (IsFresh-under_key fresh) is_row (LeadsTo-Target leads)
        (subst (Guarded env m c w t) bad (guard_ok-Guarded t))
  Fires-Specified (applied t target fresh is_row leads good) =
      apply-Specified t target (IsFresh-under_key fresh) is_row (LeadsTo-Target leads)
        (subst (Guarded env m c w t) good (guard_ok-Guarded t))

  by_key :
      {r : Result (Option WorkflowEvent)}
      → scalar_one_or_none (under_key c w) ≡ r
      → find_existing c.idempotency_key w.db.events ≡ r
  by_key found = find_existing-under_key c w ∙ found

  Specified-Fires : {o : Outcome} → Specified env m c w o → Fires env m c w o
  unfolding reject replay fire_audit audit_record latest_checkpoint
  Specified-Fires (found_twice a b rest twice) = ambiguous _ (by_key (ap scalar_one_or_none twice))
  Specified-Fires (found_once old once) = replayed old (by_key (ap scalar_one_or_none once))
  Specified-Fires (no_row fresh nothing) = illegal (under_key-IsFresh fresh) nothing
  Specified-Fires (no_checkpoint t fresh is_row same nothing) =
      stranded t (under_key-IsFresh fresh) is_row same nothing
  Specified-Fires (guard_fails t target fresh is_row leads bad) =
      refused t target (under_key-IsFresh fresh) is_row (Target-LeadsTo leads)
        (Guarded-guard_ok bad)
  Specified-Fires (moves t target fresh is_row leads good kept) =
      subst (Fires env m c w) (apply_kept target kept) (
        applied t target (under_key-IsFresh fresh) is_row (Target-LeadsTo leads)
          (Guarded-guard_ok good))
  Specified-Fires (breaks_off t target fresh is_row leads good exceptional ordinary) =
      subst (Fires env m c w) (apply_saved target exceptional ordinary) (
        applied t target (under_key-IsFresh fresh) is_row (Target-LeadsTo leads)
          (Guarded-guard_ok good))

  -- The contract `Specified` allows an outcome exactly when it is what the call of `fire` gives. The
  -- contract writes out the result and all tables: a key found twice raises and writes nothing; a key
  -- found once, a missing row, a missing checkpoint and a failing guard leave everything but one row
  -- of the audit log; a move sets the status and the reason and adds one event and one row of the
  -- audit log, and one checkpoint of the state that is left if and only if it enters an exception
  -- state from a state that is none.
  pub fire-refines : (o : Outcome) → Specified env m c w o ↔ (fire env m c w ≡ o)
  fire-refines o = (
    λ allowed. Fires-fire env m c w (Specified-Fires allowed),
    λ same. subst (Specified env m c w) same (Fires-Specified (fire-Fires env m c w)),
  )
