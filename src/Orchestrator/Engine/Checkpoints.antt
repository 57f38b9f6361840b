-- ===== src/Orchestrator/Engine/Checkpoints.antt =====
-- Checkpoints (app/orchestrator/checkpoints.py and steps 3 and 5 of `fire`): what is saved, and what
-- a return to a checkpoint restores.
use mathlib.Core.Path.{subst, ap}
use mathlib.Core.Option.{some-injective}
use orchestration_system.Common.{
  ℕ, String, ◌≡◌, sym, ◌∙◌, Bool, true, false, not, ◌&&◌, some, List, [], ◌∷◌, Bool-cases, inl, inr,
  str_eq, &&-eq-true, contains, All, filter, ap,
}
use orchestration_system.Database.{Env, Db, WorkflowCheckpoint, latest-All}
use orchestration_system.Orchestrator.Transitions.{
  MachineType, TransitionDef, checkpoint, exception_states_for,
}
use orchestration_system.Orchestrator.Guards.{checkpoint_of}
use orchestration_system.Orchestrator.Tables.{lookup-return}
use orchestration_system.Orchestrator.Machine.{World, subject_type_of, ok}
use orchestration_system.Orchestrator.Engine.{
  Call, Outcome, latest_checkpoint, checkpoint_key, reject, replay, enter, fire, TransitionResult,
}
use orchestration_system.Orchestrator.Engine.Index.{machine_for}
use orchestration_system.Orchestrator.Engine.Steps.{
  LeadsTo, named, restored, IsRow, Fires, ambiguous, replayed, illegal, stranded, refused, applied,
  fire-Fires,
}
use orchestration_system.Orchestrator.Engine.Effects.{apply-frame, applied-Moved}

-- A predicate on the checkpoints of one machine's subjects
abbrev pub AllSaved : MachineType → (String → Bool) → Db → Type 0
AllSaved machine p db =
    All
      (λ (cp : WorkflowCheckpoint).
        str_eq cp.subject_type (subject_type_of machine) ≡ true → p cp.state ≡ true)
      db.checkpoints

All-filter :
    (P : WorkflowCheckpoint → Type 0) (p : WorkflowCheckpoint → Bool)
    (rows : List WorkflowCheckpoint)
    → All P rows
    → All (λ cp. P cp × (p cp ≡ true)) (filter p rows)
All-filter P p [] h = tt
All-filter P p (cp ∷ rows) h = elim (Bool-cases (p cp)) [
  | inl kept ↦ rw kept ((h.0, kept), All-filter P p rows h.1)
  | inr dropped ↦ rw dropped (All-filter P p rows h.1)
]

-- The latest checkpoint of a subject is one of its checkpoints.
pub latest-AllSaved :
    (machine : MachineType) (p : String → Bool) (id : ℕ) (db : Db) (cp : WorkflowCheckpoint)
    → AllSaved machine p db
    → latest_checkpoint (subject_type_of machine) id db ≡ some cp
    → p cp.state ≡ true
latest-AllSaved machine p id db cp saved found =
    let (holds, own) =
      latest-All checkpoint_key _
        (filter (checkpoint_of (subject_type_of machine) id) db.checkpoints) cp
        (All-filter _ (checkpoint_of (subject_type_of machine) id) db.checkpoints saved)
        (unfold latest_checkpoint in found) in
    holds (unfold checkpoint_of in (&&-eq-true own).0)

-- not an exception state
abbrev pub is_ordinary : MachineType → String → Bool
is_ordinary machine s = not (contains (exception_states_for machine) s)

module _ (env : Env) (machine : MachineType) (limit : ℕ) (c : Call) (w : World) where
  -- Only an ordinary state is saved, so what holds of those keeps holding of the saved states.
  enter-AllSaved :
      (p : String → Bool) (target : String)
      → (is_ordinary machine w.subject.status ≡ true → p w.subject.status ≡ true)
      → AllSaved machine p w.db
      → AllSaved machine p (enter env (machine_for machine limit) c w target)
  unfolding machine_for enter
  enter-AllSaved p target holds saved =
      elim (Bool-cases (
        contains (exception_states_for machine) target
        && not (contains (exception_states_for machine) w.subject.status))) [
          | inr stays ↦ rw stays saved
          | inl enters ↦
              let ordinary =
                (&&-eq-true {a = contains (exception_states_for machine) target} enters).1 in
              rw enters ((λ _. holds ordinary), saved)
        ]

  pub fire-AllSaved :
      (p : String → Bool)
      → (is_ordinary machine w.subject.status ≡ true → p w.subject.status ≡ true)
      → AllSaved machine p w.db
      → AllSaved machine p (fire env (machine_for machine limit) c w).1.db
  fire-AllSaved p holds saved = by_rule (fire-Fires env (machine_for machine limit) c w)
    where
      by_rule :
          {o : Outcome} → Fires env (machine_for machine limit) c w o → AllSaved machine p o.1.db
      by_rule (ambiguous e found) = saved
      by_rule (replayed existing found) = (unfold replay in saved)
      by_rule (illegal fresh nothing) = (unfold reject in saved)
      by_rule (stranded t fresh is_row same no_checkpoint) = (unfold reject in saved)
      by_rule (refused t target fresh is_row leads bad) = (unfold reject in saved)
      by_rule (applied t target fresh is_row leads good) =
          rw ((apply-frame env (machine_for machine limit) c w target).1)
            (enter-AllSaved p target holds saved)

  -- Every saved state is an ordinary one, and stays so whatever is fired: an exception state is
  -- never what a checkpoint goes back to.
  pub fire-saves_ordinary :
      AllSaved machine (is_ordinary machine) w.db
      → AllSaved machine (is_ordinary machine) (fire env (machine_for machine limit) c w).1.db
  fire-saves_ordinary = fire-AllSaved (is_ordinary machine) (λ h. h)

  LeadsTo-ordinary :
      (t : TransitionDef) (target : String)
      → str_eq t.target checkpoint ≡ true
      → AllSaved machine (is_ordinary machine) w.db
      → LeadsTo env (machine_for machine limit) c w t target
      → is_ordinary machine target ≡ true
  unfolding machine_for
  LeadsTo-ordinary t target back saved (named other e) = cc (sym back ∙ other)
  LeadsTo-ordinary t target back saved (restored cp same found e) =
      subst (λ s. is_ordinary machine s ≡ true) e
        (latest-AllSaved machine (is_ordinary machine) w.subject.id w.db cp saved found)

  -- If all saved states are ordinary, then a call that is applied along a row back to a checkpoint
  -- takes the subject out of an exception state and into an ordinary one.
  pub fire-returns :
      (t : TransitionDef)
      → IsRow env (machine_for machine limit) c w t
      → str_eq t.target checkpoint ≡ true
      → AllSaved machine (is_ordinary machine) w.db
      → {r : TransitionResult} → (fire env (machine_for machine limit) c w).0 ≡ ok r
      → r.applied ≡ true
      → (is_ordinary machine w.subject.status ≡ false)
        × (is_ordinary machine (fire env (machine_for machine limit) c w).1.subject.status ≡ true)
  unfolding machine_for
  fire-returns t is_row back saved done changed =
      let (u, its_row, leads, good) =
        applied-Moved env (machine_for machine limit) c w done changed in
      let same : u ≡ t = some-injective u t (sym its_row ∙ is_row) in
      let exceptional = lookup-return machine w.subject.status c.event t is_row back in
      (
        ap not exceptional,
        LeadsTo-ordinary t _ back saved (
            subst
              (λ v.
                LeadsTo env (machine_for machine limit) c w v
                  (fire env (machine_for machine limit) c w).1.subject.status)
              same leads),
      )
