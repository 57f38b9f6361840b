-- ===== src/Orchestrator/Engine/Resume.antt =====
-- Leaving an ordinary state for an exception state, and coming back to it (steps 3 and 5 of `fire`).
use mathlib.Core.Option.{some-injective}
use orchestration_system.Common.{
  ℕ, ◌<◌, String, ◌≡◌, refl, sym, ◌∙◌, ap, Bool, true, false, none, some, List, [], ◌∷◌, arith,
  Bool-cases, inl, inr, str_eq, eq→str_eq, contains, All, filter,
}
use orchestration_system.Database.{Env, Db, WorkflowCheckpoint, latest-newest, is_before}
use orchestration_system.Orchestrator.Transitions.{TransitionDef, checkpoint}
use orchestration_system.Orchestrator.Guards.{checkpoint_of}
use orchestration_system.Orchestrator.Machine.{World, StateMachine, ok}
use orchestration_system.Orchestrator.Engine.{
  Call, latest_checkpoint, checkpoint_key, apply, enter, fire, TransitionResult, reject, replay,
  Outcome,
}
use orchestration_system.Orchestrator.Engine.Steps.{
  LeadsTo, named, restored, IsRow, Fires, ambiguous, replayed, illegal, stranded, refused, applied,
  fire-Fires,
}
use orchestration_system.Orchestrator.Engine.Effects.{apply-frame, applied-Moved}

-- Every checkpoint was made before now.
abbrev pub AllPast : Env → Db → Type 0
AllPast env db =
    All (λ (cp : WorkflowCheckpoint). cp.created_at < env.utc_now db.made) db.checkpoints

filter-not_before :
    (p : WorkflowCheckpoint → Bool) (now id : ℕ) (rows : List WorkflowCheckpoint)
    → All (λ (cp : WorkflowCheckpoint). cp.created_at < now) rows
    → All (λ cp. is_before (now, id) (checkpoint_key cp) ≡ false) (filter p rows)
filter-not_before p now id [] h = tt
filter-not_before p now id (cp ∷ rows) h = elim (Bool-cases (p cp)) [
  | inl kept ↦ rw kept (ground arith, filter-not_before p now id rows h.1)
  | inr dropped ↦ rw dropped (filter-not_before p now id rows h.1)
]

module _ (env : Env) (m : StateMachine) (c : Call) (w : World) where
  -- what an applied call leaves for the next one
  abbrev Left : World → Type 0
  Left w' =
      (w'.subject.id ≡ w.subject.id)
      × (w'.db.checkpoints ≡ (enter env m c w w'.subject.status).checkpoints)

  applied-Left :
      {r : TransitionResult}
      → (fire env m c w).0 ≡ ok r
      → r.applied ≡ true
      → Left (fire env m c w).1
  applied-Left done changed = by_rule (fire-Fires env m c w) done changed
    where
      by_rule :
          {o : Outcome} {r : TransitionResult}
          → Fires env m c w o
          → o.0 ≡ ok r
          → r.applied ≡ true
          → Left o.1
      by_rule (ambiguous d found) done changed = cc
      by_rule (replayed existing found) done changed = (unfold replay in ground arith)
      by_rule (illegal fresh nothing) done changed = (unfold reject in cc)
      by_rule (stranded t fresh is_row same no_checkpoint) done changed = (unfold reject in cc)
      by_rule (refused t target fresh is_row leads bad) done changed = (unfold reject in cc)
      by_rule (applied t target fresh is_row leads good) done changed =
          (unfold apply in (refl, (apply-frame env m c w target).1))

  -- the checkpoint that the call saves
  abbrev entry : WorkflowCheckpoint
  entry = record {
    id = env.uuid4 w.db.made;
    subject_type = m.subject_type;
    subject_id = w.subject.id;
    state = w.subject.status;
    payload = elim c.checkpoint_payload [ none ↦ [] | some payload ↦ payload ];
    created_at = env.utc_now w.db.made;
  }

  enter_saves :
      (target : String)
      → contains m.exception_states w.subject.status ≡ false
      → contains m.exception_states target ≡ true
      → (enter env m c w target).checkpoints ≡ entry ∷ w.db.checkpoints
  unfolding enter
  enter_saves target ordinary exceptional = rw (exceptional, ordinary)

  own_entry : checkpoint_of m.subject_type w.subject.id entry ≡ true
  unfolding checkpoint_of
  own_entry = ground (arith, eq→str_eq m.subject_type m.subject_type refl)

  -- Entering an exception state from an ordinary one, the state left is the latest checkpoint.
  latest-enter :
      (target : String) (db : Db)
      → contains m.exception_states w.subject.status ≡ false
      → contains m.exception_states target ≡ true
      → AllPast env w.db
      → db.checkpoints ≡ (enter env m c w target).checkpoints
      → latest_checkpoint m.subject_type w.subject.id db ≡ some entry
  unfolding latest_checkpoint
  latest-enter target db ordinary exceptional past saved =
      rw (saved ∙ enter_saves target ordinary exceptional) (
        rw own_entry (
          latest-newest checkpoint_key entry
            (filter (checkpoint_of m.subject_type w.subject.id) w.db.checkpoints)
            (filter-not_before (checkpoint_of m.subject_type w.subject.id) (env.utc_now w.db.made)
              (env.uuid4 w.db.made) w.db.checkpoints past)))

module _ (env : Env) (m : StateMachine) (c d : Call) (w : World) where
  -- A call that takes a subject from an ordinary state into an exception state, and then a call that
  -- is applied along a row back to a checkpoint, restore the status that it had, provided that all
  -- older checkpoints were made at earlier times.
  pub fire-fire_resumes :
      (t : TransitionDef) {r q : TransitionResult}
      → AllPast env w.db
      → contains m.exception_states w.subject.status ≡ false
      → (fire env m c w).0 ≡ ok r
      → r.applied ≡ true
      → contains m.exception_states (fire env m c w).1.subject.status ≡ true
      → IsRow env m d (fire env m c w).1 t
      → str_eq t.target checkpoint ≡ true
      → (fire env m d (fire env m c w).1).0 ≡ ok q
      → q.applied ≡ true
      → (fire env m d (fire env m c w).1).1.subject.status ≡ w.subject.status
  fire-fire_resumes t past ordinary done changed exceptional is_row back done' changed' =
      let w' = (fire env m c w).1 in
      let (u, its_row, leads, good) = applied-Moved env m d w' done' changed' in
      let same : u ≡ t = some-injective u t (sym its_row ∙ is_row) in
      restores u leads (rw same back)
    where
      found :
          latest_checkpoint m.subject_type (fire env m c w).1.subject.id (fire env m c w).1.db
          ≡ some (entry env m c w)
      found =
          let left = applied-Left env m c w done changed in
          rw (left.0) (
            latest-enter env m c w (fire env m c w).1.subject.status (fire env m c w).1.db ordinary
              exceptional past left.1)

      restores :
          (u : TransitionDef) {target : String}
          → LeadsTo env m d (fire env m c w).1 u target
          → str_eq u.target checkpoint ≡ true
          → target ≡ w.subject.status
      restores u (named other e) back = cc (sym back ∙ other)
      restores u (restored cp same latest e) back =
          let one : cp ≡ entry env m c w =
            some-injective cp (entry env m c w) (sym latest ∙ found) in
          sym e ∙ ap (λ (x : WorkflowCheckpoint). x.state) one
