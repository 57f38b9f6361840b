-- ===== src/Orchestrator/Engine/Clock.antt =====
-- With a clock that moves, checkpoints are always older than now, so that a subject comes back to
-- the state that it left after any calls before.
use orchestration_system.Common.{
  ℕ, ◌+◌, ◌<◌, ◌≡◌, true, false, not, ◌&&◌, List, [], ◌∷◌, arith, Bool-cases, inl, inr, str_eq,
  contains, All,
}
use orchestration_system.Database.{Env, WorkflowCheckpoint}
use orchestration_system.Orchestrator.Transitions.{TransitionDef, checkpoint}
use orchestration_system.Orchestrator.Machine.{World, StateMachine, ok}
use orchestration_system.Orchestrator.Engine.{
  Call, Outcome, TransitionResult, enter, fire, reject, replay, apply, save_checkpoint,
}
use orchestration_system.Orchestrator.Engine.Steps.{
  IsRow, Fires, ambiguous, replayed, illegal, stranded, refused, applied, fire-Fires,
}
use orchestration_system.Orchestrator.Engine.Resume.{AllPast, fire-fire_resumes}
use orchestration_system.Orchestrator.Engine.Idempotency.{run}

-- The clock moves between any two rows.
abbrev pub Ticks : Env → Type 0
Ticks env = (n : ℕ) → env.utc_now n < env.utc_now (n + 1)

before : {a b c : ℕ} → a < b → b < c → a < c
before h k = omega (arith, h, k)

module _ (env : Env) (ticks : Ticks env) where
  All-older :
      (made : ℕ) (rows : List WorkflowCheckpoint)
      → All (λ (cp : WorkflowCheckpoint). cp.created_at < env.utc_now made) rows
      → All (λ (cp : WorkflowCheckpoint). cp.created_at < env.utc_now (made + 1)) rows
  All-older made [] h = tt
  All-older made (cp ∷ rows) h = (before h.0 (ticks made), All-older made rows h.1)

  enter-AllPast :
      (m : StateMachine) (c : Call) (w : World) (target : _)
      → AllPast env w.db
      → AllPast env (enter env m c w target)
  unfolding enter save_checkpoint
  enter-AllPast m c w target past =
      elim (Bool-cases (
        contains m.exception_states target && not (contains m.exception_states w.subject.status))) [
          | inl saves ↦ rw saves (ticks w.db.made, All-older w.db.made w.db.checkpoints past)
          | inr passes ↦ rw passes past
        ]

  fire-AllPast :
      (m : StateMachine) (c : Call) (w : World)
      → AllPast env w.db
      → AllPast env (fire env m c w).1.db
  fire-AllPast m c w past = by_rule (fire-Fires env m c w)
    where
      by_rule : {o : Outcome} → Fires env m c w o → AllPast env o.1.db
      by_rule (ambiguous e found) = past
      by_rule (replayed existing found) =
          (unfold replay in All-older w.db.made w.db.checkpoints past)
      by_rule (illegal fresh nothing) = (unfold reject in All-older w.db.made w.db.checkpoints past)
      by_rule (stranded t fresh is_row same no_checkpoint) =
          (unfold reject in All-older w.db.made w.db.checkpoints past)
      by_rule (refused t target fresh is_row leads bad) =
          (unfold reject in All-older w.db.made w.db.checkpoints past)
      by_rule (applied t target fresh is_row leads good) =
          let now = enter env m c w target in
          (unfold apply in
            All-older (now.made + 1) now.checkpoints
              (All-older now.made now.checkpoints (enter-AllPast m c w target past)))

  run-AllPast :
      (m : StateMachine) (cs : List Call) (w : World)
      → AllPast env w.db
      → AllPast env (run env m cs w).db
  unfolding run
  run-AllPast m [] w past = past
  run-AllPast m (c ∷ cs) w past = run-AllPast m cs (fire env m c w).1 (fire-AllPast m c w past)

  -- With a clock that moves between any two rows, from tables without checkpoints and after any
  -- calls: a call that takes the subject from an ordinary state into an exception state, and then a
  -- call that is applied along a row back to a checkpoint, restore the status that it had.
  pub run-fire_resumes :
      (m : StateMachine) (cs : List Call) (start w w' : World) (c d : Call) (t : TransitionDef)
      {r q : TransitionResult}
      → start.db.checkpoints ≡ []
      → w ≡ run env m cs start
      → w' ≡ (fire env m c w).1
      → contains m.exception_states w.subject.status ≡ false
      → (fire env m c w).0 ≡ ok r
      → r.applied ≡ true
      → contains m.exception_states w'.subject.status ≡ true
      → IsRow env m d w' t
      → str_eq t.target checkpoint ≡ true
      → (fire env m d w').0 ≡ ok q
      → q.applied ≡ true
      → (fire env m d w').1.subject.status ≡ w.subject.status
  run-fire_resumes m cs start w w' c d t empty ran moved ordinary done changed exceptional is_row
        back done' changed' =
      let nothing : AllPast env start.db = rw empty tt in
      let past : AllPast env w.db = rw ran (run-AllPast m cs start nothing) in
      rw moved (
        fire-fire_resumes env m c d w t past ordinary done changed (rw moved at exceptional)
          (rw moved at is_row) back (rw moved at done') changed')
