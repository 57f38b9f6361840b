-- ===== src/Orchestrator/Engine/Histories.antt =====
-- What holds after any number of calls of `fire`, for any subjects, mixed with writes to the tables
-- that are not the engine's.
use orchestration_system.Common.{ℕ, String, ◌≡◌, refl, sym, ◌∙◌, true, [], arith, contains}
use mathlib.Core.Path.{subst}
use mathlib.Core.Bool.{false≢true}
use orchestration_system.Database.{Env, Db}
use orchestration_system.Orchestrator.Transitions.{MachineType, TransitionDef, terminal_states_for}
use orchestration_system.Orchestrator.Tables.{states_for, lookup-alive, lookup-state}
use orchestration_system.Orchestrator.Machine.{Error, World, err}
use orchestration_system.Orchestrator.Engine.{Call, Outcome, fire, reject, replay, apply}
use orchestration_system.Orchestrator.Engine.Index.{machine_for}
use orchestration_system.Orchestrator.Engine.Steps.{
  LeadsTo, named, restored, IsRow, IsFresh, Fires, ambiguous, replayed, illegal, stranded, refused,
  applied, fire-Fires,
}
use orchestration_system.Orchestrator.Engine.Retry.{RetryBounded, fire-RetryBounded}
use orchestration_system.Orchestrator.Engine.Checkpoints.{
  AllSaved, is_ordinary, fire-saves_ordinary, fire-AllSaved, latest-AllSaved,
}

module _ (env : Env) (machine : MachineType) (limit : ℕ) where
  -- `fired`: one call for the subject at hand. `elsewhere`: other code writes to tables of its own,
  -- or another subject is loaded; events and checkpoints stay.
  pub data History (start : World) : World → Type 0 where
    begun : History start start
    fired :
        {w u : World} (c : Call)
        → History start w
        → u ≡ (fire env (machine_for machine limit) c w).1
        → History start u
    elsewhere :
        {w u : World}
        → History start w
        → u.db.events ≡ w.db.events
        → u.db.checkpoints ≡ w.db.checkpoints
        → History start u

  -- the two invariants of the tables that the engine alone writes
  pub record Sound (db : Db) : Type 0 where
    pub retries : RetryBounded machine limit db
    pub saved : AllSaved machine (is_ordinary machine) db

  fire-Sound :
      (c : Call) (w : World) → Sound w.db → Sound (fire env (machine_for machine limit) c w).1.db
  fire-Sound c w sound = record {
    retries = fire-RetryBounded env machine limit c w sound.retries;
    saved = fire-saves_ordinary env machine limit c w sound.saved;
  }

  empty-Sound : (db : Db) → db.events ≡ [] → db.checkpoints ≡ [] → Sound db
  empty-Sound db no_events no_checkpoints = record {
    retries = λ id. rw no_events (omega arith);
    saved = rw no_checkpoints tt;
  }

  -- Starting from tables with no events and no checkpoints, whatever the machine fires for whatever
  -- subjects, mixed with any writes to other tables: no subject has more RETRY_SCHEDULED events than
  -- the limit, and no checkpoint of the machine holds an exception state.
  pub History-Sound :
      {start w : World}
      → start.db.events ≡ []
      → start.db.checkpoints ≡ []
      → History start w
      → Sound w.db
  History-Sound no_events no_checkpoints begun = empty-Sound _ no_events no_checkpoints
  History-Sound no_events no_checkpoints (fired {w = w} c before same) =
      rw same (fire-Sound c w (History-Sound no_events no_checkpoints before))
  History-Sound no_events no_checkpoints (elsewhere before events checkpoints) =
      let sound = History-Sound no_events no_checkpoints before in
      record { retries = λ id. rw events (sound.retries id); saved = rw checkpoints sound.saved }

-- The status, and the saved states of the machine, are members of the machine's enumeration.
abbrev pub IsKnown : MachineType → World → Type 0
IsKnown machine w =
    (contains (states_for machine) w.subject.status ≡ true)
    × AllSaved machine (contains (states_for machine)) w.db

module _ (env : Env) (machine : MachineType) (limit : ℕ) (c : Call) (w : World) where
  LeadsTo-known :
      (t : TransitionDef) (target : String)
      → IsRow env (machine_for machine limit) c w t
      → AllSaved machine (contains (states_for machine)) w.db
      → LeadsTo env (machine_for machine limit) c w t target
      → contains (states_for machine) target ≡ true
  unfolding machine_for
  LeadsTo-known t target is_row saved (named other e) =
      let known = (lookup-state machine w.subject.status c.event t is_row).1 in
      subst (λ s. contains (states_for machine) s ≡ true) e (rw other at known)
  LeadsTo-known t target is_row saved (restored cp same found e) =
      subst (λ s. contains (states_for machine) s ≡ true) e
        (latest-AllSaved machine (contains (states_for machine)) w.subject.id w.db cp saved found)

  -- A subject in a state of the machine's enumeration stays in one, if all saved states are too.
  pub fire-IsKnown :
      IsKnown machine w → IsKnown machine (fire env (machine_for machine limit) c w).1
  fire-IsKnown (known, saved) = (
    by_rule (fire-Fires env (machine_for machine limit) c w),
    fire-AllSaved env machine limit c w (contains (states_for machine)) (λ _. known) saved,
  )
    where
      by_rule :
          {o : Outcome}
          → Fires env (machine_for machine limit) c w o
          → contains (states_for machine) o.1.subject.status ≡ true
      by_rule (ambiguous e found) = known
      by_rule (replayed existing found) = (unfold replay in known)
      by_rule (illegal fresh nothing) = (unfold reject in known)
      by_rule (stranded t fresh is_row same no_checkpoint) = (unfold reject in known)
      by_rule (refused t target fresh is_row leads bad) = (unfold reject in known)
      by_rule (applied t target fresh is_row leads good) =
          (unfold apply in LeadsTo-known t target is_row saved leads)

  never :
      {A : Type 0} (t : TransitionDef)
      → contains (terminal_states_for machine) w.subject.status ≡ true
      → IsRow env (machine_for machine limit) c w t
      → A
  unfolding machine_for
  never t terminal is_row =
      absurd (false≢true (sym (lookup-alive machine w.subject.status c.event t is_row) ∙ terminal))

  -- The subject, and the result of a call whose key is new
  abbrev pub Stays : Outcome → Type 0
  Stays o =
      (o.1.subject ≡ w.subject)
      × (IsFresh env (machine_for machine limit) c w → o.0 ≡ err Error.illegal_transition)

  -- A subject in a terminal state keeps it, whatever is fired; a call whose idempotency key is new
  -- (or that has none) raises IllegalTransitionError.
  pub fire-terminal :
      contains (terminal_states_for machine) w.subject.status ≡ true
      → Stays (fire env (machine_for machine limit) c w)
  fire-terminal terminal = by_rule (fire-Fires env (machine_for machine limit) c w)
    where
      by_rule : {o : Outcome} → Fires env (machine_for machine limit) c w o → Stays o
      by_rule (ambiguous e found) = (refl, λ fresh. cc (sym found ∙ fresh))
      by_rule (replayed existing found) = (unfold replay in (refl, λ fresh. cc (sym found ∙ fresh)))
      by_rule (illegal fresh nothing) = (unfold reject in (refl, λ _. refl))
      by_rule (stranded t fresh is_row same no_checkpoint) = never t terminal is_row
      by_rule (refused t target fresh is_row leads bad) = never t terminal is_row
      by_rule (applied t target fresh is_row leads good) = never t terminal is_row
