-- ===== src/Orchestrator/Engine/Idempotency.antt =====
-- Step 1 of `fire`: an event that carries a key is applied once, whatever happens in between.
use orchestration_system.Common.{
  ℕ, String, ◌≡◌, refl, sym, ◌∙◌, ap, true, false, none, some, Option, List, [], ◌∷◌, arith,
  Bool-cases, inl, inr, str_eq, str_eq→eq, eq→str_eq, filter,
}
use orchestration_system.Database.{Env, Db, WorkflowEvent}
use orchestration_system.Orchestrator.Machine.{World, StateMachine, ok}
use orchestration_system.Orchestrator.Engine.{
  Call, TransitionResult, Outcome, has_key, find_existing, scalar_one_or_none, fire_event, enter,
  apply, fire, reject, replay,
}
use orchestration_system.Orchestrator.Engine.Steps.{
  IsFresh, Fires, ambiguous, replayed, illegal, stranded, refused, applied, fire-Fires, Fires-fire,
}
use orchestration_system.Orchestrator.Engine.Effects.{apply-frame}

-- `x` is the one event with the key.
abbrev pub UsedBy : String → WorkflowEvent → Db → Type 0
UsedBy key x db = filter (has_key key) db.events ≡ x ∷ []

scalar_none : (rows : List WorkflowEvent) → scalar_one_or_none rows ≡ ok none → rows ≡ []
scalar_none [] h = refl
scalar_none (a ∷ []) h = ground arith
scalar_none (a ∷ b ∷ rows) h = cc

fresh_key :
    (key : String) (events : List WorkflowEvent)
    → find_existing (some key) events ≡ ok none
    → filter (has_key key) events ≡ []
unfolding find_existing
fresh_key key events h = scalar_none (filter (has_key key) events) h

used_key :
    (key : String) (x : WorkflowEvent) (db : Db)
    → UsedBy key x db
    → find_existing (some key) db.events ≡ ok (some x)
unfolding find_existing
used_key key x db used = rw used

module _ (env : Env) (m : StateMachine) (c : Call) (w : World) where
  has_key-fire_event :
      (key target : String) (i now : ℕ)
      → has_key key (fire_event env m c w target i now) ≡ true
      → c.idempotency_key ≡ some key
  unfolding has_key fire_event
  has_key-fire_event key target i now h = by_case c.idempotency_key h
    where
      by_case :
          (o : Option String)
          → elim o [ none ↦ false | some k ↦ str_eq k key ] ≡ true
          → o ≡ some key
      by_case none h = cc
      by_case (some k) h = ap some (str_eq→eq k key h)

  -- No later call adds a second event with a key.
  fire-UsedBy :
      (key : String) (x : WorkflowEvent) → UsedBy key x w.db → UsedBy key x (fire env m c w).1.db
  fire-UsedBy key x used = by_rule (fire-Fires env m c w)
    where
      by_rule : {o : Outcome} → Fires env m c w o → UsedBy key x o.1.db
      by_rule (ambiguous e found) = used
      by_rule (replayed existing found) = (unfold replay in used)
      by_rule (illegal fresh nothing) = (unfold reject in used)
      by_rule (stranded t fresh is_row same no_checkpoint) = (unfold reject in used)
      by_rule (refused t target fresh is_row leads bad) = (unfold reject in used)
      by_rule (applied t target fresh is_row leads good) =
          rw ((apply-frame env m c w target).0)
            (elim (Bool-cases (
              has_key key (
                fire_event env m c w target (env.uuid4 (enter env m c w target).made)
                  (env.utc_now (enter env m c w target).made)))) [
                    | inr other ↦ rw other used
                    | inl same ↦
                        let its_key = has_key-fire_event key target _ _ same in
                        cc (
                          sym (ap (λ k. find_existing k w.db.events) its_key) ∙ fresh,
                          used_key key x w.db used,
                        )
                  ])

  event_key :
      (key target : String) (i now : ℕ)
      → c.idempotency_key ≡ some key
      → has_key key (fire_event env m c w target i now) ≡ true
  unfolding has_key fire_event
  event_key key target i now h = rw h (eq→str_eq key key refl)

  apply-UsedBy :
      (key target : String)
      → c.idempotency_key ≡ some key
      → IsFresh env m c w
      → UsedBy key
          (fire_event env m c w target
            (env.uuid4 (enter env m c w target).made)
            (env.utc_now (enter env m c w target).made))
          (apply env m c w target).1.db
  apply-UsedBy key target its_key fresh = rw ((apply-frame env m c w target).0) (
      rw (event_key key target _ _ its_key) (
        rw (
          fresh_key key w.db.events (sym (ap (λ k. find_existing k w.db.events) its_key) ∙ fresh))))

  -- the event of an applied call
  abbrev Recorded : String → TransitionResult → World → Type 0
  Recorded key r w' =
      (x : WorkflowEvent) × UsedBy key x w'.db
      × (x.from_state ≡ r.from_state)
      × (x.to_state ≡ r.to_state)

  applied-Recorded :
      (key : String) {r : TransitionResult}
      → c.idempotency_key ≡ some key
      → (fire env m c w).0 ≡ ok r
      → r.applied ≡ true
      → Recorded key r (fire env m c w).1
  applied-Recorded key its_key done changed = by_rule (fire-Fires env m c w) done changed
    where
      by_rule :
          {o : Outcome} {r : TransitionResult}
          → Fires env m c w o
          → o.0 ≡ ok r
          → r.applied ≡ true
          → Recorded key r o.1
      by_rule (ambiguous d found) done changed = cc
      by_rule (replayed existing found) done changed = (unfold replay in ground arith)
      by_rule (illegal fresh nothing) done changed = (unfold reject in cc)
      by_rule (stranded t fresh is_row same no_checkpoint) done changed = (unfold reject in cc)
      by_rule (refused t target fresh is_row leads bad) done changed = (unfold reject in cc)
      by_rule (applied t target fresh is_row leads good) done changed = (
        fire_event env m c w target (env.uuid4 (enter env m c w target).made)
            (env.utc_now (enter env m c w target).made),
        apply-UsedBy key target its_key fresh,
        (unfold apply fire_event in ground arith),
        (unfold apply fire_event in ground arith),
      )

-- A caller that goes on after each call, whether or not it raised
unfoldable pub run : Env → StateMachine → List Call → World → World
run env m [] w = w
run env m (c ∷ cs) w = run env m cs (fire env m c w).1

module _ (env : Env) (m : StateMachine) where
  run-UsedBy :
      (cs : List Call) (w : World) (key : String) (x : WorkflowEvent)
      → UsedBy key x w.db
      → UsedBy key x (run env m cs w).db
  unfolding run
  run-UsedBy [] w key x used = used
  run-UsedBy (c ∷ cs) w key x used =
      run-UsedBy cs (fire env m c w).1 key x (fire-UsedBy env m c w key x used)

  -- The result of a replay
  abbrev pub Replays : TransitionResult → World → Outcome → Type 0
  Replays r w o =
      (q : TransitionResult) × (o.0 ≡ ok q)
      × (q.applied ≡ false)
      × (q.idempotent_replay ≡ true)
      × (q.from_state ≡ r.from_state)
      × (q.to_state ≡ r.to_state)
      × (o.1.subject ≡ w.subject)
      × (o.1.db.events ≡ w.db.events)
      × (o.1.db.checkpoints ≡ w.db.checkpoints)

  -- Once a call with a key was applied, then after any further calls a call with the same key, also
  -- for another event, applies nothing: it reports the two states of the first call as a replay,
  -- and changes neither the subject nor the events nor the checkpoints.
  pub fire-Replays :
      (key : String) (c d : Call) (cs : List Call) (w : World) {r : TransitionResult}
      → c.idempotency_key ≡ some key
      → d.idempotency_key ≡ some key
      → (fire env m c w).0 ≡ ok r
      → r.applied ≡ true
      → Replays r (run env m cs (fire env m c w).1) (fire env m d (run env m cs (fire env m c w).1))
  fire-Replays key c d cs w same same' done changed =
      let w' = run env m cs (fire env m c w).1 in
      let (x, used, from, to) = applied-Recorded env m c w key same done changed in
      let still = run-UsedBy cs (fire env m c w).1 key x used in
      let found = ap (λ k. find_existing k w'.db.events) same' ∙ used_key key x w'.db still in
      rw (Fires-fire env m d w' (replayed x found))
        (unfold replay in (_, refl, refl, refl, from, to, refl, refl, refl))
