-- ===== src/Orchestrator/Engine/Keys.antt =====
-- The search of `fire` for the idempotency key of a call, in app/orchestrator/state_machine.py.
use orchestration_system.Common.{
  ◌≡◌, refl, none, some, List, [], ◌∷◌, filter, Option-cases, inl, inr, arith,
}
use orchestration_system.Database.{WorkflowEvent}
use orchestration_system.Orchestrator.Machine.{Error, ok, err, World}
use orchestration_system.Orchestrator.Engine.{Call, find_existing, scalar_one_or_none, has_key}

pub scalar-ok_none : (rows : List WorkflowEvent) → scalar_one_or_none rows ≡ ok none → rows ≡ []
scalar-ok_none [] h = refl
scalar-ok_none (a ∷ []) h = cc
scalar-ok_none (a ∷ b ∷ rows) h = cc

pub scalar-ok_some :
    (rows : List WorkflowEvent) (old : WorkflowEvent)
    → scalar_one_or_none rows ≡ ok (some old)
    → rows ≡ old ∷ []
scalar-ok_some [] old h = cc
scalar-ok_some (a ∷ []) old h = cc
scalar-ok_some (a ∷ b ∷ rows) old h = cc

abbrev pub TwoRows : List WorkflowEvent → Type 0
TwoRows rows = (a b : WorkflowEvent) × (rest : List WorkflowEvent) × (rows ≡ a ∷ b ∷ rest)

pub scalar-err :
    (rows : List WorkflowEvent) (e : Error)
    → scalar_one_or_none rows ≡ err e
    → (e ≡ Error.multiple_results) × TwoRows rows
scalar-err [] e h = cc
scalar-err (a ∷ []) e h = cc
scalar-err (a ∷ b ∷ rows) e h = (ground arith, (a, b, rows, refl))

module _ (c : Call) (w : World) where
  -- the events that carry the key of the call
  abbrev pub under_key : List WorkflowEvent
  under_key = elim c.idempotency_key [ none ↦ [] | some key ↦ filter (has_key key) w.db.events ]

  -- The search for the key reads the events that carry it.
  pub find_existing-under_key :
      find_existing c.idempotency_key w.db.events ≡ scalar_one_or_none under_key
  unfolding find_existing
  find_existing-under_key = elim (Option-cases c.idempotency_key) [
    | inl absent ↦ rw absent refl
    | inr (key, present) ↦ rw present refl
  ]
