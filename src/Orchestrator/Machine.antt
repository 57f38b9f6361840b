-- ===== src/Orchestrator/Machine.antt =====
-- app/orchestrator/state_machine.py, the constructor, with the two builders: the index of a table, and
-- the results of calls that can raise.
use orchestration_system.Common.{
  ℕ, String, ◌&&◌, Option, none, some, List, [], ◌∷◌, if◌then◌else◌, str_eq, is_some,
}
use orchestration_system.Database.{Db}
use orchestration_system.Orchestrator.Transitions.{
  MachineType, TransitionDef, transitions_for, exception_states_for,
}
use orchestration_system.Orchestrator.Subjects.{Subject}

pub data Error : Type 0 where
  -- state_machine.py
  illegal_transition guard_rejected : Error
  -- ValueError of the constructor, MultipleResultsFound of SQLAlchemy
  duplicate_transition multiple_results : Error
  -- WorkflowStateError and AppError of product/workflow.py
  workflow_state app_error : Error
  -- AssertionError, and IntegrityError of SQLAlchemy
  assertion integrity : Error
  -- HTTPException 400 of api/approvals.py
  unsupported_approval : Error

pub data Result {ℓ} (A : Type ℓ) : Type ℓ where
  ok : A → Result A
  err : Error → Result A

pub record World : Type 0 where
  pub subject : Subject
  pub db : Db

-- A key and its row, of the dict `_index`
abbrev pub Index : Type 0
Index = List (String × String × TransitionDef)

unfoldable pub lookup_index : String → String → Index → Option TransitionDef
lookup_index source event [] = none
lookup_index source event ((s, e, t) ∷ index) =
    if str_eq s source && str_eq e event then some t else lookup_index source event index

-- The loop of the constructor: a second row for a key is a ValueError.
unfoldable pub build_index : List TransitionDef → Index → Result Index
unfolding lookup_index
build_index [] index = ok index
build_index (t ∷ ts) index =
    let rest = build_index ts ((t.source, t.event, t) ∷ index) in
    if is_some (lookup_index t.source t.event index) then err Error.duplicate_transition else rest

pub record StateMachine : Type 0 where
  pub machine : MachineType
  pub subject_type : String
  pub index : Index
  pub exception_states : List String
  pub max_retries : ℕ

-- PRODUCT_SUBJECT_TYPE and DEVELOPMENT_SUBJECT_TYPE
unfoldable pub subject_type_of : MachineType → String
subject_type_of MachineType.product = "project"
subject_type_of MachineType.development = "task"

-- `build_product_state_machine` and `build_development_state_machine`
unfoldable pub build_state_machine : MachineType → ℕ → Result StateMachine
unfolding subject_type_of exception_states_for
build_state_machine machine max_retries = elim (build_index (transitions_for machine) []) [
  | err e ↦ err e
  | ok index ↦ ok (record {
    machine = machine;
    subject_type = subject_type_of machine;
    index = index;
    exception_states = exception_states_for machine;
    max_retries = max_retries;
  })
]
