-- ===== src/Orchestrator/Tables.antt =====
-- What holds of every row of the two tables of app/orchestrator/transitions.py, by evaluation, and
-- so of every row that a machine's index finds.
use mathlib.Core.List.{Memᴰ}
use text.Mathlib.Text.{starts_with}
use orchestration_system.Common.{
  String, ◌≡◌, refl, Bool, true, false, not, ◌&&◌, ◌||◌, Option, none, some, List, arith, ap,
  str_eq, str_eq→eq, contains, all, all_sound, is_some, if◌then◌else◌,
}
use orchestration_system.Enums.{product_states, development_states}
use orchestration_system.Orchestrator.Transitions.{
  MachineType, TransitionDef, checkpoint, transitions_for, product_transitions,
  development_transitions, exception_states_for, product_exception_states,
  development_exception_states, terminal_states_for, product_terminal_states,
  development_terminal_states,
}
use orchestration_system.Orchestrator.Guards.{guard_registry, lookup_guard}
use orchestration_system.Orchestrator.Machine.{lookup_index}
use orchestration_system.Orchestrator.Engine.Index.{
  index_for, build_index_iff, build_index-transitions_for,
}

-- ProductState or DevelopmentState
unfoldable pub states_for : MachineType → List String
unfolding product_states development_states
states_for MachineType.product = product_states
states_for MachineType.development = development_states

abbrev guard_is : String → Option String → Bool
guard_is name none = false
guard_is name (some g) = str_eq g name

-- RETRY_SCHEDULED is guarded by `can_retry`.
retry_row : TransitionDef → Bool
retry_row t = if str_eq t.event "RETRY_SCHEDULED" then guard_is "can_retry" t.guard else true

-- Only an exception state has a way back to a checkpoint.
return_row : MachineType → TransitionDef → Bool
return_row machine t =
    if str_eq t.target checkpoint then contains (exception_states_for machine) t.source else true

-- No row leaves a terminal state.
alive_row : MachineType → TransitionDef → Bool
alive_row machine t = not (contains (terminal_states_for machine) t.source)

-- A row joins two states of the machine's enumeration, or leads from one to a checkpoint.
state_row : MachineType → TransitionDef → Bool
state_row machine t =
    contains (states_for machine) t.source
    && (str_eq t.target checkpoint || contains (states_for machine) t.target)

-- A row's guard is deferred, or is in the registry.
guard_row : TransitionDef → Bool
guard_row t = elim t.guard [
  | none ↦ true
  | some name ↦ starts_with name "deferred:" || is_some (lookup_guard name guard_registry)
]

sound_row : MachineType → TransitionDef → Bool
sound_row machine t =
    retry_row t
    && (return_row machine t && (alive_row machine t && (state_row machine t && guard_row t)))

all-sound_row : (machine : MachineType) → all (sound_row machine) (transitions_for machine) ≡ true
unfolding sound_row retry_row return_row alive_row state_row guard_row transitions_for
    product_transitions development_transitions exception_states_for product_exception_states
    development_exception_states terminal_states_for product_terminal_states
    development_terminal_states states_for guard_registry lookup_guard str_eq
all-sound_row MachineType.product = refl
all-sound_row MachineType.development = refl

retry_guard : (g : Option String) → guard_is "can_retry" g ≡ true → g ≡ some "can_retry"
retry_guard none h = cc
retry_guard (some name) h = ap some (str_eq→eq name "can_retry" h)

module _ (machine : MachineType) (s e : String) (t : TransitionDef)
    (found : lookup_index s e (index_for machine) ≡ some t) where
  row : Memᴰ t (transitions_for machine) × (t.source ≡ s) × (t.event ≡ e)
  row =
      (build_index_iff (transitions_for machine) (index_for machine) s e t
          (build_index-transitions_for machine)).0
        found

  row_sound : sound_row machine t ≡ true
  row_sound =
      all_sound (sound_row machine) t (transitions_for machine) (all-sound_row machine) row.0

  row_parts :
      (retry_row t ≡ true)
      × (return_row machine t ≡ true)
      × (alive_row machine t ≡ true)
      × (state_row machine t ≡ true)
      × (guard_row t ≡ true)
  unfolding sound_row
  row_parts = ground (arith, row_sound)

  pub lookup-source : t.source ≡ s
  lookup-source = row.1

  -- A RETRY_SCHEDULED row is guarded by `can_retry`.
  pub lookup-retry : str_eq e "RETRY_SCHEDULED" ≡ true → t.guard ≡ some "can_retry"
  unfolding retry_row
  lookup-retry h =
      let hit : str_eq t.event "RETRY_SCHEDULED" ≡ true = rw row.2 h in
      retry_guard t.guard (ground (arith, row_parts.0))

  -- A row back to a checkpoint starts in an exception state.
  pub lookup-return :
      str_eq t.target checkpoint ≡ true → contains (exception_states_for machine) s ≡ true
  unfolding return_row
  lookup-return h = rw (← lookup-source) (ground (arith, row_parts.1))

  -- No row starts in a terminal state.
  pub lookup-alive : contains (terminal_states_for machine) s ≡ false
  unfolding alive_row
  lookup-alive = rw (← lookup-source) (ground (arith, row_parts.2))

  -- A row starts in a state of the machine, and leads to a checkpoint or to another such state.
  pub lookup-state :
      (contains (states_for machine) s ≡ true)
      × ((str_eq t.target checkpoint || contains (states_for machine) t.target) ≡ true)
  unfolding state_row
  lookup-state = rw (← lookup-source) (ground (arith, row_parts.3))
