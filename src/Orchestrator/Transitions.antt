-- ===== src/Orchestrator/Transitions.antt =====
-- app/orchestrator/transitions.py: the transition tables, and the choice of a machine's tables.
mod Defs
mod Product
mod Development
pub use Defs.*
unfoldable pub use Product.{product_transitions, product_exception_states, product_terminal_states}
unfoldable pub use Development.{
  development_transitions, development_exception_states, development_terminal_states,
}
use orchestration_system.Common.{String, List}

unfoldable pub transitions_for : MachineType → List TransitionDef
transitions_for MachineType.product = product_transitions
transitions_for MachineType.development = development_transitions

unfoldable pub exception_states_for : MachineType → List String
exception_states_for MachineType.product = product_exception_states
exception_states_for MachineType.development = development_exception_states

-- PRODUCT_TERMINAL_STATES and DEVELOPMENT_TERMINAL_STATES, chosen in the same way
unfoldable pub terminal_states_for : MachineType → List String
terminal_states_for MachineType.product = product_terminal_states
terminal_states_for MachineType.development = development_terminal_states
