-- ===== src/Orchestrator/Transitions/Defs.antt =====
-- The rows of the transition tables of app/orchestrator/transitions.py, and the two machines.
use orchestration_system.Common.{String, Option, none, some}

pub data MachineType : Type 0 where
  product development : MachineType

-- `target` is a state name or the sentinel `checkpoint`.
pub record TransitionDef : Type 0 where
  pub source : String
  pub event : String
  pub target : String
  pub guard : Option String

-- CHECKPOINT: go back to the state of the latest checkpoint.
abbrev pub checkpoint : String
checkpoint = "CHECKPOINT"

abbrev pub plain : String → String → String → TransitionDef
plain s e t = record { source = s; event = e; target = t; guard = none }

abbrev pub guarded : String → String → String → String → TransitionDef
guarded s e t g = record { source = s; event = e; target = t; guard = some g }
