-- ===== src/Commands/Lanes.antt =====
-- internal/commands/executor.go: commands, and the lanes in which they are executed.
use mantlerd.Base.{String, List, [], ◌∷◌, elem, if◌then◌else◌}

-- A parameter's value: a JSON text, or any other JSON value.
pub data Param : Type 0 where
  text : String → Param
  other : Param

pub record AgentCommand : Type 0 where
  pub id : String
  pub command_type : String
  pub params : List (String × Param)

pub data Lane : Type 0 where
  heavy light : Lane

abbrev pub light_commands : List String
light_commands =
    "cancel_command" ∷ "health_check" ∷ "training_status" ∷ "model_eval" ∷ "sync_harnesses"
    ∷ "harness_login" ∷ "run_harness_exec" ∷ "run_orchestrator_exec" ∷ []

unfoldable pub command_lane : String → Lane
command_lane command_type = if elem command_type light_commands then light else heavy
