-- ===== src/Commands/Examples.antt =====
-- Two commands that run, at which the theorem on the executor applies.
use mantlerd.Base.{◌≡◌, refl, String, [], ◌∷◌, All, elem, trim_space}
use mantlerd.Base.Dict.{put, lookup}
use mantlerd.Policy.{allowed, restrict, listed_or, is_destructive}
use mantlerd.Commands.Lanes.{AgentCommand}
use mantlerd.Commands.Executor.{Executor, cancel_command, begin_command}
use mantlerd.Commands.Executor.Cancellation.{
  Reach, here, next, beginning, cancelling, IsPermitted, cancel_running, cancel-running,
}

abbrev pull : AgentCommand
pull = record { id = "c1"; command_type = "pull_model"; params = [] }

abbrev update : AgentCommand
update = record { id = "c2"; command_type = "update_agent"; params = [] }

abbrev stop : AgentCommand
stop = record { id = "c3"; command_type = "stop_model"; params = [] }

-- The second command is denied, the third runs, and the first is cancelled.
abbrev executor : Executor
executor = record {
  trust_mode = "restricted";
  allowed_commands = [];
  active_cancel = ("c1", 0) ∷ ("c3", 1) ∷ [];
  cancelled = 0 ∷ [];
  next_context = 2;
  running = (1, stop) ∷ (0, pull) ∷ [];
}

executor-Reach : Reach "restricted" [] executor
unfolding begin_command cancel_command allowed restrict listed_or is_destructive elem trim_space put
    lookup
executor-Reach =
    next
      (next (next (next here (beginning pull refl refl)) (beginning update refl refl))
        (beginning stop refl refl))
      (cancelling "c1" refl)

cancel-running_example :
    All (IsPermitted executor) executor.running
    × ((id : String) → cancel_command id executor ≡ cancel_running id executor)
cancel-running_example = cancel-running executor-Reach
