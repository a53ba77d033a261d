-- ===== src/Commands/Executor.antt =====
-- internal/commands/executor.go: the gate of the policy before a command, and the registry through which a
-- running command is cancelled. A context is its number; the handler of a command runs between the
-- beginning and the finishing of the command.
pub mod Cancellation
use mantlerd.Base.{
  ℕ, ◌+◌, Bool, true, false, String, List, [], ◌∷◌, Option, none, some, ◌==◌, str_eq, if◌then◌else◌,
}
use mantlerd.Base.Dict.{Dict, lookup, put, delete}
use mantlerd.Policy.{Verdict, permitted, denied, allowed}
use mantlerd.Commands.Lanes.{AgentCommand}

pub record Executor : Type 0 where
  pub trust_mode : String
  pub allowed_commands : List String
  pub active_cancel : Dict ℕ
  -- the contexts that have been cancelled
  pub cancelled : List ℕ
  -- context.WithCancel gives a new one
  pub next_context : ℕ
  pub running : List (ℕ × AgentCommand)

abbrev pub register_cancel : String → ℕ → Executor → Executor
register_cancel command_id context e = record e {
  active_cancel = put command_id context e.active_cancel;
}

abbrev pub unregister_cancel : String → Executor → Executor
unregister_cancel command_id e = record e { active_cancel = delete command_id e.active_cancel }

-- CancelCommand, with whether the command was found.
unfoldable pub cancel_command : String → Executor → Bool × Executor
cancel_command command_id e = elim (lookup command_id e.active_cancel) [
  | none ↦ (false, e)
  | some context ↦ (true, record e { cancelled = context ∷ e.cancelled })
]

-- ExecuteWithContext up to its switch: a command that is denied changes nothing.
unfoldable pub begin_command : AgentCommand → Executor → Executor
begin_command c e = elim (allowed e.trust_mode c.command_type e.allowed_commands) [
  | denied reason ↦ e
  | permitted ↦
      register_cancel c.id e.next_context
        (record e { next_context = e.next_context + 1; running = (e.next_context, c) ∷ e.running })
]

-- The command that runs in a context, and the others.
unfoldable pub take_context :
    ℕ → List (ℕ × AgentCommand) → Option (AgentCommand × List (ℕ × AgentCommand))
take_context n [] = none
take_context n ((m, c) ∷ rs) =
    let later = take_context n rs in
    if n == m
    then some (c, rs)
    else elim later [ none ↦ none | some (d, rest) ↦ some (d, (m, c) ∷ rest) ]

abbrev pub finish_taken : Option (AgentCommand × List (ℕ × AgentCommand)) → Executor → Executor
finish_taken none e = e
finish_taken (some (c, rest)) e = unregister_cancel c.id (record e { running = rest })

-- The return of ExecuteWithContext, with its deferred call.
unfoldable pub finish_command : ℕ → Executor → Executor
finish_command context e = finish_taken (take_context context e.running) e
