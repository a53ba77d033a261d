-- ===== src/Policy.antt =====
-- internal/policy/policy.go: which remote commands the agent executes under a trust mode.
-- A denial's text is represented by the arguments of its fmt.Sprintf call.
pub mod Permits
mod Examples
use mantlerd.Base.{
  Bool, true, false, String, List, [], ◌∷◌, not, elem, str_eq, trim_space, if◌then◌else◌, ◌||◌,
}

-- The commands that need an opt-in in restricted mode.
abbrev pub destructive_commands : List String
destructive_commands =
    "install_runtime" ∷ "uninstall_runtime" ∷ "restart_runtime" ∷ "install_tool" ∷ "uninstall_tool"
    ∷ "install_trainer" ∷ "uninstall_trainer" ∷ "run_harness_exec" ∷ "harness_login"
    ∷ "run_orchestrator_exec" ∷ "sync_harnesses" ∷ "update_agent" ∷ "self_shutdown"
    ∷ "uninstall_agent" ∷ "nccl_test" ∷ []

unfoldable pub is_destructive : String → Bool
is_destructive command_type = elem (trim_space command_type) destructive_commands

pub data Reason : Type 0 where
  restricted_mode : String → String → Reason
  unknown_mode : String → String → Reason

pub data Verdict : Type 0 where
  permitted : Verdict
  denied : Reason → Verdict

-- The loop over the operator's list, and what follows it.
unfoldable pub listed_or : Reason → String → List String → Verdict
listed_or reason normalised [] = denied reason
listed_or reason normalised (allowed ∷ rest) =
    if str_eq (trim_space allowed) normalised then permitted else listed_or reason normalised rest

-- The body of the cases `TrustModeRestricted` and `default`.
unfoldable pub restrict : Reason → String → List String → Verdict
restrict reason normalised allowed_commands =
    if not (is_destructive normalised)
    then permitted
    else listed_or reason normalised allowed_commands

unfoldable pub allowed : String → String → List String → Verdict
allowed mode command_type allowed_commands =
    let normalised = trim_space command_type in
    if str_eq mode "managed" || str_eq mode ""
    then permitted
    else if str_eq mode "restricted"
    then restrict (restricted_mode normalised mode) normalised allowed_commands
    else restrict (unknown_mode normalised mode) normalised allowed_commands
