-- ===== src/Explore/Examples.antt =====
-- A plan of two files, at which the theorems on the files of a plan apply.
use mantlerd.Base.{
  ◌≡◌, refl, true, false, List, [], ◌∷◌, none, some, str_eq, trim_space, to_lower, has_prefix,
  split, join, if◌then◌else◌,
}
use mantlerd.Explore.Paths.{sanitize_runtime_plan_path}
use mantlerd.Explore.Paths.Contained.{IsContained, sanitize-IsContained}
use mantlerd.Explore.Files.{RuntimePlanFile, Files, Restore, apply_files, apply_runtime_plan_files}
use mantlerd.Commands.EnvFile.{Quoting}
use mantlerd.Base.Dict.{put}
use mantlerd.Explore.Filters.{
  arg_prefixes, env_prefixes, filter_args, filter_runtime_plan_args, filter_env,
  filter_runtime_plan_env,
}
use mantlerd.Explore.Plan.{
  with_plan, put_env, override_args, parse_env_content, parse_lines, needs_restart, RuntimePlan,
  Undo, Host, undo, apply_explore_runtime_plan,
}
use mantlerd.Explore.Plan.Undone.{plan-IsUndone}

sanitize-IsContained_example : IsContained (sanitize_runtime_plan_path " /etc//mantler/x/../a ")
sanitize-IsContained_example = sanitize-IsContained " /etc//mantler/x/../a "

abbrev files : Files
files path = if str_eq path "/etc/mantler/a" then some "old" else none

-- The same path is written twice, and another is created.
abbrev plan : List RuntimePlanFile
plan =
    record { source = ""; destination = "/etc/mantler/a"; content = "new" }
    ∷ record { source = ""; destination = "/etc/mantler/x/../a"; content = "newer" }
    ∷ record { source = ""; destination = "/opt/mantler/b"; content = "b" }
    ∷ []

abbrev restores : List Restore
restores =
    record { path = "/opt/mantler/b"; original = none }
    ∷ record { path = "/etc/mantler/a"; original = some "new" }
    ∷ record { path = "/etc/mantler/a"; original = some "old" }
    ∷ []

abbrev quoting : Quoting
quoting = record { quoted = λ s. s; unquote = λ s. none }

abbrev runtime_plan : RuntimePlan
runtime_plan = record { image = ""; args = "--num-gpu 1" ∷ "--other" ∷ []; env = []; files = [] }

abbrev host : Host
host = record { files = files; restarts = 0 }

abbrev undoing : Undo
undoing = record {
  restores = record { path = "/etc/mantler/ollama.env"; original = none } ∷ [];
  restarts = true;
}

plan-IsUndone_example :
    let after =
      apply_explore_runtime_plan quoting (λ p. false) (λ p. true) " Ollama " runtime_plan host in
    ((undo undoing after.1).files ≡ files) × ((undo undoing after.1).restarts ≡ 2)
unfolding apply_explore_runtime_plan to_lower trim_space with_plan put_env filter_runtime_plan_env
    filter_env override_args join filter_runtime_plan_args filter_args arg_prefixes env_prefixes
    has_prefix put parse_env_content parse_lines split apply_runtime_plan_files apply_files
    needs_restart undo
plan-IsUndone_example =
    plan-IsUndone quoting (λ p. false) (λ p. true) " Ollama " runtime_plan host undoing refl
