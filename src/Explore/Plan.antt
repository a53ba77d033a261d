-- ===== src/Explore/Plan.antt =====
-- cmd/mantler/explore.go, applyExploreRuntimePlan: the environment file of a runtime and the files of a plan, with
-- the function that takes them back. The quoting of fmt's %q and strconv.Unquote are parameters.
pub mod Undone
use Prim.Native.String.{◌++◌ as concat}
use mantlerd.Base.{
  ℕ, ◌+◌, Bool, true, false, ◌&&◌, ◌||◌, not, String, List, [], ◌∷◌, ◌++◌, map, Option, none, some,
  split, join, sort, text_le, has_prefix, to_lower, str_eq, trim_space, if◌then◌else◌,
}
use mantlerd.Base.Dict.{Dict, lookup, put, keys}
use mantlerd.Commands.EnvFile.{Quoting, cut, line_of}
use mantlerd.Explore.Files.{
  RuntimePlanFile, Files, write_file, Read, missing, read_failed, found, ApplyError,
  original_failed, write_failed, Restore, restore_all, Applied, applied, failed, read_file,
  apply_runtime_plan_files,
}
use mantlerd.Explore.Filters.{filter_runtime_plan_args, filter_runtime_plan_env}

pub record RuntimePlan : Type 0 where
  pub image : String
  pub args : List String
  pub env : Dict String
  pub files : List RuntimePlanFile

-- The environment file of a runtime, and the keys that the plan's image and arguments have in it.
pub record EnvKeys : Type 0 where
  pub path : String
  -- "" for ollama
  pub image_key : String
  pub args_key : String

abbrev pub keys_of : String → Option EnvKeys
keys_of runtime_name =
    if str_eq runtime_name "vllm"
    then some (record {
      path = "/etc/mantler/vllm.env";
      image_key = "VLLM_CONTAINER_IMAGE";
      args_key = "VLLM_EXTRA_ARGS";
    })
    else if str_eq runtime_name "tensorrt"
    then some (record {
      path = "/etc/mantler/tensorrt.env";
      image_key = "TENSORRT_CONTAINER_IMAGE";
      args_key = "TENSORRT_EXTRA_ARGS";
    })
    else if str_eq runtime_name "ollama"
    then some (record {
      path = "/etc/mantler/ollama.env";
      image_key = "";
      args_key = "OLLAMA_EXTRA_ARGS";
    })
    else none

module _ (q : Quoting) where
  abbrev pub unquoted_or : String → Option String → String
  unquoted_or value none = value
  unquoted_or value (some s) = s

  abbrev pub put_parts : Option (String × String) → Dict String → Dict String
  put_parts none values = values
  put_parts (some (left, right)) values =
      let key = trim_space left in
      let value = trim_space right in
      if str_eq key "" then values else put key (unquoted_or value (q.unquote value)) values

  unfoldable pub parse_lines : List String → Dict String → Dict String
  parse_lines [] values = values
  parse_lines (line ∷ lines) values =
      let trimmed = trim_space line in
      parse_lines lines (
        if str_eq trimmed "" || has_prefix trimmed "#"
        then values
        else put_parts (cut "=" trimmed) values)

  unfoldable pub parse_env_content : String → Dict String
  parse_env_content raw = parse_lines (split "\n" raw) []

  unfoldable pub render_env_content : Dict String → String
  render_env_content values =
      concat (join "\n" (map (line_of q values) (sort text_le (keys values)))) "\n"

abbrev pub put_override : String → String → Dict String → Dict String
put_override key value values =
    if not (str_eq value "") && not (str_eq key "") then put key value values else values

unfoldable pub put_env : Dict String → Dict String → Dict String
put_env [] values = values
put_env ((key, value) ∷ env) values =
    put_env env (
      if str_eq (trim_space key) "" then values else put (trim_space key) (trim_space value) values)

-- What applyExploreRuntimePlan returns beside an error: what its function restores, and whether ollama is
-- restarted.
pub record Undo : Type 0 where
  pub restores : List Restore
  pub restarts : Bool

pub record Host : Type 0 where
  pub files : Files
  -- the calls of restartOllamaService
  pub restarts : ℕ

pub data Outcome : Type 0 where
  done : Undo → Outcome
  refused : ApplyError → Outcome

abbrev pub restarted : Bool → Host → Host
restarted b h = record h { restarts = if b then h.restarts + 1 else h.restarts }

-- The function that is returned.
unfoldable pub undo : Undo → Host → Host
undo u h = restarted u.restarts (record h { files = restore_all u.restores h.files })

abbrev pub is_nil : {A : Type 0} → List A → Bool
is_nil [] = true
is_nil (x ∷ xs) = false

unfoldable pub override_args : String → RuntimePlan → String
override_args runtime plan = trim_space (join " " (filter_runtime_plan_args runtime plan.args))

unfoldable pub with_plan : EnvKeys → String → RuntimePlan → Dict String → Dict String
with_plan k runtime plan values = put_env (filter_runtime_plan_env runtime plan.env) (
    put_override k.args_key (override_args runtime plan)
      (put_override k.image_key (trim_space plan.image) values))

unfoldable pub needs_restart : String → RuntimePlan → Bool
needs_restart runtime plan =
    str_eq runtime "ollama"
    && (not (str_eq (trim_space plan.image) "")
        || not (str_eq (override_args runtime plan) "")
        || not (is_nil (filter_runtime_plan_env runtime plan.env))
        || not (is_nil plan.files))

module _ (q : Quoting) (unreadable writable : String → Bool) where
  -- Writing the environment file, whose original content is given.
  abbrev pub write_env : String → Option String → Dict String → Files → Applied × Files
  write_env path original values files =
      if is_nil values
      then (applied [], files)
      else if writable path
      then (
        applied (record { path = path; original = original } ∷ []),
        write_file path (render_env_content q values) files,
      )
      else (failed write_failed, files)

  abbrev pub rewrite_env : EnvKeys → String → RuntimePlan → Files → Read → Applied × Files
  rewrite_env k runtime plan files read_failed = (failed original_failed, files)
  rewrite_env k runtime plan files missing =
      write_env k.path none (with_plan k runtime plan (parse_env_content q "")) files
  rewrite_env k runtime plan files (found raw) =
      write_env k.path (some raw) (with_plan k runtime plan (parse_env_content q raw)) files

  abbrev pub apply_env : Option EnvKeys → String → RuntimePlan → Files → Applied × Files
  apply_env none runtime plan files = (applied [], files)
  apply_env (some k) runtime plan files =
      rewrite_env k runtime plan files (read_file unreadable writable k.path files)

  -- What is returned once both kinds of files are applied.
  abbrev pub finish : Bool → List Restore → ℕ → Files → Outcome × Host
  finish needed restores restarts files =
      let restarting = if is_nil restores then false else needed in
      (
        done (record { restores = restores; restarts = restarting }),
        restarted restarting (record { files = files; restarts = restarts }),
      )

  abbrev pub after_files : Bool → List Restore → ℕ → Applied × Files → Outcome × Host
  after_files needed before restarts (failed e, files) =
      (refused e, record { files = files; restarts = restarts })
  after_files needed before restarts (applied restores, files) =
      finish needed (restores ++ before) restarts files

  abbrev pub after_env : Bool → RuntimePlan → ℕ → Applied × Files → Outcome × Host
  after_env needed plan restarts (failed e, files) =
      (refused e, record { files = files; restarts = restarts })
  after_env needed plan restarts (applied restores, files) =
      after_files needed restores restarts
        (apply_runtime_plan_files unreadable writable plan.files files)

  unfoldable pub apply_explore_runtime_plan : String → RuntimePlan → Host → Outcome × Host
  apply_explore_runtime_plan runtime_name plan h =
      let runtime = to_lower (trim_space runtime_name) in
      after_env (needs_restart runtime plan) plan h.restarts
        (apply_env (keys_of runtime) runtime plan h.files)
