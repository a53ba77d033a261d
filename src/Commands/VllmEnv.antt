-- ===== src/Commands/VllmEnv.antt =====
-- internal/commands/executor.go, withVLLMRuntimeEnv and persistVLLMEnvOverrides: a call with the mode and the image
-- of vllm in the environment of the process. The variables of the process are a function from names.
pub mod Restored
use Prim.Native.String.{◌++◌}
use mantlerd.Base.{
  Bool, true, false, ◌&&◌, not, String, List, [], ◌∷◌, map, Option, none, some, join, str_eq,
  to_lower, if◌then◌else◌,
}
use mantlerd.Base.Dict.{Dict}
use mantlerd.Explore.Files.{Files}
use mantlerd.Pipeline.Value.{Members}
use mantlerd.Commands.EnvFile.{Quoting, read_env_file}
use mantlerd.Commands.Params.{invalid_param, optional_string_param}
use mantlerd.Commands.Profile.{ProfileError, vllm_env_path, Surface, written}
use mantlerd.Commands.Cluster.{put_filled}
use mantlerd.Commands.Models.{CommandError, bad_param, bad_environment}

abbrev pub Vars : Type 0
Vars = String → Option String

-- os.Setenv and os.Unsetenv
abbrev pub set_var : String → String → Vars → Vars
set_var name value vars q = if str_eq q name then some value else vars q

abbrev pub unset_var : String → Vars → Vars
unset_var name vars q = if str_eq q name then none else vars q

pub record Machine (W : Type 0) : Type 0 where
  pub vars : Vars
  pub files : Files
  pub host : W

abbrev pub mode_name : String
mode_name = "VLLM_RUNTIME_MODE"

abbrev pub image_name : String
image_name = "VLLM_CONTAINER_IMAGE"

-- A call on the machine.
abbrev pub Call : Type 0 → Type 0
Call W = Machine W → Machine W × Option CommandError

abbrev pub set_given : String → String → Vars → Vars
set_given name value vars = if str_eq value "" then vars else set_var name value vars

abbrev pub restore_var : String → Option String → Vars → Vars
restore_var name none vars = unset_var name vars
restore_var name (some value) vars = set_var name value vars

abbrev pub restore_given : String → String → Vars → Vars → Vars
restore_given name value before vars =
    if str_eq value "" then vars else restore_var name (before name) vars

unfoldable pub override_lines : Quoting → Dict String → List String
override_lines q [] = []
override_lines q ((key, value) ∷ values) =
    (key ++ ("=" ++ q.quoted value)) ∷ override_lines q values

abbrev pub override_text : Quoting → Dict String → String
override_text q values =
    let payload = join "\n" (override_lines q values) in
    if str_eq payload "" then "" else payload ++ "\n"

unfoldable pub persist_overrides : Surface → String → String → Files → Files × Option ProfileError
persist_overrides s mode image files =
    let values =
      put_filled image_name image
        (put_filled mode_name mode (read_env_file s.quoting (files vllm_env_path))) in
    if str_eq mode "" && str_eq image ""
    then (files, none)
    else written s vllm_env_path (override_text s.quoting values) files

abbrev pub is_bad_mode : String → Bool
is_bad_mode mode =
    not (str_eq mode "") && (not (str_eq mode "container") && not (str_eq mode "native"))

module _ {W : Type 0} (s : Surface) (call : Call W) where
  -- `fn()` with the deferred function, where persisting gave no error; `before` is the machine at the
  -- beginning.
  abbrev pub call_and_restore :
      String → String → Machine W → Machine W → Machine W × Option CommandError
  call_and_restore mode image before m =
      let (m', e) = call m in
      let vars =
        restore_given image_name image before.vars
          (restore_given mode_name mode before.vars m'.vars) in
      (record m' { vars = vars }, e)

  -- Where persisting fails, the function that restores the variables has not been deferred yet.
  abbrev pub persisted :
      String
      → String
      → Machine W
      → Vars
      → Files × Option ProfileError
      → Machine W × Option CommandError
  persisted mode image before vars (files, none) =
      call_and_restore mode image before (record before { vars = vars; files = files })
  persisted mode image before vars (files, some e) =
      (record before { vars = vars; files = files }, some (bad_environment e))

  unfoldable pub with_vllm_runtime_env : Members → Call W
  with_vllm_runtime_env params m =
      let mode = to_lower (optional_string_param params "runtimeMode") in
      let image = optional_string_param params "containerImage" in
      let vars = set_given image_name image (set_given mode_name mode m.vars) in
      if is_bad_mode mode
      then (m, some (bad_param (invalid_param "runtimeMode")))
      else persisted mode image m vars (persist_overrides s mode image m.files)
