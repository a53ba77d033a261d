-- ===== src/Commands/Runtimes.antt =====
-- internal/commands/executor.go: the commands install_runtime, uninstall_runtime and restart_runtime, with the
-- settings that they bring, over the runtime manager. The drivers act on the machine with its files and variables.
pub mod Configured
use mathlib.Core.Option
use mantlerd.Base.{ℕ, String, Option, none, some, str_eq, if◌then◌else◌}
use mantlerd.Pipeline.Value.{Members}
use mantlerd.Runtime.Driver.{Step}
use mantlerd.Runtime.Manager.{
  Manager, normalize, install_runtime, uninstall_runtime, restart_runtime, restart_runtime_named,
}
use mantlerd.Commands.Params.{
  Floats, Parsed, parsed, wrong, invalid_param, string_param, optional_string_param,
}
use mantlerd.Commands.Profile.{Surface, written}
use mantlerd.Commands.Config.{
  LlamaCppConfig, QuantCppConfig, with_config, configure_llama_cpp, configure_quant_cpp,
}
use mantlerd.Commands.Models.{CommandError, bad_param, bad_environment, from_runtime}
use mantlerd.Commands.VllmEnv.{Machine, Call, with_vllm_runtime_env}

abbrev pub llama_path : String
llama_path = "/etc/mantler/llamacpp.json"

abbrev pub quant_path : String
quant_path = "/etc/mantler/quantcpp.json"

pub record Settings : Type 0 where
  pub surface : Surface
  pub floats : Floats
  pub num_cpu : ℕ
  -- json.Unmarshal of a file's text into settings, and json.MarshalIndent
  pub llama_from : Option String → LlamaCppConfig → LlamaCppConfig
  pub llama_text : LlamaCppConfig → String
  pub quant_from : Option String → QuantCppConfig → QuantCppConfig
  pub quant_text : QuantCppConfig → String

abbrev pub invalid : String → CommandError
invalid name = bad_param (invalid_param name)

module _ {W : Type 0} (s : Settings) where
  abbrev pub write_settings :
      {C : Type 0} → String → (C → String) → C → Machine W → Machine W × Option CommandError
  write_settings path text c m =
      let (files, e) = written s.surface path (text c) m.files in
      (record m { files = files }, Option.map bad_environment e)

  unfoldable pub with_llama_cpp_config : Members → Call W → Call W
  with_llama_cpp_config params call m =
      with_config invalid (write_settings llama_path s.llama_text)
        (configure_llama_cpp s.floats (s.llama_from (m.files llama_path)) params) call m

  unfoldable pub with_quant_cpp_config : Members → Call W → Call W
  with_quant_cpp_config params call m =
      with_config invalid (write_settings quant_path s.quant_text)
        (configure_quant_cpp s.floats s.num_cpu (s.quant_from (m.files quant_path)) params) call m

  -- The tests of install_runtime and of restart_runtime on a runtime's name.
  unfoldable pub with_settings : String → Members → Call W → Call W
  with_settings runtime_name params call m =
      let name = normalize runtime_name in
      if str_eq name "vllm"
      then with_vllm_runtime_env s.surface call params m
      else if str_eq name "llamacpp"
      then with_llama_cpp_config params call m
      else if str_eq name "quantcpp"
      then with_quant_cpp_config params call m
      else call m

  abbrev pub manager_call : Step (Machine W) → Call W
  manager_call step m = let (m', e) = step m in (m', Option.map from_runtime e)

  module _ (mgr : Manager (Machine W)) (params : Members) where
    abbrev pub install_named : Parsed String → Call W
    install_named (parsed name) =
        with_settings name params (manager_call (install_runtime mgr name))
    install_named (wrong e) = λ m. (m, some (bad_param e))

    unfoldable pub install_command : Call W
    install_command = install_named (string_param params "runtime")

    abbrev pub uninstall_named : Parsed String → Call W
    uninstall_named (parsed name) = manager_call (uninstall_runtime mgr name)
    uninstall_named (wrong e) = λ m. (m, some (bad_param e))

    unfoldable pub uninstall_command : Call W
    uninstall_command = uninstall_named (string_param params "runtime")

    unfoldable pub restart_command : Call W
    restart_command =
        let name = optional_string_param params "runtime" in
        if str_eq name ""
        then manager_call (restart_runtime mgr)
        else with_settings name params (manager_call (restart_runtime_named mgr name))
