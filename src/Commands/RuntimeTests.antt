-- ===== src/Commands/RuntimeTests.antt =====
-- Commands for a runtime, and a call with the mode of vllm.
use mantlerd.Base.{
  ◌≡◌, ◌⊎◌, str_eq, if◌then◌else◌, refl, true, false, String, List, [], ◌∷◌, none, some, trim_space,
  to_lower,
}
use mantlerd.Pipeline.Value.{text, Members, no_member, member, find}
use mantlerd.Base.Dict.{lookup}
use mantlerd.Runtime.Driver.{Driver}
use mantlerd.Runtime.Manager.{Manager, normalize, driver_for, install_runtime}
use mantlerd.Commands.Params.{parsed, optional_int_param, optional_string_param, pos, string_param}
use mantlerd.Commands.Profile.{Surface}
use mantlerd.Commands.Models.{command_cancelled}
use mantlerd.Commands.VllmEnv.{Machine, mode_name, Call, persist_overrides, with_vllm_runtime_env}
use mantlerd.Commands.VllmEnv.Restored.{IsRefused, IsRestored, with_vllm-IsRestored}
use mantlerd.Commands.Runtimes.{Settings, with_settings, with_llama_cpp_config, install_command}
use mantlerd.Commands.Config.{configure_llama_cpp}
use mantlerd.Commands.Runtimes.Configured.{IsDone, install-IsDone}
use mantlerd.Pipeline.Context.{string_from_any}

abbrev surface : Surface
surface = record {
  quoting = record { quoted = λ s. s; unquote = λ s. some s };
  writable = λ path. true;
  scheme = λ source. none;
  get = λ source. none;
  state_text = λ p name. "{}";
}

abbrev machine : Machine (List String)
machine = record {
  vars = λ name. if str_eq name mode_name then some "container" else none;
  files = λ path. none;
  host = [];
}

abbrev settings : Settings
settings = record {
  surface = surface;
  floats = record { is_above_zero = λ s. true; to_int = λ s. pos 2 };
  num_cpu = 8;
  llama_from = λ raw c. c;
  llama_text = λ c. c.backend;
  quant_from = λ raw c. c;
  quant_text = λ c. c.model;
}

-- A call that fails unless the mode is native.
abbrev native_only : Call (List String)
native_only m = (
  m,
  elim (m.vars mode_name) [
    | none ↦ some command_cancelled
    | some mode ↦ if str_eq mode "native" then none else some command_cancelled
  ],
)

abbrev native : Members
native = member "runtimeMode" (text "Native") no_member

with_vllm-IsRestored_example :
    IsRefused settings.surface native_only native machine
      (with_vllm_runtime_env settings.surface native_only native machine)
    ⊎ IsRestored settings.surface native_only native machine
        (with_vllm_runtime_env settings.surface native_only native machine)
with_vllm-IsRestored_example =
    with_vllm-IsRestored settings.surface native_only native (λ m q. refl) machine

abbrev read_only : Surface
read_only = record surface { writable = λ path. false }

-- Where the settings cannot be written, the mode stays in the environment of the process.
mode_left_behind :
    (with_vllm_runtime_env read_only native_only native machine).0.vars mode_name ≡ some "native"
unfolding with_vllm_runtime_env persist_overrides optional_string_param string_from_any find
    to_lower trim_space
mode_left_behind = refl

abbrev llama : Driver (Machine (List String))
llama = record {
  is_installed = λ w. true;
  is_ready = λ w. true;
  version = λ w. "1.0";
  list_models = λ w. [];
  install = λ w. (w, none);
  uninstall = λ w. (w, none);
  restart_runtime = λ w. (w, none);
  prepare_model = λ model flags w. (w, none);
  start_model = λ model flags w. (w, none);
  stop_model = λ model w. (w, none);
  remove_model = λ model w. (w, none);
  prepare_cancellable = none;
  prepare_with_progress = none;
}

abbrev llama_manager : Manager (Machine (List String))
llama_manager = record {
  drivers = ("llamacpp", llama) ∷ [];
  reports = false;
  active_plan_id = "";
  active_mantle_fingerprint = "";
}

abbrev on_gpu : Members
on_gpu = member "runtime" (text "llamacpp") (member "backend" (text "cuda") no_member)

install-IsDone_example :
    (name : String) × (string_param on_gpu "runtime" ≡ parsed name)
    × IsDone settings machine name (install_runtime llama_manager name)
unfolding install_command string_param find with_settings normalize to_lower trim_space
    with_llama_cpp_config configure_llama_cpp optional_string_param string_from_any
    optional_int_param install_runtime driver_for lookup
install-IsDone_example = install-IsDone settings machine llama_manager on_gpu refl
