-- ===== src/Runtime/Examples.antt =====
-- A host on which every call is logged, and the manager's theorems at it.
use mantlerd.Base.{
  ◌≡◌, refl, sym, subst, ◌↔◌, true, false, String, List, [], ◌∷◌, Memᴰ, none, some, trim_space,
  to_lower, length,
}
use mantlerd.Base.Dict.{lookup}
use mantlerd.Runtime.Driver.{Driver, driver_failed, Step}
use mantlerd.Runtime.Manager.{
  Manager, normalize, driver_for, installed_runtimes, restart_runtime, ensure_runtime,
}
use mantlerd.Runtime.Manager.Registry.{IsRegistry, installed_iff}
use mantlerd.Runtime.Manager.Restarts.{attempts, after_attempts, restart_runtime_iff}
use mantlerd.Runtime.Start.{Surroundings, start_model_with_runtime}
use mantlerd.Runtime.Start.Sequence.{Sequence, start-Sequence}

-- The host is the log of the calls, newest first.
abbrev Host : Type 0
Host = List String

abbrev logs : String → Step Host
logs call w = (call ∷ w, none)

abbrev fails : String → Step Host
fails call w = (call ∷ w, some (driver_failed call))

abbrev working : Driver Host
working = record {
  is_installed = λ w. true;
  is_ready = λ w. true;
  version = λ w. "1.0";
  list_models = λ w. "qwen3:8b" ∷ " " ∷ [];
  install = logs "install";
  uninstall = logs "uninstall";
  restart_runtime = logs "restart";
  prepare_model = λ model flags. logs "prepare";
  start_model = λ model flags. logs "start";
  stop_model = λ model. logs "stop";
  remove_model = λ model. logs "remove";
  prepare_cancellable = none;
  prepare_with_progress = none;
}

abbrev broken : Driver Host
broken = record working { restart_runtime = fails "restart"; is_ready = λ w. false }

abbrev agent : Manager Host
agent = record {
  drivers = ("vllm", broken) ∷ ("ollama", working) ∷ [];
  reports = true;
  active_plan_id = "plan-7";
  active_mantle_fingerprint = "f0";
}

abbrev reordered : Manager Host
reordered = record agent { drivers = ("ollama", working) ∷ ("vllm", broken) ∷ [] }

abbrev clock : Surroundings Host
clock = record {
  now_ms = λ w. length w;
  now_text = λ w. "2026-01-01T00:00:00Z";
  error_text = λ e. "failed";
}

agent-IsRegistry : IsRegistry agent
unfolding lookup normalize to_lower trim_space
agent-IsRegistry name d (Memᴰ.head e) =
    subst (λ t. lookup (normalize t.0) agent.drivers ≡ some t.1) (sym e) refl
agent-IsRegistry name d (Memᴰ.tail (Memᴰ.head e)) =
    subst (λ t. lookup (normalize t.0) agent.drivers ≡ some t.1) (sym e) refl
agent-IsRegistry name d (Memᴰ.tail (Memᴰ.tail k)) = elim k [ ]

installed_iff_example :
    Memᴰ "ollama" (installed_runtimes agent [])
    ↔ ((d : Driver Host) × Memᴰ ("ollama", d) agent.drivers × (d.is_installed [] ≡ true))
installed_iff_example = installed_iff agent [] "ollama"

restart_runtime_iff_example :
    ((restart_runtime agent []).0 ≡ after_attempts agent (installed_runtimes agent []) [])
    × (((restart_runtime agent []).1 ≡ none)
        ↔ Memᴰ none (attempts agent (installed_runtimes agent []) []))
restart_runtime_iff_example = restart_runtime_iff agent []

start-Sequence_example :
    Sequence agent "qwen3:8b"
      (normalize "Ollama ")
      none
      []
      (start_model_with_runtime clock agent "qwen3:8b" "Ollama " none []).world
unfolding start_model_with_runtime driver_for lookup normalize to_lower trim_space ensure_runtime
start-Sequence_example = start-Sequence clock agent "qwen3:8b" "Ollama " none [] refl refl
