-- ===== src/Runtime/Manager.antt =====
-- internal/runtime/manager.go: the registry of drivers, and the calls that one driver serves.
pub mod Registry
pub mod Restarts
pub mod Models
use mantlerd.Base.{
  Bool, true, false, ◌&&◌, String, List, [], ◌∷◌, Option, none, some, keep, sort, text_le, to_lower,
  trim_space, contains, str_eq, if◌then◌else◌, elem,
}
use mantlerd.Base.Dict.{Dict, lookup, keys}
use mantlerd.Runtime.Driver.{
  Driver, Error, unsupported_runtime, model_id_required, no_installed_runtime,
  runtime_name_required, ensure_runtime_failed, Flags, Step, ◌>>◌, fail, wrapping, Result, ok, err,
  on_driver,
}

pub record Manager (W : Type 0) : Type 0 where
  pub drivers : Dict (Driver W)
  -- whether SetOutcomeReporter has installed a reporter
  pub reports : Bool
  pub active_plan_id : String
  pub active_mantle_fingerprint : String

-- The key under which a runtime's name is looked up.
unfoldable pub normalize : String → String
normalize name = to_lower (trim_space name)

-- The models of one runtime that are added to the set, which holds each text once.
unfoldable pub add_models : List String → List String → List String
add_models [] set = set
add_models (model ∷ models) set =
    add_models models
      (if str_eq (trim_space model) "" then set else (if elem model set then set else model ∷ set))

abbrev pub restart_verdict : Bool → Option Error → Option Error
restart_verdict true last_err = none
restart_verdict false (some e) = some e
restart_verdict false none = some Error.nothing_to_restart

module _ {W : Type 0} where
  unfoldable pub set_active_context : Manager W → String → String → Manager W
  set_active_context m plan_id fingerprint = record m {
    active_plan_id = trim_space plan_id;
    active_mantle_fingerprint = trim_space fingerprint;
  }

  unfoldable pub clear_active_context : Manager W → Manager W
  clear_active_context m = record m { active_plan_id = ""; active_mantle_fingerprint = "" }

  abbrev or_unsupported : String → Option (Driver W) → Result (Driver W)
  or_unsupported name none = err (unsupported_runtime name)
  or_unsupported name (some d) = ok d

  unfoldable pub driver_for : Manager W → String → Result (Driver W)
  driver_for m name = or_unsupported name (lookup (normalize name) m.drivers)

  unfoldable pub installed_runtimes : Manager W → W → List String
  installed_runtimes m w = sort text_le (keys (keep (λ e. e.1.is_installed w) m.drivers))

  unfoldable pub ready_runtimes : Manager W → W → List String
  ready_runtimes m w =
      sort text_le (keys (keep (λ e. e.1.is_installed w && e.1.is_ready w) m.drivers))

  unfoldable pub runtime_version : Manager W → String → W → String
  runtime_version m name w = elim (driver_for m name) [ ok d ↦ d.version w | err e ↦ "" ]

  unfoldable pub install_runtime : Manager W → String → Step W
  install_runtime m name = on_driver (driver_for m name) λ d. d.install

  unfoldable pub uninstall_runtime : Manager W → String → Step W
  uninstall_runtime m name = on_driver (driver_for m name) λ d. d.uninstall

  unfoldable pub is_runtime_installed : Manager W → String → W → Bool
  is_runtime_installed m name w = elim (driver_for m name) [
    | ok d ↦ d.is_installed w
    | err e ↦ false
  ]

  unfoldable pub is_runtime_ready : Manager W → String → W → Bool
  is_runtime_ready m name w = elim (driver_for m name) [
    | ok d ↦ if d.is_installed w then d.is_ready w else false
    | err e ↦ false
  ]

  unfoldable pub ensure_driver : Driver W → Step W
  ensure_driver d w =
      if d.is_installed w
      then (if d.is_ready w then (w, none) else d.restart_runtime w)
      else d.install w

  unfoldable pub ensure_runtime : Manager W → String → Step W
  unfolding ensure_driver
  ensure_runtime m name = on_driver (driver_for m name) ensure_driver

  abbrev first_runtime : Manager W → List String → Result (Driver W)
  first_runtime m [] = err no_installed_runtime
  first_runtime m (name ∷ rest) = driver_for m name

  unfoldable pub preferred_driver_for_model : Manager W → String → W → Result (Driver W)
  preferred_driver_for_model m model_id w =
      let trimmed = trim_space model_id in
      if str_eq trimmed ""
      then err model_id_required
      else if contains trimmed "/" && is_runtime_installed m "vllm" w
      then driver_for m "vllm"
      else if contains trimmed ":" && is_runtime_installed m "ollama" w
      then driver_for m "ollama"
      else first_runtime m (installed_runtimes m w)

  unfoldable pub remove_model : Manager W → String → Step W
  remove_model m model_id w =
      on_driver (preferred_driver_for_model m model_id w) (λ d. d.remove_model model_id) w

  unfoldable pub remove_model_with_runtime : Manager W → String → String → Step W
  remove_model_with_runtime m model_id runtime_name =
      if str_eq (trim_space runtime_name) ""
      then remove_model m model_id
      else on_driver (driver_for m runtime_name) λ d. d.remove_model model_id

  unfoldable pub stop_model_with_runtime : Manager W → String → String → Step W
  stop_model_with_runtime m model_id runtime_name w =
      if str_eq (trim_space runtime_name) ""
      then on_driver (preferred_driver_for_model m model_id w) (λ d. d.stop_model model_id) w
      else on_driver (driver_for m runtime_name) (λ d. d.stop_model model_id) w

  unfoldable pub collect_models : Manager W → W → List String → List String → List String
  collect_models m w [] set = set
  collect_models m w (name ∷ names) set =
      collect_models m w names
        (elim (driver_for m name) [ ok d ↦ add_models (d.list_models w) set | err e ↦ set ])

  unfoldable pub list_models : Manager W → W → List String
  list_models m w = sort text_le (collect_models m w (installed_runtimes m w) [])

  -- The loop of RestartRuntime, with `restarted` and `lastErr`.
  unfoldable pub restart_each : Manager W → List String → Bool → Option Error → Step W
  restart_each m [] restarted last_err w = (w, restart_verdict restarted last_err)
  restart_each m (name ∷ names) restarted last_err w =
      let (w', e) = on_driver (driver_for m name) (λ d. d.restart_runtime) w in
      elim e [
        | none ↦ restart_each m names true last_err w'
        | some x ↦ restart_each m names restarted (some x) w'
      ]

  unfoldable pub restart_runtime : Manager W → Step W
  restart_runtime m w = restart_each m (installed_runtimes m w) false none w

  restart_named : String → Driver W → Step W
  restart_named name d w =
      if d.is_installed w
      then d.restart_runtime w
      else (wrapping name d.install >> d.restart_runtime) w

  unfoldable pub restart_runtime_named : Manager W → String → Step W
  unfolding restart_named
  restart_runtime_named m runtime_name =
      let name = normalize runtime_name in
      if str_eq name ""
      then fail runtime_name_required
      else on_driver (driver_for m name) (restart_named name)
