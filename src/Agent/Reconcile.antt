-- ===== src/Agent/Reconcile.antt =====
-- cmd/mantler/helpers.go: how the agent brings the host to the configuration that the server wants. The value
-- of the environment variable that keeps llama.cpp warm is a parameter.
pub mod Active
pub mod Calls
pub mod Removals
use mantlerd.Base.{
  Bool, true, false, ◌&&◌, ◌||◌, not, String, List, [], ◌∷◌, ◌++◌, Option, none, some, map, keep,
  any, elem, str_eq, to_lower, trim_space, if◌then◌else◌,
}
use mantlerd.Runtime.Driver.{Driver, Flags, Error, Step, Result, ok, err}
use mantlerd.Runtime.Manager.{
  Manager, driver_for, installed_runtimes, ensure_runtime, remove_model_with_runtime,
}
use mantlerd.Runtime.Prepare.{prepare_model_with_flags, prepare_model_with_runtime_progress}

pub record ModelTarget : Type 0 where
  pub model_id : String
  pub runtime : String
  pub feature_flags : Flags

-- The part of it that this code reads.
pub record DesiredConfig : Type 0 where
  pub runtimes : List String
  pub models : List String
  pub model_targets : List ModelTarget

unfoldable pub llama_cpp_keep_warm_enabled : String → Bool
llama_cpp_keep_warm_enabled env =
    elem (to_lower (trim_space env)) ("1" ∷ "true" ∷ "yes" ∷ "on" ∷ [])

unfoldable pub should_auto_eject_llama_cpp : String → Bool
should_auto_eject_llama_cpp env = not (llama_cpp_keep_warm_enabled env)

-- `if ejectLlamaCpp && runtimeName == "llamacpp" { continue }`
abbrev pub is_skipped : Bool → ModelTarget → Bool
is_skipped eject target = eject && str_eq (to_lower (trim_space target.runtime)) "llamacpp"

-- The sets that reconcileStaleModels builds: texts that are not blank, trimmed.
unfoldable pub trimmed_set : List String → List String
trimmed_set ids = keep (λ s. not (str_eq s "")) (map (λ s. trim_space s) ids)

-- desiredByRuntime, as the set of its pairs.
unfoldable pub runtime_desired : List ModelTarget → List (String × String)
runtime_desired [] = []
runtime_desired (target ∷ targets) =
    let rest = runtime_desired targets in
    let runtime = to_lower (trim_space target.runtime) in
    let model = trim_space target.model_id in
    if str_eq model "" || str_eq runtime "" then rest else (runtime, model) ∷ rest

-- What it builds before it looks at the runtimes.
pub record Wanted : Type 0 where
  pub protected : List String
  pub desired_global : List String
  pub desired_by_runtime : List (String × String)

unfoldable pub wanted : DesiredConfig → List String → Wanted
wanted desired protected_model_ids = record {
  protected = trimmed_set protected_model_ids;
  desired_global =
      trimmed_set (map (λ t. t.model_id) desired.model_targets) ++ trimmed_set desired.models;
  desired_by_runtime = runtime_desired desired.model_targets;
}

-- Whether a model that a runtime lists is removed, by its trimmed ID.
unfoldable pub is_stale : Bool → Wanted → String → String → Bool
is_stale eject k runtime model =
    if str_eq model ""
    then false
    else if elem model k.protected
    then false
    else if eject && str_eq runtime "llamacpp"
    then true
    else if elem model k.desired_global
    then false
    else not (any (λ p. str_eq p.0 runtime && str_eq p.1 model) k.desired_by_runtime)

-- The host after the calls of RemoveModelWithRuntime that were made, and these calls.
pub record Reconciled (W : Type 0) : Type 0 where
  pub world : W
  pub removed : List (String × String)

module _ {W : Type 0} (m : Manager W) where
  unfoldable pub ensure_each : List String → W → W
  ensure_each [] w = w
  ensure_each (runtime ∷ runtimes) w = ensure_each runtimes (ensure_runtime m runtime w).0

  unfoldable pub prepare_targets : Bool → List ModelTarget → W → W
  prepare_targets eject [] w = w
  prepare_targets eject (target ∷ targets) w = prepare_targets eject targets (
      if is_skipped eject target
      then w
      else (prepare_model_with_runtime_progress false m target.model_id target.runtime
          (some target.feature_flags) w).0)

  -- The models that no target names, with modelsHandled.
  unfoldable pub prepare_models : List String → List String → W → W
  prepare_models handled [] w = w
  prepare_models handled (model ∷ models) w =
      prepare_models handled models
        (if elem model handled then w else (prepare_model_with_flags m model none w).0)

  unfoldable pub enforce_desired_config : String → DesiredConfig → W → W
  enforce_desired_config env desired w =
      let eject = should_auto_eject_llama_cpp env in
      prepare_models (map (λ t. t.model_id) desired.model_targets) desired.models
        (prepare_targets eject desired.model_targets (ensure_each desired.runtimes w))

  unfoldable pub reconcile_models : Bool → Wanted → String → List String → W → Reconciled W
  reconcile_models eject k runtime [] w = record { world = w; removed = [] }
  reconcile_models eject k runtime (model ∷ models) w =
      let id = trim_space model in
      let kept = reconcile_models eject k runtime models w in
      let after =
        reconcile_models eject k runtime models (remove_model_with_runtime m id runtime w).0 in
      if is_stale eject k runtime id
      then record after { removed = (runtime, id) ∷ after.removed }
      else kept

  unfoldable pub reconcile_runtimes : Bool → Wanted → List String → W → Reconciled W
  reconcile_runtimes eject k [] w = record { world = w; removed = [] }
  reconcile_runtimes eject k (runtime ∷ runtimes) w = elim (driver_for m runtime) [
    | err e ↦ reconcile_runtimes eject k runtimes w
    | ok d ↦
        let here = reconcile_models eject k runtime (d.list_models w) w in
        let rest = reconcile_runtimes eject k runtimes here.world in
        record { world = rest.world; removed = here.removed ++ rest.removed }
  ]

  unfoldable pub reconcile_stale_models : String → DesiredConfig → List String → W → Reconciled W
  reconcile_stale_models env desired protected_model_ids w =
      reconcile_runtimes (should_auto_eject_llama_cpp env) (wanted desired protected_model_ids)
        (installed_runtimes m w) w
