-- ===== src/Runtime/Prepare.antt =====
-- internal/runtime/manager.go: which runtime prepares a model.
pub mod Routing
use mantlerd.Base.{
  Bool, true, false, ◌&&◌, String, List, [], ◌∷◌, Option, none, some, trim_space, contains, str_eq,
  if◌then◌else◌,
}
use mantlerd.Runtime.Driver.{
  Driver, Error, model_id_required, Flags, Step, ◌>>◌, fail, wrapping, Result, ok, err, on_driver,
}
use mantlerd.Runtime.Manager.{
  Manager, normalize, driver_for, ensure_runtime, preferred_driver_for_model,
}

-- How a driver prepares a model.
abbrev pub Preparation : Type 0 → Type 0
Preparation W = Driver W → String → Option Flags → Step W

module _ {W : Type 0} where
  -- driver.PrepareModelWithFlags
  abbrev pub plainly : Preparation W
  plainly d = d.prepare_model

  abbrev or_plainly :
      Driver W → Option (String → Option Flags → Step W) → String → Option Flags → Step W
  or_plainly d none = d.prepare_model
  or_plainly d (some prepare) = prepare

  -- prepareWithDriverProgressCtx; the first argument tells whether `onProgress` is given.
  unfoldable pub prepare_with_driver_progress : Bool → Preparation W
  prepare_with_driver_progress false d = or_plainly d d.prepare_cancellable
  prepare_with_driver_progress true d = elim d.prepare_with_progress [
    | none ↦ or_plainly d d.prepare_cancellable
    | some prepare ↦ prepare
  ]

  -- The part of the routing that is reached when no rule on the ID's form has returned.
  unfoldable pub prepare_preferred : Preparation W → Manager W → String → Option Flags → Step W
  prepare_preferred prepare m model flags w =
      on_driver (preferred_driver_for_model m model w) (λ d. prepare d model flags) w

  -- The rule for IDs with a colon: an error of EnsureRuntime or of the lookup falls through.
  unfoldable pub prepare_tagged : Preparation W → Manager W → String → Option Flags → Step W
  prepare_tagged prepare m model flags w =
      let (w', e) = ensure_runtime m "ollama" w in
      elim e [
        | some x ↦ prepare_preferred prepare m model flags w'
        | none ↦ elim (driver_for m "ollama") [
          | ok d ↦ prepare d model flags w'
          | err x ↦ prepare_preferred prepare m model flags w'
        ]
      ]

  -- PrepareModelWithFlags at `plainly`, and PrepareModelWithFlagsProgressCtx, which has the same text,
  -- at `prepare_with_driver_progress`.
  unfoldable pub route_model : Preparation W → Manager W → String → Option Flags → Step W
  route_model prepare m model_id flags =
      let model = trim_space model_id in
      if str_eq model ""
      then fail model_id_required
      else if contains model "/"
      then wrapping "vllm" (ensure_runtime m "vllm")
        >> on_driver (driver_for m "vllm") (λ d. prepare d model flags)
      else if contains model ":"
      then prepare_tagged prepare m model flags
      else prepare_preferred prepare m model flags

  unfoldable pub prepare_model_with_flags : Manager W → String → Option Flags → Step W
  prepare_model_with_flags = route_model plainly

  unfoldable pub prepare_model_with_flags_progress :
      Bool → Manager W → String → Option Flags → Step W
  prepare_model_with_flags_progress has_progress =
      route_model (prepare_with_driver_progress has_progress)

  unfoldable pub prepare_model_with_runtime_progress :
      Bool → Manager W → String → String → Option Flags → Step W
  prepare_model_with_runtime_progress has_progress m model_id runtime_name flags =
      if str_eq (trim_space runtime_name) ""
      then prepare_model_with_flags_progress has_progress m model_id flags
      else let name = normalize runtime_name in
        wrapping name (ensure_runtime m name)
        >> on_driver (driver_for m name)
            (λ d. prepare_with_driver_progress has_progress d model_id flags)
