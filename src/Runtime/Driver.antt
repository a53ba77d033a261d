-- ===== src/Runtime/Driver.antt =====
-- internal/runtime/driver.go: the interface between the manager and a runtime's driver. A driver
-- acts on its host; a state of the host is a value of `W`, and a call gives the next state.
use mathlib.Core.Option
use mantlerd.Base.{Bool, String, List, Option, none, some}

pub data Error : Type 0 where
  unsupported_runtime : String → Error
  ensure_runtime_failed : String → Error → Error
  model_id_required : Error
  no_installed_runtime : Error
  nothing_to_restart : Error
  runtime_name_required : Error
  -- what a driver's method returns
  driver_failed : String → Error

-- types.ModelFeatureFlags
pub record Flags : Type 0 where
  pub streaming : Bool
  pub thinking : Bool

pub record Driver (W : Type 0) : Type 0 where
  pub is_installed : W → Bool
  pub is_ready : W → Bool
  pub version : W → String
  pub list_models : W → List String
  pub install : W → W × Option Error
  pub uninstall : W → W × Option Error
  pub restart_runtime : W → W × Option Error
  pub prepare_model : String → Option Flags → W → W × Option Error
  pub start_model : String → Option Flags → W → W × Option Error
  pub stop_model : String → W → W × Option Error
  pub remove_model : String → W → W × Option Error
  -- the optional interfaces CancellableDriver and ProgressCapableDriver
  pub prepare_cancellable : Option (String → Option Flags → W → W × Option Error)
  pub prepare_with_progress : Option (String → Option Flags → W → W × Option Error)

-- A call on a host: the next state, and the error that the call returns.
abbrev pub Step : Type 0 → Type 0
Step W = W → W × Option Error

-- `if err := s(); err != nil { return err }; return t()`
infixl 5 ◌>>◌
abbrev pub ◌>>◌ : {W : Type 0} → Step W → Step W → Step W
◌>>◌ s t w = let (w', e) = s w in elim e [ none ↦ t w' | some x ↦ (w', some x) ]

abbrev pub fail : {W : Type 0} → Error → Step W
fail e w = (w, some e)

-- fmt.Errorf("ensure runtime %s: %w", name, err)
abbrev pub wrapping : {W : Type 0} → String → Step W → Step W
wrapping name s w = let (w', e) = s w in (w', Option.map (ensure_runtime_failed name) e)

pub data Result {ℓ} (A : Type ℓ) : Type ℓ where
  ok : A → Result A
  err : Error → Result A

-- The lookup of a driver, and the call on it.
abbrev pub on_driver : {W : Type 0} → Result (Driver W) → (Driver W → Step W) → Step W
on_driver (ok d) k = k d
on_driver (err e) k = fail e
