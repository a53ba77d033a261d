-- ===== src/Runtime/Start.antt =====
-- internal/runtime/manager.go: starting a model, and the outcome that is reported of it.
pub mod Outcomes
pub mod Sequence
use mathlib.Core.Option
use mantlerd.Base.{
  ℕ, ◌-◌, Bool, true, false, ◌||◌, not, String, List, [], ◌∷◌, Option, none, some, trim_space,
  str_eq, if◌then◌else◌,
}
use mantlerd.Runtime.Driver.{Driver, Error, ensure_runtime_failed, Flags, Step, Result, ok, err}
use mantlerd.Runtime.Manager.{
  Manager, normalize, driver_for, ensure_runtime, preferred_driver_for_model,
}
use mantlerd.Runtime.Prepare.{prepare_model_with_flags}

-- The fields of types.OutcomeEvent that the manager sets.
pub record OutcomeEvent : Type 0 where
  pub plan_id : String
  pub mantle_fingerprint : String
  pub event_type : String
  pub timestamp : String
  pub duration_ms : ℕ
  pub crash_signature : String
  pub detail : String

-- What the manager reads of its surroundings: time.Now, in milliseconds and formatted, and the text
-- of an error.
pub record Surroundings (W : Type 0) : Type 0 where
  pub now_ms : W → ℕ
  pub now_text : W → String
  pub error_text : Error → String

-- A start: the state after it, the outcomes that were reported, and the error returned.
pub record Started (W : Type 0) : Type 0 where
  pub world : W
  pub reported : List OutcomeEvent
  pub error : Option Error

-- `if strings.TrimSpace(s) == "" { s = other }`
unfoldable pub fill : String → String → String
fill s other = if str_eq (trim_space s) "" then other else s

abbrev pub event_type_of : Option Error → String
event_type_of none = "startup_success"
event_type_of (some e) = "startup_failure"

abbrev detail_of : (Error → String) → Option Error → String
detail_of text none = "model startup succeeded"
detail_of text (some e) = text e

module _ {W : Type 0} (env : Surroundings W) where
  unfoldable pub emit_outcome : Manager W → W → OutcomeEvent → List OutcomeEvent
  emit_outcome m w event =
      if not m.reports || str_eq (trim_space event.event_type) ""
      then []
      else record event {
        plan_id = fill event.plan_id m.active_plan_id;
        mantle_fingerprint = fill event.mantle_fingerprint m.active_mantle_fingerprint;
        timestamp = fill event.timestamp (env.now_text w);
      }
        ∷ []

  startup_event : W → W → String → String → String → OutcomeEvent
  startup_event started w event_type crash_signature detail = record {
    plan_id = "";
    mantle_fingerprint = "";
    event_type = event_type;
    timestamp = "";
    duration_ms = env.now_ms w - env.now_ms started;
    crash_signature = crash_signature;
    detail = detail;
  }

  -- An early return: the failure is reported under its signature, and `returned` is the error.
  failed_start : Manager W → W → W → String → Error → Error → Started W
  failed_start m started w signature e returned = record {
    world = w;
    reported =
        emit_outcome m w (startup_event started w "startup_failure" signature (env.error_text e));
    error = some returned;
  }

  -- driver.StartModelWithFlags and the report that follows it.
  finish_start : Manager W → W → W × Option Error → Started W
  finish_start m started (w, e) = record {
    world = w;
    reported =
        emit_outcome m w
          (startup_event started w (event_type_of e) "" (detail_of env.error_text e));
    error = e;
  }

  unfoldable pub start_model_with_flags : Manager W → String → Option Flags → W → Started W
  unfolding failed_start finish_start startup_event
  start_model_with_flags m model_id flags w =
      let (w', e) = prepare_model_with_flags m model_id flags w in
      elim e [
        | some x ↦ failed_start m w w' "prepare_failed" x x
        | none ↦ elim (preferred_driver_for_model m (trim_space model_id) w') [
          | err x ↦ failed_start m w w' "driver_not_found" x x
          | ok d ↦ finish_start m w (d.start_model (trim_space model_id) flags w')
        ]
      ]

  -- What StartModelWithRuntime does with the driver that it has found.
  start_on_driver : Manager W → W → Driver W → String → Option Flags → W → Started W
  start_on_driver m started d model_id flags w =
      let (w', e) = d.prepare_model model_id flags w in
      elim e [
        | some x ↦ failed_start m started w' "prepare_failed" x x
        | none ↦ finish_start m started (d.start_model model_id flags w')
      ]

  unfoldable pub start_model_with_runtime :
      Manager W → String → String → Option Flags → W → Started W
  unfolding failed_start finish_start startup_event start_on_driver
  start_model_with_runtime m model_id runtime_name flags w =
      let name = normalize runtime_name in
      let (w', e) = ensure_runtime m name w in
      if str_eq (trim_space runtime_name) ""
      then start_model_with_flags m model_id flags w
      else (elim e [
        | some x ↦ failed_start m w w' "runtime_not_ready" x (ensure_runtime_failed name x)
        | none ↦ elim (driver_for m name) [
          | err x ↦ failed_start m w w' "driver_not_found" x x
          | ok d ↦ start_on_driver m w d model_id flags w'
        ]
      ])
