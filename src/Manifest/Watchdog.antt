-- ===== src/Manifest/Watchdog.antt =====
-- internal/manifest/watchdog.go: the loop that probes the models of a manifest and recovers those that fail.
-- A tick of the ticker is one call of `tick`; a cancelled context ends the loop between two ticks.
pub mod Streaks
use mantlerd.Base.{
  ℕ, zero, suc, ◌+◌, Bool, true, false, ◌||◌, String, List, [], ◌∷◌, ◌++◌, Option, none, some,
  to_lower, trim_space, contains, str_eq, ltb, leb, if◌then◌else◌,
}
use mantlerd.Base.Dict.{Dict, lookup, put}
use mantlerd.Runtime.Driver.{Error, Flags}
use mantlerd.Runtime.Manager.{
  Manager, ensure_runtime, restart_runtime_named, stop_model_with_runtime,
}
use mantlerd.Runtime.Start.{
  OutcomeEvent, Surroundings, Started, start_model_with_flags, start_model_with_runtime,
}
use mantlerd.Manifest.Probe.{probe_model_endpoint}
use mantlerd.Manifest.Messages.{
  appears_oom, recovering, health_failure, recovery_failed, failed_repeatedly, healthy_again,
}
use mantlerd.Manifest.Preflight.{
  PlacedModel, Host, model_id_of, runtime_of, local_manifest_models, start_placed,
}

pub data EventType : Type 0 where
  warning error content : EventType

pub record Emitted : Type 0 where
  pub message : String
  pub event_type : EventType

-- The state of the loop: the machine, `failures`, what was emitted and what the manager reported.
pub record Watch (W : Type 0) : Type 0 where
  pub world : W
  pub failures : Dict ℕ
  pub emitted : List Emitted
  pub reported : List OutcomeEvent

abbrev pub or_zero : Option ℕ → ℕ
or_zero none = 0
or_zero (some n) = n

unfoldable pub count : String → Dict ℕ → ℕ
count id failures = or_zero (lookup id failures)

unfoldable pub is_oom : String → Bool
is_oom failure =
    let lower = to_lower failure in
    contains lower "out of memory" || contains lower "insufficient_memory"

module _ {W : Type 0} (host : Host W) where
  abbrev pub emit : String → EventType → Watch W → Watch W
  emit message event_type s = record s {
    emitted =
        if host.listens
        then s.emitted ++ record { message = message; event_type = event_type } ∷ []
        else s.emitted;
  }

  -- The result of starting the model, as recoverModel returns it.
  abbrev pub with_started : Started W → Watch W → Watch W × Option Error
  with_started r s = (record s { world = r.world; reported = s.reported ++ r.reported }, r.error)

  -- A step of the manager, after which the model is started on its runtime.
  abbrev pub then_start : PlacedModel → W × Option Error → Watch W → Watch W × Option Error
  then_start m (w, some e) s = (record s { world = w }, some e)
  then_start m (w, none) s =
      with_started
        (start_model_with_runtime host.surroundings host.manager (model_id_of m) (runtime_of m)
          (some m.flags) w)
        s

  unfoldable pub restart_and_reload : PlacedModel → Watch W → Watch W × Option Error
  restart_and_reload m s =
      let (w, ignored) =
        stop_model_with_runtime host.manager (model_id_of m) (runtime_of m) s.world in
      then_start m (restart_runtime_named host.manager (runtime_of m) w) s

  unfoldable pub ensure_and_start : PlacedModel → Watch W → Watch W × Option Error
  ensure_and_start m s =
      if str_eq (trim_space (runtime_of m)) ""
      then with_started
          (start_model_with_flags host.surroundings host.manager (model_id_of m) (some m.flags)
            s.world)
          s
      else then_start m (ensure_runtime host.manager (runtime_of m) s.world) s

  unfoldable pub recover_model : PlacedModel → String → Watch W → Watch W × Option Error
  recover_model m failure s =
      let oom = emit (appears_oom (model_id_of m)) warning in
      let plain = emit (recovering (model_id_of m)) warning in
      if is_oom failure
      then (if str_eq (trim_space (runtime_of m)) ""
          then ensure_and_start m (plain (oom s))
          else restart_and_reload m (oom s))
      else ensure_and_start m (plain s)

  abbrev pub recovered : PlacedModel → Watch W × Option Error → Watch W
  recovered m (s, none) = s
  recovered m (s, some e) =
      emit (recovery_failed (model_id_of m) (host.surroundings.error_text e)) error s

  -- What follows a probe that fails.
  unfoldable pub on_failure : PlacedModel → String → Watch W → Watch W
  on_failure m failure s =
      let counted = record s { failures = put m.id (count m.id s.failures + 1) s.failures } in
      let s' =
        recovered m (
          recover_model m failure
            (emit (health_failure (model_id_of m) failure) warning counted)) in
      if leb 3 (count m.id s'.failures)
      then emit (failed_repeatedly (model_id_of m)) error s'
      else s'

  unfoldable pub on_success : PlacedModel → Watch W → Watch W
  on_success m s =
      let s' =
        if ltb 0 (count m.id s.failures)
        then emit (healthy_again (model_id_of m)) content s
        else s in
      record s' { failures = put m.id 0 s'.failures }

  abbrev pub on_probe : PlacedModel → W × Option String → Watch W → Watch W
  on_probe m (w, some failure) s = on_failure m failure (record s { world = w })
  on_probe m (w, none) s = on_success m (record s { world = w })

  unfoldable pub check_model : PlacedModel → Watch W → Watch W
  check_model m s =
      if str_eq (trim_space m.endpoint) ""
      then s
      else on_probe m (probe_model_endpoint host.web m.endpoint (runtime_of m) s.world) s

  unfoldable pub tick : List PlacedModel → Watch W → Watch W
  tick [] s = s
  tick (m ∷ ms) s = tick ms (check_model m s)

  abbrev pub ticks : List PlacedModel → ℕ → Watch W → Watch W
  ticks ms zero s = s
  ticks ms (suc n) s = ticks ms n (tick ms s)

  -- The goroutine of Start after n ticks; it returns at once where there is no local model.
  unfoldable pub run : List PlacedModel → String → ℕ → W → Watch W
  run models machine_id n w =
      ticks (local_manifest_models models machine_id) n
        (record { world = w; failures = []; emitted = []; reported = [] })
