-- ===== src/Manifest/LiveTests.antt =====
-- A machine that counts the calls on it, with one runtime; a manifest is brought up on it and watched.
use mantlerd.Base.{
  ℕ, ◌+◌, ◌*◌, ◌≡◌, refl, true, false, String, [], ◌∷◌, ◌++◌, map, none, some, trim_space, to_lower,
  contains, has_prefix, sort, text_le, elem, ltb, leb, if◌then◌else◌,
}
use mantlerd.Base.Dict.{lookup}
use mantlerd.Runtime.Driver.{Driver, Step}
use mantlerd.Runtime.Manager.{
  Manager, normalize, list_models, collect_models, installed_runtimes, driver_for, add_models,
  ensure_runtime, is_runtime_installed, preferred_driver_for_model, stop_model_with_runtime,
}
use mantlerd.Runtime.Prepare.{
  prepare_model_with_flags, prepare_preferred, prepare_tagged, route_model,
}
use mantlerd.Runtime.Start.{emit_outcome, fill, start_model_with_flags, start_model_with_runtime}
use mantlerd.Manifest.Memory.{Floats}
use mantlerd.Manifest.Plan.{
  MemorySnapshot, plan_model_loading_with_snapshot, plan_of, eject_ids, desired_models,
}
use mantlerd.Manifest.Probe.{
  Web, Fallible, got, failed, probe_model_endpoint, probe_url, endpoint_health_path,
  is_loopback_host,
}
use mantlerd.Manifest.Messages.{failed_repeatedly}
use mantlerd.Manifest.Preflight.{
  PlacedModel, PreflightResult, Host, Preflight, nothing_to_do, run_preflight,
  local_manifest_models, preflight_of, estimate_of, carry_out, eject_each, contains_model_id,
  eject_one, load_each, load_new, probe_each, probe_one, start_placed,
}
use mantlerd.Manifest.Preflight.Loops.{Brought}
use mantlerd.Manifest.Preflight.Ready.{run_preflight-Brought}
use mantlerd.Manifest.Watchdog.{Watch, error, check_model}
use mantlerd.Manifest.Watchdog.Streaks.{begun, checked, streak, attempted, check-alarm}

abbrev works : Step ℕ
works w = (w + 1, none)

abbrev ollama : Driver ℕ
ollama = record {
  is_installed = λ w. true;
  is_ready = λ w. true;
  version = λ w. "1.0";
  list_models = λ w. "llama" ∷ [];
  install = works;
  uninstall = works;
  restart_runtime = works;
  prepare_model = λ model flags. works;
  start_model = λ model flags. works;
  stop_model = λ model. works;
  remove_model = λ model. works;
  prepare_cancellable = none;
  prepare_with_progress = none;
}

abbrev manager : Manager ℕ
manager = record {
  drivers = ("ollama", ollama) ∷ [];
  reports = false;
  active_plan_id = "";
  active_mantle_fingerprint = "";
}

-- A network on which every address answers with the same status.
abbrev answers : ℕ → Web ℕ
answers status = record {
  Url = String;
  parse = λ s. got s;
  with_path = λ path s. s;
  hostname = λ s. "localhost";
  url_text = λ s. s;
  is_loopback_ip = λ s. false;
  request = λ s. got s;
  get = λ skip s w. (w + 1, got status);
  quoted = λ s. s;
  decimal = λ n. "n";
}

abbrev counts : Floats
counts = record {
  F = ℕ;
  parse = λ s. some 7;
  of_nat = λ n. n;
  hundredths = λ n. 1;
  times = λ a b. a * b;
  over = λ a b. a;
  is_positive = λ a. ltb 0 a;
  truncate = λ a. a;
}

abbrev machine : ℕ → Host ℕ
machine status = record {
  manager = manager;
  surroundings = record { now_ms = λ w. w; now_text = λ w. "now"; error_text = λ e. "failed" };
  web = answers status;
  floats = counts;
  context_error = λ w. none;
  listens = true;
}

abbrev phi : PlacedModel
phi = record {
  model = record {
    source = "machine";
    machine_id = "m1";
    size = record {
      model_id = "phi";
      runtime = "ollama";
      parameter_count = "7B";
      quantization = "q4";
      context_length = 0;
      is_moe = false;
      active_params = "";
    };
  };
  id = "model-1";
  endpoint = "http://localhost:11434";
  flags = record { streaming = true; thinking = false };
}

abbrev snapshot : MemorySnapshot
snapshot = record {
  total_mb = 30000;
  used_mb = 4000;
  source = "gpu_vram";
  unified = false;
  known = false;
}

abbrev result_of : Fallible PreflightResult → PreflightResult
result_of (got r) = r
result_of (failed e) = nothing_to_do

abbrev brought : Preflight ℕ × Fallible PreflightResult
brought = run_preflight (machine 200) (phi ∷ []) "m1" snapshot none 0

-- Two checks that fail.
abbrev first : Watch ℕ
first = record { world = 0; failures = []; emitted = []; reported = [] }

abbrev second : Watch ℕ
second = check_model (machine 500) phi first

abbrev third : Watch ℕ
third = check_model (machine 500) phi second

run_preflight-Brought_example :
    ((result_of brought.1).memory_estimate.fits_in_memory ≡ true)
    × Brought
        (machine 200)
        (phi ∷ [])
        (list_models manager 0)
        (plan_model_loading_with_snapshot counts
          (map (λ p. p.model) (phi ∷ []))
          "m1"
          (list_models manager 0)
          snapshot)
        0
        (result_of brought.1)
        brought.0.world
unfolding run_preflight local_manifest_models trim_space preflight_of estimate_of carry_out
    eject_each plan_model_loading_with_snapshot plan_of eject_ids sort list_models collect_models
    installed_runtimes driver_for lookup normalize elem contains has_prefix to_lower text_le
    endpoint_health_path is_loopback_host probe_model_endpoint probe_url add_models ensure_runtime
    is_runtime_installed preferred_driver_for_model stop_model_with_runtime prepare_model_with_flags
    prepare_preferred prepare_tagged route_model emit_outcome fill start_model_with_flags
    start_model_with_runtime contains_model_id eject_one load_each load_new probe_each probe_one
    start_placed desired_models
run_preflight-Brought_example =
    run_preflight-Brought (machine 200) (phi ∷ []) "m1" snapshot none 0 phi [] (result_of brought.1)
      refl refl refl

check-alarm_example :
    (check_model (machine 500) phi third).emitted
    ≡ (attempted (machine 500) phi "endpoint returned status n" (record third {
      world = (probe_model_endpoint (answers 500) "http://localhost:11434" "ollama" third.world).0;
    })).emitted
      ++ (if leb 3
            (streak "model-1" (("model-1", false) ∷ ("model-1", false) ∷ ("model-1", false) ∷ []))
          then record { message = failed_repeatedly "phi"; event_type = error } ∷ []
          else [])
unfolding trim_space probe_model_endpoint probe_url
check-alarm_example =
    check-alarm (machine 500) (("model-1", false) ∷ ("model-1", false) ∷ []) third phi
      "endpoint returned status n"
      (checked (("model-1", false) ∷ []) second phi (checked [] first phi (begun 0))) refl refl refl
