-- ===== src/Manifest/Preflight.antt =====
-- internal/manifest/preflight.go, RunPreflight, with the runtime manager that it calls.
pub mod Loops
pub mod Ready
use mantlerd.Base.{
  ℕ, ◌+◌, ◌-◌, Bool, true, false, String, List, [], ◌∷◌, ◌++◌, map, keep, elem, Option, none, some,
  trim_space, str_eq, if◌then◌else◌,
}
use mantlerd.Runtime.Driver.{Error, Flags}
use mantlerd.Runtime.Manager.{Manager, list_models, stop_model_with_runtime}
use mantlerd.Runtime.Start.{
  OutcomeEvent, Surroundings, Started, start_model_with_flags, start_model_with_runtime,
}
use mantlerd.Manifest.Memory.{Floats, estimate_model_vram}
use mantlerd.Manifest.Plan.{
  ManifestModel, MemorySnapshot, LoadPlan, is_local, sum, plan_model_loading_with_snapshot,
}
use mantlerd.Manifest.Probe.{Web, Fallible, got, failed, probe_model_endpoint}
use mantlerd.Manifest.Messages.{
  fell_back, too_high, ejecting, not_ejected, loading, not_loaded, no_endpoint, probing,
  not_answering,
}

-- A model of the manifest with the fields that the plan does not read.
pub record PlacedModel : Type 0 where
  pub model : ManifestModel
  pub id : String
  pub endpoint : String
  pub flags : Flags

pub record MemoryEstimate : Type 0 where
  pub required_mb : ℕ
  pub available_mb : ℕ
  pub headroom_mb : ℕ
  pub fits_in_memory : Bool

pub record PreflightResult : Type 0 where
  pub ready : Bool
  pub issues : List String
  pub loaded_models : List String
  pub memory_estimate : MemoryEstimate
  pub load_plan : LoadPlan

-- What the preflight and the watchdog call: the manager with its surroundings, the network, the floats of
-- the estimates, ctx.Err(), and whether `progress` is not nil.
pub record Host (W : Type 0) : Type 1 where
  pub manager : Manager W
  pub surroundings : Surroundings W
  pub web : Web W
  pub floats : Floats
  pub context_error : W → Option String
  pub listens : Bool

-- A preflight under way: the state of the machine, the result so far, and what was said and reported.
pub record Preflight (W : Type 0) : Type 0 where
  pub world : W
  pub ready : Bool
  pub issues : List String
  pub loaded : List String
  pub said : List String
  pub reported : List OutcomeEvent

abbrev pub model_id_of : PlacedModel → String
model_id_of p = p.model.size.model_id

abbrev pub runtime_of : PlacedModel → String
runtime_of p = p.model.size.runtime

unfoldable pub local_manifest_models : List PlacedModel → String → List PlacedModel
local_manifest_models models local_machine_id = keep (λ p. is_local local_machine_id p.model) models

-- containsModelID, of which the preflight uses the Boolean.
unfoldable pub contains_model_id : List String → String → Bool
contains_model_id items target = elem (trim_space target) (map trim_space items)

abbrev no_plan : LoadPlan
no_plan = record {
  eject_model_ids = [];
  load_model_ids = [];
  sequential = false;
  projected_used_mb = 0;
  projected_free_mb = 0;
  headroom_mb = 0;
  steady_state_fits = false;
  memory_source = "";
}

abbrev no_need : MemoryEstimate
no_need = record { required_mb = 0; available_mb = 0; headroom_mb = 0; fits_in_memory = true }

-- The result for a manifest with no model for this machine.
abbrev pub nothing_to_do : PreflightResult
nothing_to_do = record {
  ready = true;
  issues = [];
  loaded_models = [];
  memory_estimate = no_need;
  load_plan = no_plan;
}

module _ {W : Type 0} (host : Host W) where
  abbrev pub say : String → Preflight W → Preflight W
  say msg p = record p { said = if host.listens then p.said ++ msg ∷ [] else p.said }

  abbrev pub ejected : String → W × Option Error → Preflight W → Preflight W
  ejected id (w, none) p = record p { world = w }
  ejected id (w, some e) p = record p {
    world = w;
    issues = p.issues ++ not_ejected id (host.surroundings.error_text e) ∷ [];
  }

  unfoldable pub eject_one : String → Preflight W → Preflight W
  eject_one id p =
      ejected id (stop_model_with_runtime host.manager id "" p.world) (say (ejecting id) p)

  -- The loop over EjectModelIDs, with the error of a context that is done.
  unfoldable pub eject_each : List String → Preflight W → Preflight W × Option String
  eject_each [] p = (p, none)
  eject_each (id ∷ ids) p = elim (host.context_error p.world) [
    | some e ↦ (p, some e)
    | none ↦ eject_each ids (eject_one id p)
  ]

  unfoldable pub start_placed : PlacedModel → W → Started W
  start_placed m w =
      if str_eq (trim_space (runtime_of m)) ""
      then start_model_with_flags host.surroundings host.manager (model_id_of m) (some m.flags) w
      else start_model_with_runtime host.surroundings host.manager (model_id_of m) (runtime_of m)
          (some m.flags) w

  abbrev pub mark_loaded : PlacedModel → Preflight W → Preflight W
  mark_loaded m p = record p { loaded = p.loaded ++ model_id_of m ∷ [] }

  abbrev pub add_issue : String → Preflight W → Preflight W
  add_issue issue p = record p { ready = false; issues = p.issues ++ issue ∷ [] }

  abbrev pub after_start : PlacedModel → Option Error → Preflight W → Preflight W
  after_start m none p = mark_loaded m p
  after_start m (some e) p =
      add_issue (not_loaded (model_id_of m) (host.surroundings.error_text e)) p

  unfoldable pub load_new : PlacedModel → Preflight W → Preflight W
  load_new m p =
      let s = start_placed m p.world in
      after_start m s.error (record (say (loading (model_id_of m) (runtime_of m)) p) {
        world = s.world;
        reported = p.reported ++ s.reported;
      })

  unfoldable pub load_each : List String → List PlacedModel → Preflight W → Preflight W
  load_each present [] p = p
  load_each present (m ∷ ms) p =
      load_each present ms
        (if contains_model_id present (model_id_of m) then mark_loaded m p else load_new m p)

  abbrev pub after_probe : PlacedModel → W × Option String → Preflight W → Preflight W
  after_probe m (w, none) p = record p { world = w }
  after_probe m (w, some e) p = add_issue (not_answering (model_id_of m) e) (record p { world = w })

  unfoldable pub probe_one : PlacedModel → Preflight W → Preflight W
  probe_one m p =
      if str_eq (trim_space m.endpoint) ""
      then add_issue (no_endpoint (model_id_of m)) p
      else after_probe m (probe_model_endpoint host.web m.endpoint (runtime_of m) p.world)
          (say (probing (model_id_of m)) p)

  unfoldable pub probe_each : List PlacedModel → Preflight W → Preflight W × Option String
  probe_each [] p = (p, none)
  probe_each (m ∷ ms) p = elim (host.context_error p.world) [
    | some e ↦ (p, some e)
    | none ↦ probe_each ms (probe_one m p)
  ]

  -- The three loops.
  unfoldable pub carry_out :
      List String → List String → List PlacedModel → Preflight W → Preflight W × Option String
  carry_out eject present ms p =
      let (p', e) = eject_each eject p in
      elim e [ some x ↦ (p', some x) | none ↦ probe_each ms (load_each present ms p') ]

  unfoldable pub estimate_of : List PlacedModel → MemorySnapshot → LoadPlan → MemoryEstimate
  estimate_of ms snapshot plan = record {
    required_mb = sum (map (λ m. estimate_model_vram host.floats m.model.size) ms);
    available_mb = snapshot.total_mb - snapshot.used_mb - plan.headroom_mb;
    headroom_mb = plan.headroom_mb;
    fits_in_memory = if snapshot.known then plan.steady_state_fits else true;
  }

  -- A preflight's returned pair: no result where there is an error.
  abbrev pub returned :
      MemoryEstimate → LoadPlan → Preflight W × Option String → Fallible PreflightResult
  returned estimate plan (p, some e) = failed e
  returned estimate plan (p, none) = got (record {
    ready = p.ready;
    issues = p.issues;
    loaded_models = p.loaded;
    memory_estimate = estimate;
    load_plan = plan;
  })

  abbrev pub at_start : W → Preflight W
  at_start w = record {
    world = w;
    ready = true;
    issues = [];
    loaded = [];
    said = [];
    reported = [];
  }

  abbrev pub say_fallback : String → Option String → Preflight W → Preflight W
  say_fallback source none p = p
  say_fallback source (some e) p = say (fell_back source e) p

  abbrev pub fit_issue : MemoryEstimate → LoadPlan → MemorySnapshot → String
  fit_issue estimate plan snapshot =
      too_high (host.web.decimal estimate.required_mb) (host.web.decimal plan.headroom_mb)
        (host.web.decimal plan.projected_used_mb) (host.web.decimal snapshot.total_mb)

  -- The preflight of local models, by the plan for them and the error of the memory's query.
  unfoldable pub preflight_of :
      List PlacedModel
      → List String
      → LoadPlan
      → MemorySnapshot
      → Option String
      → W
      → Preflight W × Fallible PreflightResult
  preflight_of ms present plan snapshot query_err w =
      let estimate = estimate_of ms snapshot plan in
      let p = say_fallback plan.memory_source query_err (at_start w) in
      let refused = add_issue (fit_issue estimate plan snapshot) p in
      let run = carry_out plan.eject_model_ids present ms p in
      if estimate.fits_in_memory
      then (run.0, returned estimate plan run)
      else (refused, returned estimate plan (refused, none))

  abbrev pub preflight_local :
      List PlacedModel
      → List String
      → LoadPlan
      → MemorySnapshot
      → Option String
      → W
      → Preflight W × Fallible PreflightResult
  preflight_local [] present plan snapshot query_err w = (at_start w, got nothing_to_do)
  preflight_local (m ∷ ms) present plan snapshot query_err w =
      preflight_of (m ∷ ms) present plan snapshot query_err w

  unfoldable pub run_preflight :
      List PlacedModel
      → String
      → MemorySnapshot
      → Option String
      → W
      → Preflight W × Fallible PreflightResult
  run_preflight models local_machine_id snapshot query_err w =
      let present = list_models host.manager w in
      let plan =
        plan_model_loading_with_snapshot host.floats (map (λ p. p.model) models) local_machine_id
          present snapshot in
      preflight_local (local_manifest_models models local_machine_id) present plan snapshot
        query_err w
