-- ===== src/Manifest/Plan.antt =====
-- internal/manifest/memory.go, PlanModelLoadingWithSnapshot. An int of Go that the code cuts off at 0 is
-- a difference of natural numbers here; the comparison that may be of negative numbers has its negative
-- term on the other side. Sizes in MB are far from the end of Go's int.
pub mod Target
pub mod Fit
use mantlerd.Base.{
  ℕ, ◌+◌, ◌-◌, Bool, true, false, not, ◌&&◌, ◌||◌, String, List, [], ◌∷◌, map, keep, elem, sort,
  text_le, ltb, leb, ◌==◌, str_eq, trim_space, if◌then◌else◌,
}
use mantlerd.Manifest.Memory.{Floats, ModelSize, estimate_model_vram, estimate_headroom_mb}

pub record ManifestModel : Type 0 where
  pub source : String
  pub machine_id : String
  pub size : ModelSize

pub record MemorySnapshot : Type 0 where
  pub total_mb : ℕ
  pub used_mb : ℕ
  pub source : String
  pub unified : Bool
  pub known : Bool

pub record LoadPlan : Type 0 where
  pub eject_model_ids : List String
  pub load_model_ids : List String
  pub sequential : Bool
  pub projected_used_mb : ℕ
  pub projected_free_mb : ℕ
  pub headroom_mb : ℕ
  pub steady_state_fits : Bool
  pub memory_source : String

-- Whether a model of the manifest is to be loaded on this machine.
abbrev pub is_local : String → ManifestModel → Bool
is_local local_machine_id m =
    str_eq m.source "machine" && str_eq (trim_space m.machine_id) (trim_space local_machine_id)

unfoldable pub desired_models : List ManifestModel → String → List ManifestModel
desired_models models local_machine_id = keep (is_local local_machine_id) models

abbrev pub id_of : ManifestModel → String
id_of m = m.size.model_id

abbrev pub desired_ids : List ManifestModel → String → List String
desired_ids models local_machine_id = map id_of (desired_models models local_machine_id)

abbrev pub is_missing : List String → String → Bool
is_missing loaded id = not (elem id (map trim_space loaded))

abbrev pub is_unwanted : List String → String → Bool
is_unwanted desired id = not (elem (trim_space id) desired)

unfoldable pub eject_ids : List String → List String → List String
eject_ids desired loaded = sort text_le (keep (is_unwanted desired) loaded)

unfoldable pub load_ids : List String → List String → List String
load_ids desired loaded = sort text_le (keep (is_missing loaded) desired)

-- The arguments with which a model that is only known by its ID is estimated.
abbrev pub only_named : String → ModelSize
only_named id = record {
  model_id = id;
  runtime = "";
  parameter_count = "";
  quantization = "";
  context_length = 0;
  is_moe = false;
  active_params = "";
}

-- desiredModelByID: the last of the models with this ID, and the zero value for no such model.
unfoldable pub size_of : List ManifestModel → ModelSize → String → ModelSize
size_of [] found id = found
size_of (m ∷ ms) found id = size_of ms (if str_eq (id_of m) id then m.size else found) id

abbrev pub desired_size : List ManifestModel → String → ModelSize
desired_size desired = size_of desired (only_named "")

unfoldable pub sum : List ℕ → ℕ
sum [] = 0
sum (n ∷ ns) = n + sum ns

unfoldable pub largest : List ℕ → ℕ
largest [] = 0
largest (n ∷ ns) = let rest = largest ns in if ltb rest n then n else rest

module _ (fl : Floats) where
  unfoldable pub reclaimable_mb : List String → ℕ
  reclaimable_mb ejected = sum (map (λ id. estimate_model_vram fl (only_named id)) ejected)

  unfoldable pub estimates : List ManifestModel → List String → List ℕ
  estimates desired ids = map (λ id. estimate_model_vram fl (desired_size desired id)) ids

  -- The plan from what is ejected, what is loaded, and the estimates of these.
  unfoldable pub plan_of : MemorySnapshot → List String → List String → ℕ → List ℕ → LoadPlan
  plan_of snapshot ejected to_load reclaimable needed =
      let headroom = estimate_headroom_mb fl snapshot.total_mb snapshot.unified in
      let projected_used = (snapshot.used_mb + sum needed) - reclaimable in
      let fits = not snapshot.known || leb (projected_used + headroom) snapshot.total_mb in
      record {
        eject_model_ids = ejected;
        load_model_ids = to_load;
        sequential =
            snapshot.known
            && not (largest needed == 0)
            && not fits
            && leb (snapshot.used_mb + largest needed + headroom) (snapshot.total_mb + reclaimable);
        projected_used_mb = projected_used;
        projected_free_mb = snapshot.total_mb - projected_used;
        headroom_mb = headroom;
        steady_state_fits = fits;
        memory_source = snapshot.source;
      }

  unfoldable pub plan_model_loading_with_snapshot :
      List ManifestModel → String → List String → MemorySnapshot → LoadPlan
  plan_model_loading_with_snapshot models local_machine_id loaded snapshot =
      let desired = desired_models models local_machine_id in
      let ejected = eject_ids (map id_of desired) loaded in
      let to_load = load_ids (map id_of desired) loaded in
      plan_of snapshot ejected to_load (reclaimable_mb ejected) (estimates desired to_load)

  unfoldable pub plan_model_loading : List ManifestModel → String → List String → ℕ → ℕ → LoadPlan
  plan_model_loading models local_machine_id loaded total_mb used_mb =
      plan_model_loading_with_snapshot models local_machine_id loaded (record {
        total_mb = total_mb;
        used_mb = used_mb;
        source = "gpu_vram";
        unified = false;
        known = ltb 0 total_mb;
      })
