-- ===== src/Manifest/Memory/Bounds.antt =====
-- Bounds on the estimates, whatever the floats compute.
use mantlerd.Base.{
  ℕ, ◌≤◌, ◌≡◌, Bool, true, false, String, arith, str_eq, ◌||◌, trim_space, to_lower, if◌then◌else◌,
}
use mantlerd.Manifest.Memory.{
  Floats, runtime_overhead_mb, ModelSize, estimate_kv_cache_mb, estimate_model_vram,
  estimate_headroom_mb, dense_billions,
}

at_least : (n : ℕ) (b : Bool) {x y : ℕ} → n ≤ x → n ≤ y → n ≤ (if b then x else y)
at_least n true p q = p
at_least n false p q = q

runtime_overhead_mb_lem : (runtime : String) → 640 ≤ runtime_overhead_mb runtime
unfolding runtime_overhead_mb
runtime_overhead_mb_lem runtime =
    let name = to_lower (trim_space runtime) in
    at_least 640 (str_eq name "vllm") (omega arith) (
      at_least 640 (str_eq name "tensorrt") (omega arith) (
        at_least 640 (str_eq name "llamacpp" || str_eq name "quantcpp") (omega arith)
          (at_least 640 (str_eq name "mlx") (omega arith) (omega arith))))

module _ (fl : Floats) where
  estimate_kv_cache_mb_lem : (p : fl.F) (context : ℕ) → 128 ≤ estimate_kv_cache_mb fl p context
  unfolding estimate_kv_cache_mb
  estimate_kv_cache_mb_lem p context = ground arith

  -- No model is estimated to need less than 768 MB.
  pub estimate_model_vram-bound : (m : ModelSize) → 768 ≤ estimate_model_vram fl m
  unfolding estimate_model_vram
  estimate_model_vram-bound m = omega (
    arith,
    estimate_kv_cache_mb_lem (dense_billions fl m) m.context_length,
    runtime_overhead_mb_lem m.runtime,
  )

  -- At least 2 GB are kept free, and at least 4 GB on a machine with unified memory.
  pub estimate_headroom_mb-bound :
      (total : ℕ) (unified : Bool)
      → (2048 ≤ estimate_headroom_mb fl total unified)
        × (unified ≡ true → 4096 ≤ estimate_headroom_mb fl total unified)
  unfolding estimate_headroom_mb
  estimate_headroom_mb-bound total true = (ground arith, λ h. ground arith)
  estimate_headroom_mb-bound total false = (ground arith, λ h. absurd (cc h))
