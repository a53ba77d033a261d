-- ===== src/Manifest/Examples.antt =====
-- A manifest with two models, of which one is loaded beside a model that is not wanted.
use mantlerd.Base.{ℕ, ◌*◌, ◌/◌, ltb, ◌↔◌, true, false, String, List, [], ◌∷◌, Memᴰ, some}
use mantlerd.Manifest.Memory.{Floats}
use mantlerd.Manifest.Plan.{ManifestModel, MemorySnapshot, plan_model_loading_with_snapshot}
use mantlerd.Manifest.Plan.Target.{IsPlaced, loaded_after, plan-loaded_after}

-- Floats that count in hundredths.
abbrev hundredths : Floats
hundredths = record {
  F = ℕ;
  parse = λ s. some 700;
  of_nat = λ n. n * 100;
  hundredths = λ n. n;
  times = λ a b. a * b / 100;
  over = λ a b. a * 100 / b;
  is_positive = λ a. ltb 0 a;
  truncate = λ a. a / 100;
}

abbrev model : String → ManifestModel
model id = record {
  source = "machine";
  machine_id = "m1 ";
  size = record {
    model_id = id;
    runtime = "ollama";
    parameter_count = "7B";
    quantization = "q4";
    context_length = 0;
    is_moe = false;
    active_params = "";
  };
}

abbrev models : List ManifestModel
models = model "qwen" ∷ model "phi" ∷ model "yi" ∷ []

abbrev loaded : List String
loaded = "llama" ∷ " qwen" ∷ []

abbrev snapshot : MemorySnapshot
snapshot = record {
  total_mb = 30000;
  used_mb = 24000;
  source = "gpu_vram";
  unified = false;
  known = true;
}

plan-loaded_after_example :
    Memᴰ "phi" (
      loaded_after (plan_model_loading_with_snapshot hundredths models "m1" loaded snapshot) loaded)
    ↔ IsPlaced models "m1" "phi"
plan-loaded_after_example = plan-loaded_after hundredths models "m1" loaded snapshot "phi"
