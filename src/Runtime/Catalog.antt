-- ===== src/Runtime/Catalog.antt =====
-- internal/runtime/catalog.go: the runtimes that the agent knows.
use mantlerd.Base.{String, List, [], ◌∷◌, map, Bool, sort, text_le, elem}
use mantlerd.Base.Dict.{Dict}

pub data Family : Type 0 where
  ollama vllm llama_cpp tensor_rt quant_cpp mlx : Family

pub record RuntimeSpec (D : Type 0) : Type 0 where
  pub name : String
  pub display_name : String
  pub family : Family
  pub backend_variants : List String
  pub create_driver : D

-- The constructors of the six drivers, which stand in files of their own.
pub record Makers (D : Type 0) : Type 0 where
  pub new_ollama : D
  pub new_vllm : D
  pub new_llama_cpp : D
  pub new_tensor_rt : D
  pub new_quant_cpp : D
  pub new_mlx : D

module _ {D : Type 0} where
  abbrev spec : String → String → Family → List String → D → RuntimeSpec D
  spec name display_name family backend_variants driver = record {
    name = name;
    display_name = display_name;
    family = family;
    backend_variants = backend_variants;
    create_driver = driver;
  }

  abbrev pub runtime_catalog : Makers D → List (RuntimeSpec D)
  runtime_catalog k =
      spec "ollama" "Ollama" ollama ("cpu" ∷ "cuda" ∷ []) k.new_ollama
      ∷ spec "vllm" "vLLM" vllm ("cuda" ∷ []) k.new_vllm
      ∷ spec "llamacpp" "llama.cpp" llama_cpp ("cpu" ∷ "cuda" ∷ "vulkan" ∷ "metal" ∷ "rocm" ∷ [])
          k.new_llama_cpp
      ∷ spec "tensorrt" "TensorRT-LLM" tensor_rt ("cuda" ∷ []) k.new_tensor_rt
      ∷ spec "quantcpp" "quant.cpp" quant_cpp ("cpu" ∷ []) k.new_quant_cpp
      ∷ spec "mlx" "MLX Server" mlx ("metal" ∷ []) k.new_mlx
      ∷ []

  unfoldable pub supported_runtime_names : Makers D → List String
  supported_runtime_names k = sort text_le (map (λ s. s.name) (runtime_catalog k))

  unfoldable pub is_supported_runtime_name : Makers D → String → Bool
  is_supported_runtime_name k name = elem name (map (λ s. s.name) (runtime_catalog k))

  -- The names differ, so that assigning them in turn keeps every entry.
  unfoldable pub new_driver_registry : Makers D → Dict D
  new_driver_registry k = map (λ s. (s.name, s.create_driver)) (runtime_catalog k)
