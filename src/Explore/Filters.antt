-- ===== src/Explore/Filters.antt =====
-- cmd/mantler/explore.go, filterRuntimePlanArgs and filterRuntimePlanEnv.
pub mod Allowed
use mantlerd.Base.{
  Bool, true, false, not, String, List, [], ◌∷◌, Option, none, some, any, has_prefix, to_upper,
  str_eq, trim_space, if◌then◌else◌,
}
use mantlerd.Base.Dict.{Dict, put}

unfoldable pub arg_prefixes : String → List String
arg_prefixes runtime =
    if str_eq runtime "vllm"
    then "--model" ∷ "--tensor-parallel-size" ∷ "--max-model-len" ∷ "--gpu-memory-utilization"
      ∷ "--dtype" ∷ []
    else if str_eq runtime "tensorrt"
    then "--model" ∷ "--max_batch_size" ∷ "--max_input_len" ∷ "--max_output_len"
      ∷ "--max_beam_width" ∷ []
    else if str_eq runtime "ollama"
    then "--num-gpu" ∷ "--num-ctx" ∷ "--temperature" ∷ "--top-p" ∷ []
    else []

unfoldable pub env_prefixes : String → List String
env_prefixes runtime =
    if str_eq runtime "vllm"
    then "VLLM_" ∷ "HF_" ∷ "HUGGINGFACE_" ∷ "NVIDIA_" ∷ "CUDA_" ∷ []
    else if str_eq runtime "tensorrt"
    then "TENSORRT_" ∷ "HF_" ∷ "HUGGINGFACE_" ∷ "NVIDIA_" ∷ "CUDA_" ∷ []
    else if str_eq runtime "ollama"
    then "OLLAMA_" ∷ "HF_" ∷ "HUGGINGFACE_" ∷ []
    else []

-- With no prefix, the loops below keep nothing, as the early returns do.
abbrev pub is_allowed : List String → String → Bool
is_allowed prefixes trimmed = if str_eq trimmed "" then false else any (has_prefix trimmed) prefixes

unfoldable pub filter_args : List String → List String → List String
filter_args prefixes [] = []
filter_args prefixes (arg ∷ args) =
    let rest = filter_args prefixes args in
    if is_allowed prefixes (trim_space arg) then trim_space arg ∷ rest else rest

unfoldable pub filter_runtime_plan_args : String → List String → List String
filter_runtime_plan_args runtime args = filter_args (arg_prefixes runtime) args

abbrev pub is_allowed_key : List String → String → Bool
is_allowed_key prefixes key =
    if str_eq key "" then false else any (has_prefix (to_upper key)) prefixes

-- The loop, with the variables that were kept.
unfoldable pub filter_env : List String → Dict String → Dict String → Dict String
filter_env prefixes [] filtered = filtered
filter_env prefixes ((key, value) ∷ env) filtered = filter_env prefixes env (
    if is_allowed_key prefixes (trim_space key)
    then put (trim_space key) (trim_space value) filtered
    else filtered)

unfoldable pub filter_runtime_plan_env : String → Dict String → Dict String
filter_runtime_plan_env runtime env = filter_env (env_prefixes runtime) env []
