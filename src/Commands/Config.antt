-- ===== src/Commands/Config.antt =====
-- internal/commands/executor.go, withLlamaCppConfig and withQuantCppConfig: the settings of a runtime that a command
-- brings. Reading the file into the defaults by json.Unmarshal is a parameter, and so is the writing.
pub mod Bounds
use mantlerd.Base.{
  ℕ, max, Bool, true, false, ◌&&◌, ◌||◌, not, String, Option, none, some, str_eq, trim_space,
  to_lower, ◌==◌, leb, if◌then◌else◌,
}
use mantlerd.Pipeline.Value.{Members}
use mantlerd.Commands.Params.{
  ℤ, pos, negsuc, is_positive, Floats, optional_string_param, optional_int_param,
  is_safe_quant_token,
}

-- Whether the function is called at once, the parameters are refused, or settings are written first.
pub data Configured (C : Type 0) : Type 0 where
  as_it_is : Configured C
  refused : String → Configured C
  writes : C → Configured C

-- What the code does then: `write` gives the error of the writing.
abbrev pub with_config :
    {C W E : Type 0}
    → (String → E)
    → (C → W → W × Option E)
    → Configured C
    → (W → W × Option E)
    → W
    → W × Option E
with_config invalid write as_it_is call w = call w
with_config invalid write (refused name) call w = (w, some (invalid name))
with_config invalid write (writes c) call w =
    let (w', e) = write c w in elim e [ none ↦ call w' | some x ↦ (w', some x) ]

pub record LlamaCppConfig : Type 0 where
  pub model : String
  pub port : ℤ
  pub backend : String
  pub n_gpu_layers : ℤ
  pub context_size : ℤ

pub record QuantCppConfig : Type 0 where
  pub model : String
  pub port : ℤ
  pub key_quant_type : String
  pub value_quant_type : String
  pub threads : ℤ
  pub context_size : ℤ

abbrev pub is_missing : Option ℤ → Bool
is_missing none = true
is_missing (some n) = false

-- A number that is given and not positive.
abbrev pub is_bad_size : Option ℤ → Bool
is_bad_size none = false
is_bad_size (some n) = not (is_positive n)

-- Below -1.
abbrev pub is_bad_layers : Option ℤ → Bool
is_bad_layers (some (negsuc n)) = leb 1 n
is_bad_layers _ = false

abbrev pub or_else : Option ℤ → ℤ → ℤ
or_else none n = n
or_else (some m) n = m

abbrev pub or_text : String → String → String
or_text s t = if str_eq s "" then t else s

abbrev pub positive_or : ℤ → ℤ → ℤ
positive_or default n = if is_positive n then n else default

-- 0 stands for all layers.
abbrev pub layers_of : ℤ → ℤ
layers_of (pos n) = if n == 0 then negsuc 0 else pos n
layers_of (negsuc n) = negsuc n

abbrev pub is_backend : String → Bool
is_backend s =
    str_eq s ""
    || str_eq s "cpu"
    || str_eq s "cuda"
    || str_eq s "vulkan"
    || str_eq s "metal"
    || str_eq s "rocm"

abbrev pub default_llama : LlamaCppConfig
default_llama = record {
  model = "";
  port = pos 1234;
  backend = "cpu";
  n_gpu_layers = negsuc 0;
  context_size = pos 8192;
}

abbrev pub set_llama : String → Option ℤ → Option ℤ → LlamaCppConfig → LlamaCppConfig
set_llama backend layers size cfg = record {
  model = cfg.model;
  port = positive_or (pos 1234) cfg.port;
  backend = or_text backend cfg.backend;
  n_gpu_layers = layers_of (or_else layers cfg.n_gpu_layers);
  context_size = positive_or (pos 8192) (or_else size cfg.context_size);
}

unfoldable pub configure_llama_cpp :
    Floats → (LlamaCppConfig → LlamaCppConfig) → Members → Configured LlamaCppConfig
configure_llama_cpp fl from_file params =
    let backend = to_lower (optional_string_param params "backend") in
    let layers = optional_int_param fl params "nGpuLayers" in
    let size = optional_int_param fl params "contextSize" in
    if str_eq backend "" && is_missing layers && is_missing size
    then as_it_is
    else if not (is_backend backend)
    then refused "backend"
    else if is_bad_layers layers
    then refused "nGpuLayers"
    else if is_bad_size size
    then refused "contextSize"
    else writes (set_llama backend layers size (from_file default_llama))

abbrev pub cpus : ℕ → ℤ
cpus n = pos (max 1 n)

abbrev pub default_quant : ℕ → QuantCppConfig
default_quant num_cpu = record {
  model = "";
  port = pos 8080;
  key_quant_type = "uniform_4b";
  value_quant_type = "q4";
  threads = cpus num_cpu;
  context_size = pos 8192;
}

abbrev pub filled_or : String → String → String
filled_or default s = if str_eq (trim_space s) "" then default else s

abbrev pub set_quant : ℕ → String → String → Option ℤ → Option ℤ → QuantCppConfig → QuantCppConfig
set_quant num_cpu keys values threads size cfg = record {
  model = cfg.model;
  port = positive_or (pos 8080) cfg.port;
  key_quant_type = filled_or "uniform_4b" (or_text keys cfg.key_quant_type);
  value_quant_type = filled_or "q4" (or_text values cfg.value_quant_type);
  threads = positive_or (cpus num_cpu) (or_else threads cfg.threads);
  context_size = positive_or (pos 8192) (or_else size cfg.context_size);
}

abbrev pub is_bad_token : String → Bool
is_bad_token s = not (str_eq s "") && not (is_safe_quant_token s)

unfoldable pub configure_quant_cpp :
    Floats → ℕ → (QuantCppConfig → QuantCppConfig) → Members → Configured QuantCppConfig
configure_quant_cpp fl num_cpu from_file params =
    let keys = trim_space (optional_string_param params "keyQuantType") in
    let values = trim_space (optional_string_param params "valueQuantType") in
    let threads = optional_int_param fl params "threads" in
    let size = optional_int_param fl params "contextSize" in
    if str_eq keys "" && str_eq values "" && is_missing threads && is_missing size
    then as_it_is
    else if is_bad_size threads
    then refused "threads"
    else if is_bad_size size
    then refused "contextSize"
    else if is_bad_token keys
    then refused "keyQuantType"
    else if is_bad_token values
    then refused "valueQuantType"
    else writes (set_quant num_cpu keys values threads size (from_file (default_quant num_cpu)))
