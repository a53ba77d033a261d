-- ===== src/Commands/Config/Bounds.antt =====
-- What the settings that are written satisfy.
use native.Mathlib.Omega.{arith}
use mantlerd.Base.{
  ℕ, ◌≡◌, refl, Bool, true, false, ◌&&◌, not, String, str_eq, trim_space, to_lower, ◌==◌, if-holds,
  if◌then◌else◌,
}
use mantlerd.Pipeline.Value.{Members}
use mantlerd.Commands.Params.{
  ℤ, pos, negsuc, is_positive, Floats, optional_string_param, optional_int_param,
}
use mantlerd.Commands.Config.{
  Configured, as_it_is, refused, writes, LlamaCppConfig, QuantCppConfig, is_missing, is_bad_size,
  is_bad_layers, or_else, positive_or, layers_of, is_backend, cpus, default_llama, set_llama,
  configure_llama_cpp, default_quant, filled_or, set_quant, is_bad_token, configure_quant_cpp,
}

-- A property of the settings, where some are written.
abbrev pub Written : {C : Type 0} → (C → Type 0) → Configured C → Type 0
Written P as_it_is = Unit
Written P (refused name) = Unit
Written P (writes c) = P c

abbrev pub is_zero : ℤ → Bool
is_zero (pos n) = n == 0
is_zero (negsuc n) = false

abbrev pub IsLlamaCpp : LlamaCppConfig → Type 0
IsLlamaCpp c =
    (is_positive c.port ≡ true)
    × (is_positive c.context_size ≡ true)
    × (is_zero c.n_gpu_layers ≡ false)

abbrev pub IsQuantCpp : QuantCppConfig → Type 0
IsQuantCpp c =
    (is_positive c.port ≡ true)
    × (is_positive c.context_size ≡ true)
    × (is_positive c.threads ≡ true)
    × (str_eq (trim_space c.key_quant_type) "" ≡ false)
    × (str_eq (trim_space c.value_quant_type) "" ≡ false)

positive_or-positive :
    (default n : ℤ) → is_positive default ≡ true → is_positive (positive_or default n) ≡ true
positive_or-positive default n h =
    if-holds (λ k. is_positive k ≡ true) (is_positive n) (λ e. e) (λ e. h)

layers_of-nonzero : (n : ℤ) → is_zero (layers_of n) ≡ false
layers_of-nonzero (pos n) = if-holds (λ k. is_zero k ≡ false) (n == 0) (λ e. refl) (λ e. e)
layers_of-nonzero (negsuc n) = refl

filled_or-filled :
    (default s : String)
    → str_eq (trim_space default) "" ≡ false
    → str_eq (trim_space (filled_or default s)) "" ≡ false
filled_or-filled default s h =
    if-holds (λ t. str_eq (trim_space t) "" ≡ false) (str_eq (trim_space s) "") (λ e. h) (λ e. e)

cpus-positive : (n : ℕ) → is_positive (cpus n) ≡ true
cpus-positive n = ground arith

defaults_filled :
    (str_eq (trim_space "uniform_4b") "" ≡ false) × (str_eq (trim_space "q4") "" ≡ false)
unfolding trim_space
defaults_filled = (refl, refl)

-- Refusals are no settings; what is left is the last branch.
unless :
    {C : Type 0} (P : C → Type 0) (t : Bool) (name : String) (c : Configured C)
    → Written P c
    → Written P (if t then refused name else c)
unless P true name c h = tt
unless P false name c h = h

llama-IsLlamaCpp :
    (fl : Floats) (from_file : LlamaCppConfig → LlamaCppConfig) (params : Members)
    → Written IsLlamaCpp (configure_llama_cpp fl from_file params)
unfolding configure_llama_cpp
llama-IsLlamaCpp fl from_file params =
    let backend = to_lower (optional_string_param params "backend") in
    let layers = optional_int_param fl params "nGpuLayers" in
    let size = optional_int_param fl params "contextSize" in
    let cfg = from_file default_llama in
    if-holds (Written IsLlamaCpp) (str_eq backend "" && is_missing layers && is_missing size)
      (λ e. tt)
      (λ e. unless IsLlamaCpp (not (is_backend backend)) "backend" _ (
        unless IsLlamaCpp (is_bad_layers layers) "nGpuLayers" _ (
          unless IsLlamaCpp (is_bad_size size) "contextSize"
            (writes (set_llama backend layers size cfg))
            (
              positive_or-positive (pos 1234) cfg.port refl,
              positive_or-positive (pos 8192) (or_else size cfg.context_size) refl,
              layers_of-nonzero (or_else layers cfg.n_gpu_layers),
            ))))

quant-IsQuantCpp :
    (fl : Floats) (num_cpu : ℕ) (from_file : QuantCppConfig → QuantCppConfig) (params : Members)
    → Written IsQuantCpp (configure_quant_cpp fl num_cpu from_file params)
unfolding configure_quant_cpp
quant-IsQuantCpp fl num_cpu from_file params =
    let keys = trim_space (optional_string_param params "keyQuantType") in
    let values = trim_space (optional_string_param params "valueQuantType") in
    let threads = optional_int_param fl params "threads" in
    let size = optional_int_param fl params "contextSize" in
    let cfg = from_file (default_quant num_cpu) in
    if-holds (Written IsQuantCpp)
      (str_eq keys "" && str_eq values "" && is_missing threads && is_missing size) (λ e. tt)
      (λ e. unless IsQuantCpp (is_bad_size threads) "threads" _ (
        unless IsQuantCpp (is_bad_size size) "contextSize" _ (
          unless IsQuantCpp (is_bad_token keys) "keyQuantType" _ (
            unless IsQuantCpp (is_bad_token values) "valueQuantType"
              (writes (set_quant num_cpu keys values threads size cfg))
              (
                positive_or-positive (pos 8080) cfg.port refl,
                positive_or-positive (pos 8192) (or_else size cfg.context_size) refl,
                positive_or-positive (cpus num_cpu) (or_else threads cfg.threads)
                    (cpus-positive num_cpu),
                filled_or-filled "uniform_4b" _ defaults_filled.0,
                filled_or-filled "q4" _ defaults_filled.1,
              )))))

-- Whatever a command asks for and whatever the files hold: settings that are written for llama.cpp have a
-- positive port and context and a number of layers other than 0; those for quant.cpp have a positive
-- port, context and number of threads and two types that are not blank.
pub configure-bounds :
    (fl : Floats) (num_cpu : ℕ) (llama : LlamaCppConfig → LlamaCppConfig)
    (quant : QuantCppConfig → QuantCppConfig) (params : Members)
    → Written IsLlamaCpp (configure_llama_cpp fl llama params)
      × Written IsQuantCpp (configure_quant_cpp fl num_cpu quant params)
configure-bounds fl num_cpu llama quant params =
    (llama-IsLlamaCpp fl llama params, quant-IsQuantCpp fl num_cpu quant params)
