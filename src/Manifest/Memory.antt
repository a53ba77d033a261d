-- ===== src/Manifest/Memory.antt =====
-- internal/manifest/memory.go: the memory that a model is estimated to need, over abstract floats.
pub mod Bounds
use Prim.Native.Char.{code}
use Prim.Native.String.{◌++◌ as concat}
use mantlerd.Base.{
  ℕ, ◌+◌, ◌*◌, Bool, true, false, String, List, [], ◌∷◌, Option, none, some, ltb, leb, ◌==◌, ◌&&◌,
  ◌||◌, str_eq, trim_space, to_lower, contains, is_empty, if◌then◌else◌,
}

-- Go's float64: strconv.ParseFloat, conversion from an integer, constants in hundredths, and truncation
-- of a float that is not negative.
pub record Floats : Type 1 where
  pub F : Type 0
  pub parse : String → Option F
  pub of_nat : ℕ → F
  pub hundredths : ℕ → F
  pub times : F → F → F
  pub over : F → F → F
  pub is_positive : F → Bool
  pub truncate : F → ℕ

-- The characters that strings.Map keeps.
unfoldable pub numeric : String → String
numeric String.[] = ""
numeric (String.◌∷◌ c s) =
    let rest = numeric s in
    if leb b'0' (code c) && leb (code c) b'9' || code c == b'.' then String.◌∷◌ c rest else rest

unfoldable pub infer_quant : String → String
infer_quant lower =
    if contains lower "q8"
    then "q8_0"
    else if contains lower "q6"
    then "q6_k"
    else if contains lower "q5"
    then "q5_k_m"
    else if contains lower "q4"
    then "q4_k_m"
    else if contains lower "q3"
    then "q3_k_m"
    else if contains lower "q2"
    then "q2_k"
    else "q8_0"

unfoldable pub infer_quant_from_model_id : String → String
infer_quant_from_model_id model_id = infer_quant (to_lower model_id)

unfoldable pub runtime_overhead_mb : String → ℕ
runtime_overhead_mb runtime =
    let name = to_lower (trim_space runtime) in
    if str_eq name "vllm"
    then 1024
    else if str_eq name "tensorrt"
    then 1536
    else if str_eq name "llamacpp" || str_eq name "quantcpp"
    then 768
    else if str_eq name "mlx"
    then 640
    else 700

-- The bytes per parameter, in hundredths.
unfoldable pub quant_hundredths : String → ℕ
quant_hundredths value =
    let name = to_lower (trim_space value) in
    if str_eq name "f16" || str_eq name "fp16" || str_eq name "bf16"
    then 200
    else if str_eq name "q8_0" || str_eq name "int8"
    then 105
    else if str_eq name "q6_k"
    then 80
    else if str_eq name "q5_k_m"
    then 68
    else if str_eq name "q4_k_m"
        || str_eq name "q4"
        || str_eq name "int4"
        || str_eq name "awq"
        || str_eq name "gptq"
    then 58
    else if str_eq name "q3_k_m"
    then 48
    else if str_eq name "q2_k"
    then 37
    else 105

-- A value within two bounds.
unfoldable pub clamp : ℕ → ℕ → ℕ → ℕ
clamp low high n =
    let raised = if ltb n low then low else n in if ltb high raised then high else raised

-- What EstimateModelVRAM reads of a model. The length of the context is 0 where it is not positive.
pub record ModelSize : Type 0 where
  pub model_id : String
  pub runtime : String
  pub parameter_count : String
  pub quantization : String
  pub context_length : ℕ
  pub is_moe : Bool
  pub active_params : String

module _ (fl : Floats) where
  unfoldable pub with_unit : String → Option fl.F → fl.F
  with_unit trimmed none = fl.of_nat 0
  with_unit trimmed (some parsed) =
      if contains trimmed "b"
      then parsed
      else if contains trimmed "m"
      then fl.over parsed (fl.of_nat 1000)
      else parsed

  unfoldable pub parse_parameter_count_in_billions : String → fl.F
  parse_parameter_count_in_billions value =
      let trimmed = to_lower (trim_space value) in
      if str_eq trimmed "" || str_eq (numeric trimmed) ""
      then fl.of_nat 0
      else with_unit trimmed (fl.parse (numeric trimmed))

  unfoldable pub quant_bytes_per_param : String → fl.F
  quant_bytes_per_param value = fl.hundredths (quant_hundredths value)

  -- The layers, the heads, and the bytes of two caches in halves of a word.
  unfoldable pub kv_cache_bytes : fl.F → ℕ → ℕ
  kv_cache_bytes params_b context_length =
      let context = if context_length == 0 then 4096 else context_length in
      let layers = clamp 16 120 (fl.truncate (fl.times params_b (fl.of_nat 8))) in
      let kv_heads = clamp 8 128 (fl.truncate (fl.times params_b (fl.of_nat 4))) in
      2 * layers * kv_heads * 128 * context * 2

  unfoldable pub estimate_kv_cache_mb : fl.F → ℕ → ℕ
  estimate_kv_cache_mb params_b context_length =
      let mb =
        fl.truncate
          (fl.over (fl.of_nat (kv_cache_bytes params_b context_length)) (fl.of_nat 1048576)) in
      if ltb mb 128 then 128 else mb

  unfoldable pub fallback_billions : String → ℕ
  fallback_billions lower =
      if contains lower "70b"
      then 70
      else if contains lower "34b"
      then 34
      else if contains lower "13b"
      then 13
      else if contains lower "8b"
      then 8
      else 7

  unfoldable pub dense_billions : ModelSize → fl.F
  dense_billions m =
      let parsed = parse_parameter_count_in_billions m.parameter_count in
      if fl.is_positive parsed then parsed else fl.of_nat (fallback_billions (to_lower m.model_id))

  unfoldable pub weight_billions : ModelSize → fl.F
  weight_billions m =
      let active = parse_parameter_count_in_billions m.active_params in
      if m.is_moe && fl.is_positive active then active else dense_billions m

  unfoldable pub quant_of : ModelSize → String
  quant_of m =
      let quant = trim_space m.quantization in
      if str_eq quant "" then infer_quant_from_model_id m.model_id else quant

  unfoldable pub estimate_model_vram : ModelSize → ℕ
  estimate_model_vram m =
      fl.truncate (
        fl.times (fl.times (weight_billions m) (quant_bytes_per_param (quant_of m)))
          (fl.of_nat 1024))
      + estimate_kv_cache_mb (dense_billions m) m.context_length
      + runtime_overhead_mb m.runtime

  unfoldable pub estimate_headroom_mb : ℕ → Bool → ℕ
  estimate_headroom_mb total_mb unified =
      let minimum = if unified then 4096 else 2048 in
      let headroom =
        fl.truncate (fl.times (fl.of_nat total_mb) (fl.hundredths (if unified then 15 else 10))) in
      if total_mb == 0 then minimum else if ltb headroom minimum then minimum else headroom
