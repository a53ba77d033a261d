-- ===== src/Commands/Params.antt =====
-- internal/commands/executor.go: the parameters of a command, as JSON decodes them. A number is its text; the
-- float64 that it stands for and its conversion to an int are parameters of the model. The code's case
-- of a Go int, which JSON does not give, is left out.
use Prim.Native.Char.{Char, code}
use Prim.Native.String.{◌++◌}
use mantlerd.Base.{
  ℕ, Bool, true, false, ◌&&◌, ◌||◌, not, String, List, [], ◌∷◌, Option, none, some, length, split,
  contains, has_prefix, trim_prefix, str_eq, trim_space, ltb, leb, ◌==◌, if◌then◌else◌,
}
use mantlerd.Runtime.Driver.{Flags}
use mantlerd.Pipeline.Value.{Value, boolean, number, text, array, object, Members, find}
use mantlerd.Pipeline.Context.{string_from_any, filled_texts}

pub data ℤ : Type 0 where
  pos negsuc : ℕ → ℤ

abbrev pub is_positive : ℤ → Bool
is_positive (pos n) = ltb 0 n
is_positive (negsuc n) = false

pub record Floats : Type 0 where
  -- whether the number is above 0, and int(value)
  pub is_above_zero : String → Bool
  pub to_int : String → ℤ

pub data ParamError : Type 0 where
  missing_param invalid_param : String → ParamError

pub data Parsed {ℓ} (A : Type ℓ) : Type ℓ where
  parsed : A → Parsed A
  wrong : ParamError → Parsed A

abbrev pub text_given : String → Option Value → Parsed String
text_given key none = wrong (missing_param key)
text_given key (some (text s)) = if str_eq s "" then wrong (invalid_param key) else parsed s
text_given key (some _) = wrong (invalid_param key)

unfoldable pub string_param : Members → String → Parsed String
string_param params key = text_given key (find key params)

unfoldable pub optional_string_param : Members → String → String
optional_string_param params key = string_from_any (find key params)

abbrev pub texts_given : Option Value → List String
texts_given (some (array vs)) = filled_texts vs
texts_given _ = []

unfoldable pub optional_string_array_param : Members → String → List String
optional_string_array_param params key = texts_given (find key params)

abbrev pub bool_given : Bool → Option Value → Bool
bool_given fallback (some (boolean b)) = b
bool_given fallback _ = fallback

unfoldable pub optional_bool_param : Members → String → Bool → Bool
optional_bool_param params key fallback = bool_given fallback (find key params)

abbrev pub flags_given : Option Value → Option Flags
flags_given (some (object obj)) = some (record {
  streaming = bool_given true (find "streaming" obj);
  thinking = bool_given false (find "thinking" obj);
})
flags_given _ = none

unfoldable pub model_feature_flags_param : Members → Option Flags
model_feature_flags_param params = flags_given (find "featureFlags" params)

module _ (fl : Floats) where
  abbrev pub int_given : ℤ → Option Value → ℤ
  int_given fallback (some (number n)) = if fl.is_above_zero n then fl.to_int n else fallback
  int_given fallback _ = fallback

  unfoldable pub int_param : Members → String → ℤ → ℤ
  int_param params key fallback = int_given fallback (find key params)

  abbrev pub number_given : Option Value → Option ℤ
  number_given (some (number n)) = some (fl.to_int n)
  number_given _ = none

  unfoldable pub optional_int_param : Members → String → Option ℤ
  optional_int_param params key = number_given (find key params)

abbrev pub between : ℕ → ℕ → Char → Bool
between a b c = leb a (code c) && leb (code c) b

abbrev pub is_safe_char : Char → Bool
is_safe_char c =
    between 97 122 c
    || between 65 90 c
    || between 48 57 c
    || code c == 95
    || code c == 45
    || code c == 46

unfoldable pub all_chars : (Char → Bool) → String → Bool
all_chars p String.[] = true
all_chars p (String.◌∷◌ c s) = let rest = all_chars p s in p c && rest

unfoldable pub is_safe_quant_token : String → Bool
is_safe_quant_token value =
    let trimmed = trim_space value in not (str_eq trimmed "") && all_chars is_safe_char trimmed

unfoldable pub append_flag_arg : String → String → String → String
append_flag_arg existing name value =
    let trimmed = trim_space existing in
    if contains trimmed name
    then trimmed
    else if str_eq trimmed ""
    then trim_space (name ++ (" " ++ value))
    else trim_space (trimmed ++ (" " ++ (name ++ (" " ++ value))))

abbrev pub first_part : List String → String
first_part [] = ""
first_part (p ∷ parts) = p

unfoldable pub all_numbers : List String → Bool
all_numbers [] = true
all_numbers (n ∷ ns) =
    let rest = all_numbers ns in not (str_eq n "") && all_chars (between 48 57) n && rest

unfoldable pub is_valid_version_tag : String → Bool
is_valid_version_tag v =
    let trimmed = trim_prefix (trim_prefix v "v") "V" in
    let nums = split "." (first_part (split "-" trimmed)) in
    (has_prefix v "v" || has_prefix v "V")
    && not (str_eq trimmed "")
    && leb 2 (length nums)
    && leb (length nums) 3
    && all_numbers nums

pub record ClusterRunContext : Type 0 where
  pub node_count : ℤ
  pub topology : String
  pub machine_ids : List String
  pub peer_addresses : List String
  pub socket_interface : String

abbrev pub or_texts : List String → List String → List String
or_texts [] others = others
or_texts (s ∷ ss) others = s ∷ ss

-- A node count that is given and positive, or another one.
abbrev pub or_count : Option ℤ → ℤ → ℤ
or_count none n = n
or_count (some m) n = if is_positive m then m else n

unfoldable pub parse_cluster_run_context : Floats → Members → ClusterRunContext
parse_cluster_run_context fl params =
    let machine_ids =
      or_texts (optional_string_array_param params "machineIds")
        (optional_string_array_param params "clusterMachineIds") in
    let interface = optional_string_param params "ncclSocketInterface" in
    let counted =
      or_count (optional_int_param fl params "clusterNodeCount")
        (or_count (optional_int_param fl params "nodeCount") (pos (length machine_ids))) in
    record {
      node_count = if is_positive counted then counted else pos 1;
      topology = optional_string_param params "clusterTopology";
      machine_ids = machine_ids;
      peer_addresses =
          or_texts (optional_string_array_param params "peerAddresses")
            (optional_string_array_param params "clusterPeerAddresses");
      socket_interface = if str_eq interface "" then "enp1s0f1np1" else interface;
    }
