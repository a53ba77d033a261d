-- ===== src/Relay/Target.antt =====
-- internal/runtimeport/port.go and the URLs in internal/relay/client.go: where a request is sent to.
pub mod Local
use Prim.Native.String.{◌++◌ as concat}
use mantlerd.Base.{
  ℕ, ◌≡◌, Bool, true, false, String, List, [], ◌∷◌, Option, none, some, ◌||◌, str_eq, trim_space,
  to_lower, has_prefix, any, if◌then◌else◌,
}

unfoldable pub resolve : String → ℕ
resolve runtime_name =
    let name = to_lower (trim_space runtime_name) in
    if str_eq name "vllm" || str_eq name "tensorrt"
    then 8000
    else if str_eq name "llamacpp"
    then 1234
    else if str_eq name "quantcpp" || str_eq name "mlx"
    then 8080
    else 11434

-- RuntimeInventory
pub record Inventory : Type 0 where
  pub ready : List String
  pub installed : List String

unfoldable pub first_of : List String → String
first_of [] = ""
first_of (r ∷ rs) = to_lower (trim_space r)

unfoldable pub or_else : String → String → String
or_else name other = if str_eq name "" then other else name

-- The runtime of a request: its own, or the first that is ready, or the first that is installed.
unfoldable pub runtime_for : Inventory → String → String
runtime_for inventory runtime =
    or_else
      (or_else (or_else (to_lower (trim_space runtime)) (first_of inventory.ready))
        (first_of inventory.installed))
      "ollama"

unfoldable pub rooted : String → String
rooted path = if has_prefix path "/" then path else concat "/" path

unfoldable pub path_for : String → String
path_for path = rooted (or_else (trim_space path) "/v1/chat/completions")

-- The package net/url, and the decimal digits that fmt writes.
pub record Urls : Type 0 where
  pub path_of : String → Option String
  pub decimal : ℕ → String

abbrev pub allowed_proxy_path_prefixes : List String
allowed_proxy_path_prefixes = "/v1/" ∷ "/api/" ∷ "/health" ∷ "/metrics" ∷ []

abbrev pub local_url : Urls → ℕ → String → String
local_url urls port path = concat "http://127.0.0.1:" (concat (urls.decimal port) path)

module _ (urls : Urls) where
  unfoldable pub local_url_for_request : Inventory → String → String → String
  local_url_for_request inventory runtime path =
      local_url urls (resolve (runtime_for inventory runtime)) (path_for path)

  unfoldable pub validate_proxy_path : String → Bool
  validate_proxy_path url = elim (urls.path_of url) [
    | none ↦ false
    | some path ↦ any (has_prefix path) allowed_proxy_path_prefixes
  ]
