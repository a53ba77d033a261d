-- ===== src/Manifest/Probe.antt =====
-- internal/manifest/preflight.go, probeModelEndpoint, and internal/netutil: the probe of a model's endpoint.
-- The packages net, net/url and net/http are parameters.
use Prim.Native.String.{◌++◌}
use mantlerd.Base.{
  ℕ, Bool, true, false, ◌||◌, String, Option, none, some, to_lower, trim_space, str_eq, ltb, leb,
  if◌then◌else◌,
}

-- A value and a nil error, or the text of the error.
pub data Fallible {ℓ} (A : Type ℓ) : Type ℓ where
  got : A → Fallible A
  failed : String → Fallible A

pub record Web (W : Type 0) : Type 1 where
  pub Url : Type 0
  pub parse : String → Fallible Url
  pub with_path : String → Url → Url
  pub hostname : Url → String
  pub url_text : Url → String
  -- whether net.ParseIP reads an IP address that is a loopback one
  pub is_loopback_ip : String → Bool
  -- http.NewRequest with GET
  pub request : String → Fallible Url
  -- client.Do, with whether the check of the certificate is skipped: the status of the answer
  pub get : Bool → Url → W → W × Fallible ℕ
  -- %q and %d of fmt
  pub quoted : String → String
  pub decimal : ℕ → String

unfoldable pub endpoint_health_path : String → String
endpoint_health_path runtime_name =
    let name = to_lower (trim_space runtime_name) in
    if str_eq name "ollama" then "/api/tags" else "/health"

module _ {W : Type 0} (web : Web W) where
  unfoldable pub is_loopback_host : String → Bool
  is_loopback_host host =
      let trimmed = trim_space host in
      if str_eq trimmed ""
      then false
      else if str_eq (to_lower trimmed) "localhost"
      then true
      else web.is_loopback_ip trimmed

  unfoldable pub should_skip_tls_verify_for_url : String → Bool
  should_skip_tls_verify_for_url raw_url = elim (web.parse raw_url) [
    | failed e ↦ false
    | got url ↦ is_loopback_host (web.hostname url)
  ]

  -- The error that the answer of an endpoint stands for.
  abbrev pub answer_error : Fallible ℕ → Option String
  answer_error (failed e) = some e
  answer_error (got status) =
      if ltb status 200 || leb 300 status
      then some ("endpoint returned status " ++ web.decimal status)
      else none

  unfoldable pub probe_url : web.Url → String → W → W × Option String
  probe_url parsed runtime_name w =
      let url = web.with_path (endpoint_health_path runtime_name) parsed in
      elim (web.request (web.url_text url)) [
        | failed e ↦ (w, some ("build endpoint probe request: " ++ e))
        | got target ↦
            let (w', answer) = web.get (is_loopback_host (web.hostname url)) target w in
            (w', answer_error answer)
      ]

  -- The text of the error, where there is one.
  unfoldable pub probe_model_endpoint : String → String → W → W × Option String
  probe_model_endpoint endpoint runtime_name w = elim (web.parse (trim_space endpoint)) [
    | failed e ↦ (w, some ("parse endpoint " ++ web.quoted endpoint ++ ": " ++ e))
    | got parsed ↦ probe_url parsed runtime_name w
  ]
