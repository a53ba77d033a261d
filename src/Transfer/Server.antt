-- ===== src/Transfer/Server.antt =====
-- internal/transfer/server.go: authorising requests, and the limit on concurrent transfers. The steps
-- of a request's goroutine between two accesses of the atomic counter are one step here, and any
-- request may make the next step.
pub mod Limit
pub mod Drained
pub mod Authorized
use mantlerd.Base.{
  ℕ, zero, suc, ◌+◌, ◌-◌, Bool, true, false, String, List, [], ◌∷◌, Option, none, some, ltb, str_eq,
  trim_space, ◌&&◌, ◌⊎◌, inl, inr, trim_prefix, to_lower, ◌||◌, if◌then◌else◌, not,
}
use mantlerd.Transfer.Token.{TokenClaims, Codec, verify_token, TokenError}
use mantlerd.Transfer.Token

pub data AuthError : Type 0 where
  no_secret missing_authorization model_mismatch : AuthError
  bad_token : TokenError → AuthError

pub data Auth : Type 0 where
  granted : TokenClaims → Auth
  refused : AuthError → Auth

pub record ModelFile : Type 0 where
  pub path : String
  pub digest : String
  pub size : ℕ

-- The parts of an HTTP request that the handlers read: the method, the query's `model` and `runtime`,
-- and the header Authorization.
pub record Request : Type 0 where
  pub method : String
  pub model : String
  pub runtime : String
  pub authorization : String

-- The machine, its transfer secret, the store's lookups, os.Stat (of a path: whether it is a directory)
-- and the clock.
pub record Host : Type 0 where
  pub codec : Codec
  pub machine_id : String
  pub secret : String
  pub now : ℕ
  pub find_hf_model : String → Option ModelFile
  pub find_ollama_model : String → Option ModelFile
  pub stat : String → Option Bool

pub data Response : Type 0 where
  -- http.Error with a status code
  status : ℕ → Response
  -- streamDirectory and streamFile
  tar_of : String → Response
  file_of : String → String → Response

abbrev pub max_concurrent_transfers : ℕ
max_concurrent_transfers = 2

module _ (h : Host) where
  unfoldable pub check_model : String → Token.Result TokenClaims → Auth
  check_model model_id (Token.err e) = refused (bad_token e)
  check_model model_id (Token.ok claims) =
      if not (str_eq model_id "") && not (str_eq claims.model_id model_id)
      then refused model_mismatch
      else granted claims

  -- The argument `runtime` of verifyRequest is not read by the code.
  unfoldable pub verify_request : Request → String → Auth
  verify_request r model_id =
      let token = trim_prefix (trim_space r.authorization) "Bearer " in
      if str_eq h.secret ""
      then refused no_secret
      else if str_eq token ""
      then refused missing_authorization
      else check_model model_id (verify_token h.codec h.secret token h.machine_id h.now)

  -- handleBlob up to the counter: the status of an early response, or the claims.
  unfoldable pub check_blob : Request → ℕ ⊎ TokenClaims
  check_blob r =
      let model_id = trim_space r.model in
      if not (str_eq r.method "GET")
      then inl 405
      else if str_eq model_id ""
      then inl 400
      else elim (verify_request r model_id) [ refused e ↦ inl 401 | granted claims ↦ inr claims ]

  unfoldable pub find_model : Request → Option ModelFile
  find_model r =
      let runtime = to_lower (trim_space r.runtime) in
      if str_eq runtime "vllm" || str_eq runtime "tensorrt"
      then h.find_hf_model (trim_space r.model)
      else h.find_ollama_model (trim_space r.model)

  -- handleBlob behind the counter.
  unfoldable pub serve_blob : Request → Response
  serve_blob r = elim (find_model r) [
    | none ↦ status 404
    | some f ↦ elim (h.stat f.path) [
      | none ↦ status 500
      | some true ↦ tar_of f.path
      | some false ↦ file_of f.path f.digest
    ]
  ]

  -- handleManifest up to the listing of the store.
  unfoldable pub check_manifest : Request → ℕ ⊎ TokenClaims
  check_manifest r =
      if not (str_eq r.method "GET")
      then inl 405
      else elim (verify_request r "") [ refused e ↦ inl 401 | granted claims ↦ inr claims ]

-- How far a request to handleBlob has come: before the counter is raised, behind a raise beyond the
-- limit that is still to be taken back, in the transfer, and answered.
pub data Phase : Type 0 where
  arrived : Request → Phase
  rejecting : Request → Phase
  transferring : Request → Phase
  answered : Request → Response → Phase

-- The counter `active` and the requests.
pub record Server : Type 0 where
  pub active : ℕ
  pub requests : List Phase

module _ (h : Host) where
  -- `s.active.Add(1) > maxConcurrentTransfers`
  raise : Request → ℕ → Phase × ℕ
  raise r active =
      if ltb max_concurrent_transfers (active + 1)
      then (rejecting r, active + 1)
      else (transferring r, active + 1)

  -- One step of one request, from and to a value of the counter.
  unfoldable pub advance : Phase → ℕ → Phase × ℕ
  unfolding raise
  advance (arrived r) active = elim (check_blob h r) [
    | inl code ↦ (answered r (status code), active)
    | inr claims ↦ raise r active
  ]
  advance (rejecting r) active = (answered r (status 503), active - 1)
  advance (transferring r) active = (answered r (serve_blob h r), active - 1)
  advance (answered r response) active = (answered r response, active)

  unfoldable pub advance_at : ℕ → List Phase → ℕ → List Phase × ℕ
  advance_at i [] active = ([], active)
  advance_at zero (p ∷ ps) active = let (q, active') = advance p active in (q ∷ ps, active')
  advance_at (suc i) (p ∷ ps) active =
      let (qs, active') = advance_at i ps active in (p ∷ qs, active')

  -- The request at a place makes a step.
  unfoldable pub step : Server → ℕ → Server
  step s i =
      let (requests, active) = advance_at i s.requests s.active in
      record { active = active; requests = requests }

-- A schedule names the request of each step, and the state of the host (its clock, its secret and its
-- files) at that step.
unfoldable pub run : Server → List (Host × ℕ) → Server
run s [] = s
run s ((h, i) ∷ schedule) = run (step h s i) schedule

abbrev pub all_arrived : List Request → List Phase
all_arrived [] = []
all_arrived (r ∷ rs) = arrived r ∷ all_arrived rs

-- A server before its first request, and the requests that are to come.
abbrev pub start : List Request → Server
start rs = record { active = 0; requests = all_arrived rs }
