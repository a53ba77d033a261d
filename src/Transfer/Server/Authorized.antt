-- ===== src/Transfer/Server/Authorized.antt =====
-- Whom the server serves.
use mantlerd.Base.{
  ℕ, zero, suc, ◌+◌, ◌≡◌, refl, ◌≢◌, ◌⊎◌, inl, inr, true, false, String, List, [], ◌∷◌, Memᴰ, arith,
  All, All-of_Memᴰ, map, ltb, str_eq, eq_iff, trim_space, trim_prefix, Bool-cases,
}
use mantlerd.Transfer.Token
use mantlerd.Transfer.Token.{TokenClaims, verify_token}
use mantlerd.Transfer.Token.Soundness.{IsGenuine, verify-IsGenuine}
use mantlerd.Transfer.Server.{
  Host, Request, Response, status, tar_of, file_of, Auth, granted, refused, Phase, arrived,
  rejecting, transferring, answered, Server, check_model, verify_request, check_blob, serve_blob,
  raise, advance, advance_at, step, run, all_arrived, start, max_concurrent_transfers,
}

-- The bearer token of a request.
abbrev pub token_of : Request → String
token_of r = trim_prefix (trim_space r.authorization) "Bearer "

-- The request's token is genuine on the host, and was issued for the model that is asked for.
pub record IsGranted (h : Host) (r : Request) : Type 0 where
  pub claims : TokenClaims
  pub genuine : IsGenuine h.codec h.secret (token_of r) h.machine_id h.now claims
  pub is_get : r.method ≡ "GET"
  pub named : trim_space r.model ≢ ""
  pub for_model : claims.model_id ≡ trim_space r.model

module _ (h : Host) where
  check_model_granted :
      (model_id : String) (v : Token.Result TokenClaims) (claims : TokenClaims)
      → model_id ≢ ""
      → check_model h model_id v ≡ granted claims
      → (v ≡ Token.ok claims) × (claims.model_id ≡ model_id)
  unfolding check_model
  check_model_granted model_id (Token.err e) claims n k = absurd (cc k)
  check_model_granted model_id (Token.ok c) claims n k =
      ground (arith, eq_iff model_id "", eq_iff c.model_id model_id)

  verify_request_granted :
      (r : Request) (model_id : String) (claims : TokenClaims)
      → model_id ≢ ""
      → verify_request h r model_id ≡ granted claims
      → (verify_token h.codec h.secret (token_of r) h.machine_id h.now ≡ Token.ok claims)
        × (claims.model_id ≡ model_id)
  unfolding verify_request
  verify_request_granted r model_id claims n k = ground (
    arith,
    check_model_granted model_id (verify_token h.codec h.secret (token_of r) h.machine_id h.now)
        claims n,
  )

  check_blob-IsGranted :
      (r : Request) (claims : TokenClaims) → check_blob h r ≡ inr claims → IsGranted h r
  unfolding check_blob
  check_blob-IsGranted r claims k = elim (Bool-cases (str_eq r.method "GET")) [
    | inr other ↦ absurd (cc (rw other at k))
    | inl get ↦ elim (Bool-cases (str_eq (trim_space r.model) "")) [
      | inl blank ↦ absurd (cc (rw (get, blank) at k))
      | inr named ↦ verified get named (rw (get, named) at k)
    ]
  ]
    where
      verdict : Auth → ℕ ⊎ TokenClaims
      verdict v = elim v [ refused e ↦ inl 401 | granted c ↦ inr c ]

      granted_as : (v : Auth) → verdict v ≡ inr claims → v ≡ granted claims
      granted_as (refused e) q = absurd (cc q)
      granted_as (granted c) q = cc q

      verified :
          str_eq r.method "GET" ≡ true
          → str_eq (trim_space r.model) "" ≡ false
          → verdict (verify_request h r (trim_space r.model)) ≡ inr claims
          → IsGranted h r
      verified get named q =
          let n : trim_space r.model ≢ "" = λ e. cc ((eq_iff _ _).1 e) in
          let (valid, model) =
            verify_request_granted r (trim_space r.model) claims n (granted_as _ q) in
          record {
            claims = claims;
            genuine =
                (verify-IsGenuine h.codec h.secret (token_of r) h.machine_id h.now claims valid).1;
            is_get = (eq_iff r.method "GET").0 get;
            named = n;
            for_model = model;
          }

-- In a phase that only an authorised request can reach, the request was granted on a host of `P`.
abbrev pub OnGrant : (Host → Type 0) → Phase → Type 0
OnGrant P (arrived r) = Unit
OnGrant P (rejecting r) = (h : Host) × P h × IsGranted h r
OnGrant P (transferring r) = (h : Host) × P h × IsGranted h r
OnGrant P (answered r (status code)) = Unit
OnGrant P (answered r (tar_of path)) = (h : Host) × P h × IsGranted h r
OnGrant P (answered r (file_of path digest)) = (h : Host) × P h × IsGranted h r

module _ (P : Host → Type 0) where
  answered-OnGrant :
      (r : Request) (response : Response)
      → ((h : Host) × P h × IsGranted h r)
      → OnGrant P (answered r response)
  answered-OnGrant r (status code) g = tt
  answered-OnGrant r (tar_of path) g = g
  answered-OnGrant r (file_of path digest) g = g

  raise-OnGrant :
      (h : Host) (r : Request) (active : ℕ)
      → ((g : Host) × P g × IsGranted g r)
      → OnGrant P (raise h r active).0
  unfolding raise
  raise-OnGrant h r active g = elim (Bool-cases (ltb max_concurrent_transfers (active + 1))) [
    | inl over ↦ rw over g
    | inr under ↦ rw under g
  ]

  advance-OnGrant :
      (h : Host) (p : Phase) (active : ℕ) → P h → OnGrant P p → OnGrant P (advance h p active).0
  unfolding advance
  advance-OnGrant h (arrived r) active k g = go (check_blob h r) refl
    where
      go :
          (v : ℕ ⊎ TokenClaims)
          → check_blob h r ≡ v
          → OnGrant P
              (elim v as (λ _. Phase × ℕ) [
                | inl code ↦ (answered r (status code), active)
                | inr claims ↦ raise h r active
              ]).0
      go (inl code) e = tt
      go (inr claims) e = raise-OnGrant h r active (h, k, check_blob-IsGranted h r claims e)
  advance-OnGrant h (rejecting r) active k g = tt
  advance-OnGrant h (transferring r) active k g = answered-OnGrant r (serve_blob h r) g
  advance-OnGrant h (answered r response) active k g = g

  advance_at-OnGrant :
      (h : Host) (i : ℕ) (ps : List Phase) (active : ℕ)
      → P h
      → All (OnGrant P) ps
      → All (OnGrant P) (advance_at h i ps active).0
  unfolding advance_at
  advance_at-OnGrant h i [] active k g = tt
  advance_at-OnGrant h zero (p ∷ ps) active k g = (advance-OnGrant h p active k g.0, g.1)
  advance_at-OnGrant h (suc i) (p ∷ ps) active k g = (g.0, advance_at-OnGrant h i ps active k g.1)

  run-OnGrant :
      (s : Server) (schedule : List (Host × ℕ))
      → All (λ e. P e.0) schedule
      → All (OnGrant P) s.requests
      → All (OnGrant P) (run s schedule).requests
  unfolding run step
  run-OnGrant s [] k g = g
  run-OnGrant s ((h, i) ∷ schedule) k g =
      run-OnGrant (step h s i) schedule k.1 (advance_at-OnGrant h i s.requests s.active k.0 g)

  start-OnGrant : (rs : List Request) → All (OnGrant P) (all_arrived rs)
  start-OnGrant [] = tt
  start-OnGrant (r ∷ rs) = (tt, start-OnGrant rs)

abbrev pub hosts : List (Host × ℕ) → List Host
hosts = map λ e. e.0

All-map : (Q : Host → Type 0) (l : List (Host × ℕ)) → All Q (hosts l) → All (λ e. Q e.0) l
All-map Q [] a = tt
All-map Q ((h, i) ∷ l) a = (a.0, All-map Q l a.1)

-- However the requests are interleaved, a request is being transferred, or has been answered with a file
-- or a directory, only if it was a GET with a model and bore a token that was genuine for this machine
-- and this model on the host as it was at some step of the schedule.
pub run-start-OnGrant :
    (rs : List Request) (schedule : List (Host × ℕ))
    → All (OnGrant (λ h. Memᴰ h (hosts schedule))) (run (start rs) schedule).requests
run-start-OnGrant rs schedule =
    let P : Host → Type 0 = λ h. Memᴰ h (hosts schedule) in
    run-OnGrant P (start rs) schedule
      (All-map P schedule (All-of_Memᴰ P (hosts schedule) (λ h m. m))) (start-OnGrant P rs)
