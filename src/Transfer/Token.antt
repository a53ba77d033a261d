-- ===== src/Transfer/Token.antt =====
-- internal/transfer/token.go: the signed tokens that allow one transfer.
pub mod RoundTrip
pub mod Soundness
use Prim.Native.String.{◌++◌ as concat}
use mantlerd.Base.{
  ℕ, ◌+◌, ◌≡◌, Bool, true, false, String, List, [], ◌∷◌, Option, none, some, ltb, str_eq, split,
  Lacks, if◌then◌else◌,
}

pub record TokenClaims : Type 0 where
  pub requester_machine_id : String
  pub served_machine_id : String
  pub model_id : String
  pub runtime : String
  pub issued_at : ℕ
  pub expires_at : ℕ

pub data TokenError : Type 0 where
  empty_secret malformed_token unsupported_version invalid_signature : TokenError
  undecodable unparsable marshal_failed expired wrong_machine : TokenError

pub data Result {ℓ} (A : Type ℓ) : Type ℓ where
  ok : A → Result A
  err : TokenError → Result A

-- encoding/json at the claims, base64.RawURLEncoding, and HMAC-SHA256 (under a secret, of a message).
pub record Codec : Type 0 where
  pub marshal : TokenClaims → Option String
  pub unmarshal : String → Option TokenClaims
  pub encode : String → String
  pub decode : String → Option String
  pub mac : String → String → String

-- What these document: decoding undoes encoding, and the alphabet of base64 has no dot.
pub record IsCodec (k : Codec) : Type 0 where
  pub unmarshal-marshal :
      (c : TokenClaims) (p : String) → k.marshal c ≡ some p → k.unmarshal p ≡ some c
  pub decode-encode : (p : String) → k.decode (k.encode p) ≡ some p
  pub encode-Lacks : (p : String) → Lacks "." (k.encode p)

abbrev pub token_version : String
token_version = "t1"

-- 15 minutes, in seconds
abbrev pub token_ttl : ℕ
token_ttl = 900

-- a + "." + b
abbrev pub dotted : String → String → String
dotted a b = concat a (concat "." b)

module _ (k : Codec) where
  unfoldable pub compute_hmac : String → String → String
  compute_hmac secret message = k.encode (k.mac secret message)

  unfoldable pub signed : String → Option String → Result String
  signed secret none = err marshal_failed
  signed secret (some payload) =
      let encoded = k.encode payload in
      ok
        (dotted token_version (dotted encoded (compute_hmac secret (dotted token_version encoded))))

  -- `now` is the Unix time of the call, in seconds.
  unfoldable pub create_token : String → String → String → String → String → ℕ → Result String
  create_token secret requester_machine_id served_machine_id model_id runtime now =
      if str_eq secret ""
      then err empty_secret
      else signed secret (
          k.marshal (record {
            requester_machine_id = requester_machine_id;
            served_machine_id = served_machine_id;
            model_id = model_id;
            runtime = runtime;
            issued_at = now;
            expires_at = now + token_ttl;
          }))

  unfoldable pub check_claims : ℕ → String → TokenClaims → Result TokenClaims
  check_claims now served_machine_id claims =
      if ltb claims.expires_at now
      then err expired
      else if str_eq claims.served_machine_id served_machine_id
      then ok claims
      else err wrong_machine

  unfoldable pub parse_claims : ℕ → String → Option String → Result TokenClaims
  parse_claims now served_machine_id none = err undecodable
  parse_claims now served_machine_id (some payload) = elim (k.unmarshal payload) [
    | none ↦ err unparsable
    | some claims ↦ check_claims now served_machine_id claims
  ]

  unfoldable pub verify_parts : String → ℕ → String → List String → Result TokenClaims
  verify_parts secret now served_machine_id (version ∷ encoded ∷ sig ∷ []) =
      if str_eq version token_version
      then (if str_eq sig (compute_hmac secret (dotted version encoded))
          then parse_claims now served_machine_id (k.decode encoded)
          else err invalid_signature)
      else err unsupported_version
  verify_parts secret now served_machine_id _ = err malformed_token

  unfoldable pub verify_token : String → String → String → ℕ → Result TokenClaims
  verify_token secret token served_machine_id now =
      if str_eq secret ""
      then err empty_secret
      else verify_parts secret now served_machine_id (split "." token)
