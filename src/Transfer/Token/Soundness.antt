-- ===== src/Transfer/Token/Soundness.antt =====
-- What an accepted token has established.
use Prim.Native.String.{◌++◌ as concat}
use text.Mathlib.TextLemmas.{nil-append, cons-append}
use mantlerd.Base.{
  ℕ, ◌≤◌, ◌≡◌, refl, sym, ap, ◌∙◌, subst, ◌≢◌, inl, inr, String, List, [], ◌∷◌, Option, none, some,
  arith, str_eq, eq_iff, split, join, join-split, Bool-cases,
}
use mantlerd.Transfer.Token.{
  TokenClaims, ok, err, unparsable, Codec, token_version, dotted, compute_hmac, check_claims,
  parse_claims, verify_parts, verify_token,
}

-- The token has the form t1.<payload>.<signature>, the signature is that of its first two parts under
-- the secret, the payload decodes to the claims, they name the serving machine and are not expired.
pub record IsGenuine (k : Codec) (secret token served : String) (now : ℕ) (claims : TokenClaims)
    : Type 0 where
  pub encoded : String
  pub payload : String
  pub form :
      token
      ≡ dotted token_version (dotted encoded (compute_hmac k secret (dotted token_version encoded)))
  pub decoded : k.decode encoded ≡ some payload
  pub parsed : k.unmarshal payload ≡ some claims
  pub fresh : now ≤ claims.expires_at
  pub served_here : claims.served_machine_id ≡ served

join_three : (a b c : String) → join "." (a ∷ b ∷ c ∷ []) ≡ dotted a (dotted b c)
unfolding join
join_three a b c =
    let tail = λ (x : String). sym (cons-append "." "" x ∙ ap (String.◌∷◌ ".") (nil-append x)) in
    ap (concat a) (ap (String.◌∷◌ ".") (ap (concat b) (tail c)) ∙ tail (dotted b c))

module _ (k : Codec) (secret served : String) (now : ℕ) (claims : TokenClaims) where
  check_claims_ok :
      (c : TokenClaims)
      → check_claims k now served c ≡ ok claims
      → (c ≡ claims) × (now ≤ c.expires_at) × (c.served_machine_id ≡ served)
  unfolding check_claims
  check_claims_ok c h = ground (arith, eq_iff c.served_machine_id served)

  parse_claims_ok :
      (o : Option String)
      → parse_claims k now served o ≡ ok claims
      → (payload : String) × (o ≡ some payload)
        × (k.unmarshal payload ≡ some claims)
        × (now ≤ claims.expires_at)
        × (claims.served_machine_id ≡ served)
  unfolding parse_claims
  parse_claims_ok none h = absurd (cc h)
  parse_claims_ok (some payload) h = go (k.unmarshal payload) refl h
    where
      go :
          (u : Option TokenClaims)
          → k.unmarshal payload ≡ u
          → elim u [ none ↦ err unparsable | some c ↦ check_claims k now served c ] ≡ ok claims
          → (p : String) × (some payload ≡ some p)
            × (k.unmarshal p ≡ some claims)
            × (now ≤ claims.expires_at)
            × (claims.served_machine_id ≡ served)
      go none e q = absurd (cc q)
      go (some c) e q =
          let (same, fresh, here) = check_claims_ok c q in
          (
            payload,
            refl,
            e ∙ ap some same,
            subst (λ (x : TokenClaims). now ≤ x.expires_at) same fresh,
            subst (λ (x : TokenClaims). x.served_machine_id ≡ served) same here,
          )

  verify_three :
      (a b c : String)
      → verify_parts k secret now served (a ∷ b ∷ c ∷ []) ≡ ok claims
      → (a ≡ token_version)
        × (c ≡ compute_hmac k secret (dotted a b))
        × (parse_claims k now served (k.decode b) ≡ ok claims)
  unfolding verify_parts
  verify_three a b c h =
      ground (arith, eq_iff a token_version, eq_iff c (compute_hmac k secret (dotted a b)))

  verify_parts_ok :
      (token : String) (parts : List String)
      → split "." token ≡ parts
      → verify_parts k secret now served parts ≡ ok claims
      → IsGenuine k secret token served now claims
  unfolding verify_parts
  verify_parts_ok token [] e h = absurd (cc h)
  verify_parts_ok token (a ∷ []) e h = absurd (cc h)
  verify_parts_ok token (a ∷ b ∷ []) e h = absurd (cc h)
  verify_parts_ok token (a ∷ b ∷ c ∷ []) e h =
      let (version, sig, parsed) = verify_three a b c h in
      let (payload, decoded, unmarshalled, fresh, here) = parse_claims_ok (k.decode b) parsed in
      record {
        encoded = b;
        payload = payload;
        form =
            sym (join-split "." token)
            ∙ ap (join ".") e
            ∙ join_three a b c
            ∙ ap (λ x. dotted a (dotted b x)) sig
            ∙ ap (λ x. dotted x (dotted b (compute_hmac k secret (dotted x b)))) version;
        decoded = decoded;
        parsed = unmarshalled;
        fresh = fresh;
        served_here = here;
      }
  verify_parts_ok token (a ∷ b ∷ c ∷ d ∷ parts) e h = absurd (cc h)

-- If VerifyToken returns claims, then the secret is not empty and the token is genuine: it consists of
-- the version, a payload and the payload's signature under the secret, the payload decodes to these
-- claims, they name the machine that verifies, and their time of expiry is not past.
pub verify-IsGenuine :
    (k : Codec) (secret token served : String) (now : ℕ) (claims : TokenClaims)
    → verify_token k secret token served now ≡ ok claims
    → (secret ≢ "") × IsGenuine k secret token served now claims
unfolding verify_token
verify-IsGenuine k secret token served now claims h = elim (Bool-cases (str_eq secret "")) [
  | inl e ↦ absurd (cc (rw e at h))
  | inr e ↦ (
    λ q. cc ((eq_iff secret "").1 q),
    verify_parts_ok k secret served now claims token (split "." token) refl (rw e at h),
  )
]
