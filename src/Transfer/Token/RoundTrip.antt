-- ===== src/Transfer/Token/RoundTrip.antt =====
-- A token that CreateToken has made is accepted where and while it is meant to be.
use Prim.Native.String.{◌++◌ as concat}
use text.Mathlib.TextLemmas.{nil-append, cons-append}
use mantlerd.Base.{
  ℕ, ◌+◌, ◌≤◌, ◌≡◌, refl, ap, ◌∙◌, subst, ◌≢◌, false, String, [], ◌∷◌, Option, none, some, arith,
  str_eq, str_eq_refl, split, Lacks, split-append, split_of_Lacks,
}
use mantlerd.Transfer.Token.{
  TokenClaims, Result, ok, err, Codec, IsCodec, token_version, token_ttl, dotted, compute_hmac,
  signed, create_token, check_claims, parse_claims, verify_parts, verify_token,
}

pub split-dotted : (a b : String) → Lacks "." a → split "." (dotted a b) ≡ a ∷ split "." b
split-dotted a b h =
    ap (λ t. split "." (concat a t)) (cons-append "." "" b ∙ ap (String.◌∷◌ ".") (nil-append b))
    ∙ split-append "." a b h

module _ (k : Codec) (laws : IsCodec k) (secret : String) (named : str_eq secret "" ≡ false) where
  mac-Lacks : (message : String) → Lacks "." (compute_hmac k secret message)
  unfolding compute_hmac
  mac-Lacks message = laws.encode-Lacks (k.mac secret message)

  check_claims_fresh :
      (claims : TokenClaims) (later : ℕ)
      → later ≤ claims.expires_at
      → check_claims k later claims.served_machine_id claims ≡ ok claims
  unfolding check_claims
  check_claims_fresh claims later h =
      let same = str_eq_refl claims.served_machine_id in ground arith

  verify_parts_of_signature :
      (claims : TokenClaims) (payload : String) (later : ℕ)
      → k.marshal claims ≡ some payload
      → later ≤ claims.expires_at
      → verify_parts k secret later claims.served_machine_id (
          token_version
          ∷ k.encode payload
          ∷ compute_hmac k secret (dotted token_version (k.encode payload))
          ∷ [])
        ≡ ok claims
  unfolding verify_parts parse_claims
  verify_parts_of_signature claims payload later e h =
      rw
        (
          str_eq_refl (compute_hmac k secret (dotted token_version (k.encode payload))),
          laws.decode-encode payload,
          parse_claims,
          laws.unmarshal-marshal claims payload e,
        )
        (check_claims_fresh claims later h)

  signed-none : {token : String} → signed k secret none ≢ ok token
  unfolding signed
  signed-none e = cc

  token_of : Result String → String
  token_of (ok t) = t
  token_of (err e) = ""

  signed-some :
      (payload : String) {token : String}
      → signed k secret (some payload) ≡ ok token
      → dotted token_version (
          dotted
            (k.encode payload)
            (compute_hmac k secret (dotted token_version (k.encode payload))))
        ≡ token
  unfolding signed token_of
  signed-some payload e = ap token_of e

  verify-signed :
      (claims : TokenClaims) (payload : String) (later : ℕ)
      → k.marshal claims ≡ some payload
      → later ≤ claims.expires_at
      → let encoded = k.encode payload in
        verify_token k secret
          (dotted token_version
            (dotted encoded (compute_hmac k secret (dotted token_version encoded))))
          claims.served_machine_id
          later
        ≡ ok claims
  unfolding verify_token
  verify-signed claims payload later e h = rw named (rw parts accepted)
    where
      encoded : String
      encoded = k.encode payload

      sig : String
      sig = compute_hmac k secret (dotted token_version encoded)

      parts :
          split "." (dotted token_version (dotted encoded sig)) ≡ token_version ∷ encoded ∷ sig ∷ []
      parts =
          split-dotted token_version (dotted encoded sig) (refl, (refl, tt))
          ∙ ap (λ l. token_version ∷ l)
              (split-dotted encoded sig (laws.encode-Lacks payload)
                ∙ ap (λ l. encoded ∷ l)
                    (split_of_Lacks "." sig (mac-Lacks (dotted token_version encoded))))

      accepted :
          verify_parts k secret later claims.served_machine_id (token_version ∷ encoded ∷ sig ∷ [])
          ≡ ok claims
      accepted = verify_parts_of_signature claims payload later e h

  -- A token that CreateToken returns is accepted under the same secret by the machine that is to serve,
  -- until its 15 minutes are over, and gives back the claims with which it was made.
  pub verify-create :
      (requester served model_id runtime token : String) (now later : ℕ)
      → create_token k secret requester served model_id runtime now ≡ ok token
      → later ≤ now + token_ttl
      → verify_token k secret token served later
        ≡ ok (record {
          requester_machine_id = requester;
          served_machine_id = served;
          model_id = model_id;
          runtime = runtime;
          issued_at = now;
          expires_at = now + token_ttl;
        })
  unfolding create_token
  verify-create requester served model_id runtime token now later made h =
      go (k.marshal claims) refl (rw named at made)
    where
      claims : TokenClaims
      claims = record {
        requester_machine_id = requester;
        served_machine_id = served;
        model_id = model_id;
        runtime = runtime;
        issued_at = now;
        expires_at = now + token_ttl;
      }

      go :
          (p : Option String)
          → k.marshal claims ≡ p
          → signed k secret p ≡ ok token
          → verify_token k secret token served later ≡ ok claims
      go none e q = absurd (signed-none q)
      go (some payload) e q =
          subst (λ t. verify_token k secret t served later ≡ ok claims) (signed-some payload q)
            (verify-signed claims payload later e h)
