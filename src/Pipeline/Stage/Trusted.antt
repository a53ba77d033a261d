-- ===== src/Pipeline/Stage/Trusted.antt =====
-- When the stage `infer` calls the runtime.
use mantlerd.Base.{
  ◌≡◌, refl, ap, ◌⊎◌, inl, inr, true, ◌||◌, not, String, Option, none, some, arith, ◌==◌, str_eq,
  eq_iff, if-holds,
}
use mantlerd.Pipeline.Sealing.{Result, ok, err, decrypt_stage_payload}
use mantlerd.Pipeline.Signing.{StageIntegrity, serialize_integrity_for_signing}
use mantlerd.Pipeline.Value.{object, Members, hash_canonical_json}
use mantlerd.Pipeline.Context.{is_compressed_context}
use mantlerd.Pipeline.Stage.{
  StageError, Verdict, valid, invalid, panics, StageEnvelope, Reply, stage_error, panicked, Machine,
  sealing_failed, stage_keys_unavailable, missing_stage_kind, invalid_payload_json,
  compression_contract_violation, stage_integrity_missing, stage_integrity_mismatch, run_infer,
  infer_verified, infer_after, handle_infer, handle_hashed, handle_parsed, handle_opened,
  handle_stage_request,
}

module _ {W : Type 0} (m : Machine W) where
  -- The input of a request, which another machine's result vouches for.
  pub record IsTrusted (e : StageEnvelope m.ints) (input : Members) (input_hash : String)
      : Type 0 where
    pub plaintext : m.crypto.Bytes
    pub opened :
        decrypt_stage_payload m.crypto e.encrypted_payload e.nonce e.ephemeral_public_key
          e.request_id m.encryption_private_key
        ≡ ok plaintext
    pub read : m.unmarshal plaintext ≡ some input
    pub hashed : hash_canonical_json m.digest (object input) ≡ some input_hash
    pub in_contract : is_compressed_context input ≡ true
    pub prior : StageIntegrity m.ints
    pub given : e.prior_integrity ≡ some prior
    pub same_hash : prior.output_hash ≡ input_hash
    pub verified :
        m.verify
          (serialize_integrity_for_signing m.ints prior)
          prior.signature
          e.prior_stage_signing_key
        ≡ valid

  -- The request is refused before anything is called, or the runtime is called on trusted input.
  abbrev pub Guarded : StageEnvelope m.ints → W → W × Reply m.ints → Type 0
  Guarded e w r =
      (r ≡ (w, panicked))
      ⊎ ((x : StageError) × (r ≡ (w, stage_error x)))
      ⊎ ((input : Members) × (input_hash : String) × IsTrusted e input input_hash
          × (r ≡ run_infer m e input input_hash w))

  refuse : (e : StageEnvelope m.ints) (w : W) (x : StageError) → Guarded e w (w, stage_error x)
  refuse e w x = inr (inl (x, refl))

  module _ (e : StageEnvelope m.ints) (w : W) where
    module _ (plaintext : m.crypto.Bytes) (input : Members) (input_hash : String)
        (opened : decrypt_stage_payload m.crypto e.encrypted_payload e.nonce e.ephemeral_public_key
            e.request_id m.encryption_private_key
          ≡ ok plaintext)
        (read : m.unmarshal plaintext ≡ some input)
        (hashed : hash_canonical_json m.digest (object input) ≡ some input_hash)
        (in_contract : is_compressed_context input ≡ true) where
      verified-Guarded :
          (prior : StageIntegrity m.ints) (v : Verdict)
          → e.prior_integrity ≡ some prior
          → prior.output_hash ≡ input_hash
          → m.verify
              (serialize_integrity_for_signing m.ints prior)
              prior.signature
              e.prior_stage_signing_key
            ≡ v
          → Guarded e w (infer_verified m v e input input_hash w)
      verified-Guarded prior panics given same v = inl refl
      verified-Guarded prior invalid given same v = refuse e w stage_integrity_mismatch
      verified-Guarded prior valid given same v = inr (
          inr (
            input,
            input_hash,
            record {
              plaintext = plaintext;
              opened = opened;
              read = read;
              hashed = hashed;
              in_contract = in_contract;
              prior = prior;
              given = given;
              same_hash = same;
              verified = v;
            },
            refl,
          ))

      after-Guarded :
          (o : Option (StageIntegrity m.ints))
          → e.prior_integrity ≡ o
          → Guarded e w (infer_after m o e input input_hash w)
      after-Guarded none given = refuse e w stage_integrity_missing
      after-Guarded (some prior) given =
          if-holds (Guarded e w) (str_eq e.prior_stage_signing_key "")
            (λ k. refuse e w stage_integrity_missing)
            (λ k.
              if-holds (Guarded e w) (not (str_eq prior.output_hash input_hash))
                (λ n. refuse e w stage_integrity_mismatch)
                (λ n.
                  verified-Guarded prior _ given
                    ((eq_iff prior.output_hash input_hash).0 (ground (arith, n))) refl))

    infer-Guarded :
        (plaintext : m.crypto.Bytes) (input : Members) (input_hash : String)
        → decrypt_stage_payload m.crypto e.encrypted_payload e.nonce e.ephemeral_public_key
            e.request_id m.encryption_private_key
          ≡ ok plaintext
        → m.unmarshal plaintext ≡ some input
        → hash_canonical_json m.digest (object input) ≡ some input_hash
        → Guarded e w (handle_infer m e input input_hash w)
    unfolding handle_infer
    infer-Guarded plaintext input input_hash opened read hashed =
        if-holds (Guarded e w) (is_compressed_context input)
          (λ c.
            after-Guarded plaintext input input_hash opened read hashed c e.prior_integrity refl)
          (λ c. refuse e w compression_contract_violation)

    hashed-Guarded :
        (plaintext : m.crypto.Bytes) (input : Members) (h : Option String)
        → e.stage_kind ≡ "infer"
        → decrypt_stage_payload m.crypto e.encrypted_payload e.nonce e.ephemeral_public_key
            e.request_id m.encryption_private_key
          ≡ ok plaintext
        → m.unmarshal plaintext ≡ some input
        → hash_canonical_json m.digest (object input) ≡ h
        → Guarded e w (handle_hashed m e input h w)
    hashed-Guarded plaintext input none kind opened read hashed = refuse e w invalid_payload_json
    hashed-Guarded plaintext input (some input_hash) kind opened read hashed =
        let other = ap (λ s. str_eq s "compress") kind in
        let this = ap (λ s. str_eq s "infer") kind in
        if-holds (Guarded e w) (str_eq e.stage_kind "compress")
          (λ k. absurd (ground (arith, k, other)))
          (λ k.
            if-holds (Guarded e w) (str_eq e.stage_kind "infer")
              (λ l. infer-Guarded plaintext input input_hash opened read hashed)
              (λ l. absurd (ground (arith, l, this))))

    parsed-Guarded :
        (plaintext : m.crypto.Bytes) (o : Option Members)
        → e.stage_kind ≡ "infer"
        → decrypt_stage_payload m.crypto e.encrypted_payload e.nonce e.ephemeral_public_key
            e.request_id m.encryption_private_key
          ≡ ok plaintext
        → m.unmarshal plaintext ≡ o
        → Guarded e w (handle_parsed m e o w)
    parsed-Guarded plaintext none kind opened read = refuse e w invalid_payload_json
    parsed-Guarded plaintext (some input) kind opened read =
        hashed-Guarded plaintext input _ kind opened read refl

    opened-Guarded :
        (r : Result m.crypto.Bytes)
        → e.stage_kind ≡ "infer"
        → decrypt_stage_payload m.crypto e.encrypted_payload e.nonce e.ephemeral_public_key
            e.request_id m.encryption_private_key
          ≡ r
        → Guarded e w (handle_opened m e r w)
    opened-Guarded (err x) kind opened = refuse e w (sealing_failed x)
    opened-Guarded (ok plaintext) kind opened = parsed-Guarded plaintext _ kind opened refl

  -- A request for the stage `infer` is refused before anything is called, or the runtime is called with an input
  -- that the payload opens to and that satisfies the contract of a compressed context, and whose hash is
  -- the output's hash in a result of a prior stage, with a signature that verifies under the key that the
  -- request names.
  pub handle_stage_request-Guarded :
      (e : StageEnvelope m.ints) (w : W)
      → e.stage_kind ≡ "infer"
      → Guarded e w (handle_stage_request m e w)
  unfolding handle_stage_request
  handle_stage_request-Guarded e w kind =
      if-holds (Guarded e w)
        (m.crypto.size m.encryption_private_key == 0 || m.crypto.size m.signing_private_key == 0)
        (λ k. refuse e w stage_keys_unavailable)
        (λ k.
          if-holds (Guarded e w) (str_eq e.stage_kind "") (λ s. refuse e w missing_stage_kind)
            (λ s. opened-Guarded e w _ kind refl))
