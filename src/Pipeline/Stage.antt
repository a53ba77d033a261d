-- ===== src/Pipeline/Stage.antt =====
-- internal/pipeline/handler.go, infer.go and compress.go: the two stages. The runtime that is called, JSON, the
-- signatures, the clock and package rand are parameters; `W` is the state of the machine.
pub mod Trusted
use mantlerd.Base.{
  ℕ, ◌/◌, Bool, true, false, ◌||◌, not, String, List, [], ◌∷◌, Option, none, some, ◌==◌, str_eq,
  trim_space, if◌then◌else◌,
}
use mantlerd.Pipeline.Sealing.{
  Crypto, SealError, Result, ok, err, Sealed, decrypt_stage_payload, encrypt_stage_payload,
}
use mantlerd.Pipeline.Signing.{Ints, StageIntegrity, serialize_integrity_for_signing}
use mantlerd.Pipeline.Value.{
  Value, boolean, text, array, object, no_item, item, Members, no_member, member, Digest,
  hash_canonical_json,
}
use mantlerd.Pipeline.Context.{
  is_compressed_context, resolve_model_id, resolve_runtime_name, build_infer_system_prompt,
  infer_latest_intent, message, compress_request, compress_answer,
}

pub data StageError : Type 0 where
  stage_keys_unavailable missing_stage_kind invalid_payload_json unsupported_stage_kind : StageError
  compression_contract_violation missing_continuation : StageError
  stage_integrity_missing stage_integrity_mismatch infer_output_hash_failed : StageError
  sealing_failed : SealError → StageError
  runtime_failed : String → StageError

-- What ed25519.Verify does; it panics at a key of a wrong length.
pub data Verdict : Type 0 where
  valid invalid panics : Verdict

pub record StageEnvelope (ints : Ints) : Type 0 where
  pub request_id : String
  pub stage_id : String
  pub stage_kind : String
  pub encrypted_payload : String
  pub nonce : String
  pub ephemeral_public_key : String
  pub prior_stage_signing_key : String
  pub prior_integrity : Option (StageIntegrity ints)
  -- the next target's encryption key, where there is a continuation
  pub continuation : Option String

-- What a stage gives: an error, a panic, or its reply. The reply of `compress` has the sealed payload, that of `infer` the
-- runtime's answer.
pub data Reply (ints : Ints) : Type 0 where
  stage_error : StageError → Reply ints
  panicked : Reply ints
  compressed : Sealed → StageIntegrity ints → Reply ints
  inferred : Members → StageIntegrity ints → Reply ints

pub record Machine (W : Type 0) : Type 1 where
  pub ints : Ints
  pub crypto : Crypto
  pub digest : Digest
  pub encryption_private_key : crypto.Bytes
  pub signing_private_key : crypto.Bytes
  pub fingerprint : String
  -- json.Unmarshal into a map, and json.Marshal of one
  pub unmarshal : crypto.Bytes → Option Members
  pub marshal : Members → Option crypto.Bytes
  -- signIntegrityPayload and verifyIntegritySignature
  pub sign : String → crypto.Bytes → String
  pub verify : String → String → String → Verdict
  -- callLocalChatCompletion: the answer, or the text of the error
  pub call : String → Value → W → W × (Option Members × String)
  pub unmarshal_text : String → Option Members
  pub int_of : ℕ → ints.Int
  pub elapsed_ms : W → W → ints.Int
  pub now_text : W → String
  pub fresh_key : W → Option crypto.Private
  pub fresh_nonce : W → Option crypto.Bytes

module _ {W : Type 0} (m : Machine W) where
  unfoldable pub build_integrity :
      StageEnvelope m.ints
      → String
      → String
      → String
      → String
      → m.ints.Int
      → m.ints.Int
      → W
      → W
      → StageIntegrity m.ints
  build_integrity e model_id runtime_id input_hash output_hash inputs outputs started w =
      let integrity : StageIntegrity m.ints = record {
        stage_id = e.stage_id;
        stage_kind = e.stage_kind;
        contract_version = "1";
        model_id = model_id;
        runtime_id = runtime_id;
        input_hash = input_hash;
        output_hash = output_hash;
        input_tokens = inputs;
        output_tokens = outputs;
        duration_ms = m.elapsed_ms started w;
        timestamp = m.now_text w;
        machine_key_fingerprint = m.fingerprint;
        signature = "";
      } in
      record integrity {
        signature = m.sign (serialize_integrity_for_signing m.ints integrity) m.signing_private_key;
      }

  abbrev pub size_tokens : Option m.crypto.Bytes → m.ints.Int
  size_tokens none = m.int_of 0
  size_tokens (some raw) = m.int_of (m.crypto.size raw / 4)

  unfoldable pub estimate_tokens : Members → m.ints.Int
  estimate_tokens input = size_tokens (m.marshal input)

  unfoldable pub infer_request : Members → Value
  infer_request input = object (
      member "model" (text (resolve_model_id input)) (
        member "messages"
          (array (
            item (message "system" (build_infer_system_prompt input))
              (item (message "user" (infer_latest_intent input)) no_item)))
          (member "stream" (boolean false) no_member)))

  abbrev pub infer_reply :
      StageEnvelope m.ints → Members → String → Members → Option String → W → W → Reply m.ints
  infer_reply e input input_hash completion none started w = stage_error infer_output_hash_failed
  infer_reply e input input_hash completion (some output_hash) started w = inferred completion (
      build_integrity e (resolve_model_id input) (resolve_runtime_name input) input_hash output_hash
        (estimate_tokens input) (estimate_tokens completion) started w)

  abbrev pub infer_answer :
      StageEnvelope m.ints → Members → String → W → W × (Option Members × String) → W × Reply m.ints
  infer_answer e input input_hash started (w, (none, failure)) =
      (w, stage_error (runtime_failed failure))
  infer_answer e input input_hash started (w, (some completion, failure)) = (
    w,
    infer_reply e input input_hash completion (hash_canonical_json m.digest (object completion))
        started w,
  )

  unfoldable pub run_infer : StageEnvelope m.ints → Members → String → W → W × Reply m.ints
  run_infer e input input_hash w =
      infer_answer e input input_hash w
        (m.call (resolve_runtime_name input) (infer_request input) w)

  abbrev pub infer_verified :
      Verdict → StageEnvelope m.ints → Members → String → W → W × Reply m.ints
  infer_verified panics e input input_hash w = (w, panicked)
  infer_verified invalid e input input_hash w = (w, stage_error stage_integrity_mismatch)
  infer_verified valid e input input_hash w = run_infer e input input_hash w

  abbrev pub infer_after :
      Option (StageIntegrity m.ints)
      → StageEnvelope m.ints
      → Members
      → String
      → W
      → W × Reply m.ints
  infer_after none e input input_hash w = (w, stage_error stage_integrity_missing)
  infer_after (some prior) e input input_hash w =
      if str_eq e.prior_stage_signing_key ""
      then (w, stage_error stage_integrity_missing)
      else if not (str_eq prior.output_hash input_hash)
      then (w, stage_error stage_integrity_mismatch)
      else infer_verified
          (m.verify (serialize_integrity_for_signing m.ints prior) prior.signature
            e.prior_stage_signing_key)
          e input input_hash w

  unfoldable pub handle_infer : StageEnvelope m.ints → Members → String → W → W × Reply m.ints
  handle_infer e input input_hash w =
      if is_compressed_context input
      then infer_after e.prior_integrity e input input_hash w
      else (w, stage_error compression_contract_violation)

  abbrev pub sealed_reply :
      StageEnvelope m.ints
      → Members
      → String
      → Members
      → String
      → W
      → W
      → Result Sealed
      → Reply m.ints
  sealed_reply e input input_hash context output_hash started w (err x) =
      stage_error (sealing_failed x)
  sealed_reply e input input_hash context output_hash started w (ok sealed) = compressed sealed (
      build_integrity e (resolve_model_id input) (resolve_runtime_name input) input_hash output_hash
        (estimate_tokens input) (estimate_tokens context) started w)

  abbrev pub seal_context :
      StageEnvelope m.ints
      → String
      → Members
      → String
      → Members
      → Option String
      → Option m.crypto.Bytes
      → W
      → W
      → Reply m.ints
  seal_context e next_key input input_hash context (some output_hash) (some payload) started w =
      sealed_reply e input input_hash context output_hash started w (
        encrypt_stage_payload m.crypto payload e.request_id next_key (m.fresh_key w)
          (m.fresh_nonce w))
  seal_context e next_key input input_hash context _ _ started w =
      stage_error compression_contract_violation

  abbrev pub compress_checked :
      StageEnvelope m.ints → String → Members → String → Option Members → W → W → Reply m.ints
  compress_checked e next_key input input_hash none started w =
      stage_error compression_contract_violation
  compress_checked e next_key input input_hash (some context) started w =
      if is_compressed_context context
      then seal_context e next_key input input_hash context
          (hash_canonical_json m.digest (object context)) (m.marshal context) started w
      else stage_error compression_contract_violation

  abbrev pub compress_answered :
      StageEnvelope m.ints
      → String
      → Members
      → String
      → W
      → W × (Option Members × String)
      → W × Reply m.ints
  compress_answered e next_key input input_hash started (w, (none, failure)) =
      (w, stage_error (runtime_failed failure))
  compress_answered e next_key input input_hash started (w, (some response, failure)) = (
    w,
    compress_checked e next_key input input_hash (compress_answer m.unmarshal_text response) started
        w,
  )

  unfoldable pub handle_compress : StageEnvelope m.ints → Members → String → W → W × Reply m.ints
  handle_compress e input input_hash w = elim e.continuation [
    | none ↦ (w, stage_error missing_continuation)
    | some next_key ↦
        compress_answered e next_key input input_hash w
          (m.call (resolve_runtime_name input) (compress_request input) w)
  ]

  abbrev pub handle_hashed : StageEnvelope m.ints → Members → Option String → W → W × Reply m.ints
  handle_hashed e input none w = (w, stage_error invalid_payload_json)
  handle_hashed e input (some input_hash) w =
      if str_eq e.stage_kind "compress"
      then handle_compress e input input_hash w
      else if str_eq e.stage_kind "infer"
      then handle_infer e input input_hash w
      else (w, stage_error unsupported_stage_kind)

  abbrev pub handle_parsed : StageEnvelope m.ints → Option Members → W → W × Reply m.ints
  handle_parsed e none w = (w, stage_error invalid_payload_json)
  handle_parsed e (some input) w =
      handle_hashed e input (hash_canonical_json m.digest (object input)) w

  abbrev pub handle_opened : StageEnvelope m.ints → Result m.crypto.Bytes → W → W × Reply m.ints
  handle_opened e (err x) w = (w, stage_error (sealing_failed x))
  handle_opened e (ok plaintext) w = handle_parsed e (m.unmarshal plaintext) w

  unfoldable pub handle_stage_request : StageEnvelope m.ints → W → W × Reply m.ints
  handle_stage_request e w =
      if m.crypto.size m.encryption_private_key == 0 || m.crypto.size m.signing_private_key == 0
      then (w, stage_error stage_keys_unavailable)
      else if str_eq e.stage_kind ""
      then (w, stage_error missing_stage_kind)
      else handle_opened e
          (decrypt_stage_payload m.crypto e.encrypted_payload e.nonce e.ephemeral_public_key
            e.request_id m.encryption_private_key)
          w
