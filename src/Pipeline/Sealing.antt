-- ===== src/Pipeline/Sealing.antt =====
-- internal/pipeline/crypto.go: payloads between two machines, over abstract cryptography.
pub mod RoundTrip
use mantlerd.Base.{ℕ, Bool, true, false, String, Option, none, some, ◌==◌, not, if◌then◌else◌}

-- Base64, X25519, HKDF with SHA-256 and the info of a stage, and AES-GCM, as their packages give them.
pub record Crypto : Type 1 where
  pub Bytes : Type 0
  pub Public : Type 0
  pub Private : Type 0
  pub Secret : Type 0
  pub Key : Type 0
  pub Gcm : Type 0
  pub decode : String → Option Bytes
  pub encode : Bytes → String
  pub size : Bytes → ℕ
  pub public_of : Bytes → Option Public
  pub public_bytes : Public → Bytes
  pub private_of : Bytes → Option Private
  pub public_key : Private → Public
  pub ecdh : Private → Public → Option Secret
  pub hkdf : Secret → String → Option Key
  pub gcm : Key → Option Gcm
  pub seal : Gcm → Bytes → Bytes → Bytes
  pub open_sealed : Gcm → Bytes → Bytes → Option Bytes

pub data SealError : Type 0 where
  invalid_encrypted_payload invalid_nonce invalid_ephemeral_public_key invalid_private_key :
      SealError
  invalid_target_public_key ephemeral_key_failed ecdh_failed hkdf_failed cipher_failed : SealError
  nonce_failed decrypt_failed : SealError

pub data Result {ℓ} (A : Type ℓ) : Type ℓ where
  ok : A → Result A
  err : SealError → Result A

-- `if err != nil { return ... }`
abbrev pub need {ℓ} : {A B : Type ℓ} → Option A → SealError → (A → Result B) → Result B
need none e k = err e
need (some a) e k = k a

pub record Sealed : Type 0 where
  pub encrypted_payload : String
  pub nonce : String
  pub ephemeral_public_key : String

module _ (c : Crypto) where
  unfoldable pub decrypt_stage_payload :
      String → String → String → String → c.Bytes → Result c.Bytes
  decrypt_stage_payload encrypted_payload nonce sender_public_key request_id receiver_private_key =
      need (c.decode encrypted_payload) invalid_encrypted_payload λ ciphertext.
        need (c.decode nonce) invalid_nonce λ nonce_raw.
          if not (c.size nonce_raw == 12)
          then err invalid_nonce
          else need (c.decode sender_public_key) invalid_ephemeral_public_key λ sender_key_raw.
            need (c.private_of receiver_private_key) invalid_private_key λ receiver_key.
              need (c.public_of sender_key_raw) invalid_ephemeral_public_key λ sender_key.
                need (c.ecdh receiver_key sender_key) ecdh_failed λ shared_secret.
                  need (c.hkdf shared_secret request_id) hkdf_failed λ key.
                    need (c.gcm key) cipher_failed λ aead.
                      need (c.open_sealed aead nonce_raw ciphertext) decrypt_failed
                        λ plaintext. ok plaintext

  -- With the key and the nonce that package rand gives, where it does.
  unfoldable pub encrypt_stage_payload :
      c.Bytes → String → String → Option c.Private → Option c.Bytes → Result Sealed
  encrypt_stage_payload plaintext request_id target_public_key fresh_key fresh_nonce =
      need (c.decode target_public_key) invalid_target_public_key λ target_key_raw.
        need (c.public_of target_key_raw) invalid_target_public_key λ target_key.
          need fresh_key ephemeral_key_failed λ ephemeral_key.
            need (c.ecdh ephemeral_key target_key) ecdh_failed λ shared_secret.
              need (c.hkdf shared_secret request_id) hkdf_failed λ key.
                need (c.gcm key) cipher_failed λ aead. need fresh_nonce nonce_failed λ nonce_raw.
                  ok (record {
                    encrypted_payload = c.encode (c.seal aead nonce_raw plaintext);
                    nonce = c.encode nonce_raw;
                    ephemeral_public_key = c.encode (c.public_bytes (c.public_key ephemeral_key));
                  })
