-- ===== src/Pipeline/Sealing/RoundTrip.antt =====
-- Opening what was sealed.
use mantlerd.Base.{◌≡◌, refl, subst, String, Option, none, some}
use mantlerd.Pipeline.Sealing.{
  Crypto, SealError, ephemeral_key_failed, ecdh_failed, hkdf_failed, cipher_failed, Result, ok,
  need, Sealed, decrypt_stage_payload, encrypt_stage_payload,
}

-- What the packages document: decoding undoes encoding, a public key is read from its bytes, both sides
-- of an exchange come to one secret, and opening undoes sealing.
pub record IsCrypto (c : Crypto) : Type 0 where
  pub decode-encode : (b : c.Bytes) → c.decode (c.encode b) ≡ some b
  pub public_of-public_bytes : (p : c.Public) → c.public_of (c.public_bytes p) ≡ some p
  pub ecdh_comm : (a b : c.Private) → c.ecdh a (c.public_key b) ≡ c.ecdh b (c.public_key a)
  pub open_sealed-seal :
      (g : c.Gcm) (nonce plaintext : c.Bytes)
      → c.open_sealed g nonce (c.seal g nonce plaintext) ≡ some plaintext

need_ok {ℓ} :
    {A B : Type ℓ} (o : Option A) (e : SealError) (k : A → Result B) (b : B)
    → need o e k ≡ ok b
    → (a : A) × (o ≡ some a) × (k a ≡ ok b)
need_ok none e k b h = absurd (cc h)
need_ok (some a) e k b h = (a, refl, h)

module _ (c : Crypto) (laws : IsCrypto c) where
  decrypt_opened :
      (plaintext nonce receiver_bytes : c.Bytes) (request_id : String)
      (ephemeral receiver : c.Private) (secret : c.Secret) (k : c.Key) (g : c.Gcm)
      → c.size nonce ≡ 12
      → c.private_of receiver_bytes ≡ some receiver
      → c.ecdh ephemeral (c.public_key receiver) ≡ some secret
      → c.hkdf secret request_id ≡ some k
      → c.gcm k ≡ some g
      → decrypt_stage_payload c
          (c.encode (c.seal g nonce plaintext))
          (c.encode nonce)
          (c.encode (c.public_bytes (c.public_key ephemeral)))
          request_id
          receiver_bytes
        ≡ ok plaintext
  unfolding decrypt_stage_payload
  decrypt_opened plaintext nonce receiver_bytes request_id ephemeral receiver secret k g sized
        private shared derived made =
      let public = c.public_key ephemeral in
      rw
        (
          laws.decode-encode (c.seal g nonce plaintext),
          laws.decode-encode nonce,
          sized,
          laws.decode-encode (c.public_bytes public),
          private,
          laws.public_of-public_bytes public,
          laws.ecdh_comm receiver ephemeral,
          shared,
          derived,
          made,
          laws.open_sealed-seal g nonce plaintext,
        )
        refl

  -- What encryptStagePayload sealed for a target is opened by decryptStagePayload with the target's
  -- private key, under the same request ID, if the nonce has 12 bytes.
  pub decrypt-encrypt :
      (plaintext : c.Bytes) (request_id : String) (fresh_key : Option c.Private) (nonce : c.Bytes)
      (receiver : c.Private) (receiver_bytes : c.Bytes) (sealed : Sealed)
      → encrypt_stage_payload c plaintext request_id
          (c.encode (c.public_bytes (c.public_key receiver)))
          fresh_key
          (some nonce)
        ≡ ok sealed
      → c.size nonce ≡ 12
      → c.private_of receiver_bytes ≡ some receiver
      → decrypt_stage_payload c sealed.encrypted_payload sealed.nonce sealed.ephemeral_public_key
          request_id receiver_bytes
        ≡ ok plaintext
  unfolding encrypt_stage_payload
  decrypt-encrypt plaintext request_id fresh_key nonce receiver receiver_bytes sealed h sized
        private =
      let public = c.public_key receiver in
      from_key fresh_key
        (rw (laws.decode-encode (c.public_bytes public), laws.public_of-public_bytes public) at h)
    where
      result : c.Gcm → c.Private → Sealed
      result g ephemeral = record {
        encrypted_payload = c.encode (c.seal g nonce plaintext);
        nonce = c.encode nonce;
        ephemeral_public_key = c.encode (c.public_bytes (c.public_key ephemeral));
      }

      opens : Sealed → Type 0
      opens s =
          decrypt_stage_payload c s.encrypted_payload s.nonce s.ephemeral_public_key request_id
            receiver_bytes
          ≡ ok plaintext

      from_key :
          (o : Option c.Private)
          → (need o ephemeral_key_failed λ e.
              need (c.ecdh e (c.public_key receiver)) ecdh_failed λ secret.
                need
                  (c.hkdf secret request_id)
                  hkdf_failed
                  λ k. need (c.gcm k) cipher_failed λ g. ok (result g e))
            ≡ ok sealed
          → opens sealed
      from_key none q = absurd (cc q)
      from_key (some e) q =
          let (secret, shared, q1) =
            need_ok (c.ecdh e (c.public_key receiver)) ecdh_failed _ sealed q in
          let (k, derived, q2) = need_ok (c.hkdf secret request_id) hkdf_failed _ sealed q1 in
          let (g, made, q3) = need_ok (c.gcm k) cipher_failed _ sealed q2 in
          let same : result g e ≡ sealed = cc q3 in
          subst opens same (
            decrypt_opened plaintext nonce receiver_bytes request_id e receiver secret k g sized
              private shared derived made)
