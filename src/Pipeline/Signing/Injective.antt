-- ===== src/Pipeline/Signing/Injective.antt =====
-- What a signature fixes.
use mantlerd.Base.{ℕ, zero, suc, ◌≡◌, sym, ap, ◌∙◌, String, List, [], ◌∷◌, Lacks, split, split-join}
use mantlerd.Pipeline.Signing.{
  Ints, StageIntegrity, nul, signed_fields, serialize_integrity_for_signing,
}

-- What fmt documents of %d: different integers have different digits, and none is the character NUL.
pub record IsDecimal (ints : Ints) : Type 0 where
  pub injective : (a b : ints.Int) → ints.decimal a ≡ ints.decimal b → a ≡ b
  pub digits : (a : ints.Int) → Lacks nul (ints.decimal a)

-- No text among the signed fields has the character NUL.
pub record IsPlain (ints : Ints) (i : StageIntegrity ints) : Type 0 where
  pub stage_id : Lacks nul i.stage_id
  pub stage_kind : Lacks nul i.stage_kind
  pub contract_version : Lacks nul i.contract_version
  pub model_id : Lacks nul i.model_id
  pub runtime_id : Lacks nul i.runtime_id
  pub input_hash : Lacks nul i.input_hash
  pub output_hash : Lacks nul i.output_hash
  pub timestamp : Lacks nul i.timestamp
  pub machine_key_fingerprint : Lacks nul i.machine_key_fingerprint

nth : ℕ → List String → String
nth n [] = ""
nth zero (x ∷ xs) = x
nth (suc n) (x ∷ xs) = nth n xs

module _ (ints : Ints) (laws : IsDecimal ints) where
  split-serialize :
      (i : StageIntegrity ints)
      → IsPlain ints i
      → split nul (serialize_integrity_for_signing ints i) ≡ signed_fields ints i
  unfolding serialize_integrity_for_signing
  split-serialize i p = split-join nul i.stage_id _ (
    p.stage_id,
    (
      p.stage_kind,
      (
        p.contract_version,
        (
          p.model_id,
          (
            p.runtime_id,
            (
              p.input_hash,
              (
                p.output_hash,
                (
                  laws.digits i.input_tokens,
                  (
                    laws.digits i.output_tokens,
                    (laws.digits i.duration_ms, (p.timestamp, (p.machine_key_fingerprint, tt))),
                  ),
                ),
              ),
            ),
          ),
        ),
      ),
    ),
  )

  -- Two results of stages whose texts have no NUL and that are signed over the same text agree in every
  -- field but the signature.
  pub serialize-injective :
      (a b : StageIntegrity ints)
      → IsPlain ints a
      → IsPlain ints b
      → serialize_integrity_for_signing ints a ≡ serialize_integrity_for_signing ints b
      → (record a { signature = "" }) ≡ (record b { signature = "" })
  unfolding nth
  serialize-injective a b p q h =
      let e : signed_fields ints a ≡ signed_fields ints b =
        sym (split-serialize a p) ∙ ap (split nul) h ∙ split-serialize b q in
      let m : ints.decimal a.input_tokens ≡ ints.decimal b.input_tokens = ap (nth 7) e in
      let n : ints.decimal a.output_tokens ≡ ints.decimal b.output_tokens = ap (nth 8) e in
      let d : ints.decimal a.duration_ms ≡ ints.decimal b.duration_ms = ap (nth 9) e in
      λ k. record {
        stage_id = ap (nth 0) e k;
        stage_kind = ap (nth 1) e k;
        contract_version = ap (nth 2) e k;
        model_id = ap (nth 3) e k;
        runtime_id = ap (nth 4) e k;
        input_hash = ap (nth 5) e k;
        output_hash = ap (nth 6) e k;
        input_tokens = laws.injective a.input_tokens b.input_tokens m k;
        output_tokens = laws.injective a.output_tokens b.output_tokens n k;
        duration_ms = laws.injective a.duration_ms b.duration_ms d k;
        timestamp = ap (nth 10) e k;
        machine_key_fingerprint = ap (nth 11) e k;
        signature = "";
      }
