-- ===== src/Pipeline/Signing.antt =====
-- internal/pipeline/contract.go, SerializeIntegrityForSigning: the text that the signature of a stage's
-- result is made of.
pub mod Injective
use Prim.Native.Char.{Char}
use mantlerd.Base.{String, List, [], ◌∷◌, join}

-- Go's integers, and the digits that fmt writes of them.
pub record Ints : Type 1 where
  pub Int : Type 0
  pub decimal : Int → String

pub record StageIntegrity (ints : Ints) : Type 0 where
  pub stage_id : String
  pub stage_kind : String
  pub contract_version : String
  pub model_id : String
  pub runtime_id : String
  pub input_hash : String
  pub output_hash : String
  pub input_tokens : ints.Int
  pub output_tokens : ints.Int
  pub duration_ms : ints.Int
  pub timestamp : String
  pub machine_key_fingerprint : String
  pub signature : String

abbrev pub nul : Char
nul = "\0"

module _ (ints : Ints) where
  abbrev pub signed_fields : StageIntegrity ints → List String
  signed_fields i =
      i.stage_id
      ∷ i.stage_kind
      ∷ i.contract_version
      ∷ i.model_id
      ∷ i.runtime_id
      ∷ i.input_hash
      ∷ i.output_hash
      ∷ ints.decimal i.input_tokens
      ∷ ints.decimal i.output_tokens
      ∷ ints.decimal i.duration_ms
      ∷ i.timestamp
      ∷ i.machine_key_fingerprint
      ∷ []

  unfoldable pub serialize_integrity_for_signing : StageIntegrity ints → String
  serialize_integrity_for_signing i = join nul (signed_fields i)
