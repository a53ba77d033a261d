-- ===== src/Pipeline/Examples.antt =====
-- Cryptography whose secrets are sums, and two integrity records, at which the theorems apply.
use mantlerd.Base.{
  ℕ, zero, suc, ◌+◌, ◌≡◌, refl, sym, ap, ◌∙◌, String, Option, none, some, Lacks, arith, trim_space,
}
use mantlerd.Pipeline.Sealing.{Crypto, Sealed, decrypt_stage_payload}
use mantlerd.Pipeline.Sealing.RoundTrip.{IsCrypto}
use mantlerd.Pipeline.Signing.{Ints, StageIntegrity, nul, serialize_integrity_for_signing}
use mantlerd.Pipeline.Value.{
  Value, text, array, no_item, Members, no_member, member, find, canonical_json,
  hash_canonical_json, normalize_for_canonical,
}
use mantlerd.Pipeline.Context.{is_compressed_context, are_artifacts}
use mantlerd.Pipeline.Stage.{
  StageEnvelope, Machine, valid, handle_stage_request, handle_infer, run_infer,
}
use mantlerd.Pipeline.Stage.Trusted.{Guarded, handle_stage_request-Guarded}
use mantlerd.Pipeline.Signing.Injective.{IsDecimal, IsPlain, serialize-injective}

-- A number is written in strokes.
abbrev strokes : ℕ → String
strokes zero = ""
strokes (suc n) = String.◌∷◌ "|" (strokes n)

abbrev count : String → ℕ
count String.[] = 0
count (String.◌∷◌ c s) = suc (count s)

count-strokes : (n : ℕ) → count (strokes n) ≡ n
count-strokes zero = refl
count-strokes (suc n) = ap suc (count-strokes n)

strokes-Lacks : (n : ℕ) → Lacks nul (strokes n)
strokes-Lacks zero = tt
strokes-Lacks (suc n) = (refl, strokes-Lacks n)

abbrev opened : String → Option String
opened String.[] = none
opened (String.◌∷◌ c s) = some s

-- Keys are numbers written in strokes, a secret is the sum of both keys, and what is sealed is marked.
abbrev sums : Crypto
sums = record {
  Bytes = String;
  Public = ℕ;
  Private = ℕ;
  Secret = ℕ;
  Key = ℕ;
  Gcm = ℕ;
  decode = λ s. some s;
  encode = λ b. b;
  size = λ b. count b;
  public_of = λ b. some (count b);
  public_bytes = strokes;
  private_of = λ b. some (count b);
  public_key = λ a. a;
  ecdh = λ a p. some (a + p);
  hkdf = λ s id. some s;
  gcm = λ k. some k;
  seal = λ g n p. String.◌∷◌ "#" p;
  open_sealed = λ g n c. opened c;
}

sums-IsCrypto : IsCrypto sums
sums-IsCrypto = record {
  decode-encode = λ b. refl;
  public_of-public_bytes = λ p. ap some (count-strokes p);
  ecdh_comm = λ a b. ap some (add_comm a b);
  open_sealed-seal = λ g n p. refl;
}
  where
    add_comm : (a b : ℕ) → a + b ≡ b + a
    add_comm a b = omega arith

abbrev sealed : Sealed
sealed = record {
  encrypted_payload = "#hello";
  nonce = "twelve bytes";
  ephemeral_public_key = "||";
}

abbrev tally : Ints
tally = record { Int = ℕ; decimal = strokes }

tally-IsDecimal : IsDecimal tally
tally-IsDecimal = record {
  injective = λ a b h. sym (count-strokes a) ∙ ap count h ∙ count-strokes b;
  digits = strokes-Lacks;
}

abbrev integrity : String → StageIntegrity tally
integrity signature = record {
  stage_id = "s1";
  stage_kind = "k";
  contract_version = "1";
  model_id = "m";
  runtime_id = "r";
  input_hash = "a";
  output_hash = "b";
  input_tokens = 4;
  output_tokens = 7;
  duration_ms = 3;
  timestamp = "t";
  machine_key_fingerprint = "f";
  signature = signature;
}

integrity-IsPlain : (signature : String) → IsPlain tally (integrity signature)
integrity-IsPlain signature = record {
  stage_id = (refl, (refl, tt));
  stage_kind = (refl, tt);
  contract_version = (refl, tt);
  model_id = (refl, tt);
  runtime_id = (refl, tt);
  input_hash = (refl, tt);
  output_hash = (refl, tt);
  timestamp = (refl, tt);
  machine_key_fingerprint = (refl, tt);
}

serialize-injective_example :
    (record (integrity "x") { signature = "" }) ≡ (record (integrity "y") { signature = "" })
unfolding serialize_integrity_for_signing
serialize-injective_example =
    serialize-injective tally tally-IsDecimal (integrity "x") (integrity "y")
      (integrity-IsPlain "x") (integrity-IsPlain "y") same
  where
    same :
        serialize_integrity_for_signing tally (integrity "x")
        ≡ serialize_integrity_for_signing tally (integrity "y")
    same = refl

-- One object in two orders of iteration.
abbrev no_items : Value
no_items = array no_item

-- A compressed context.
abbrev context : Members
context = member "contractVersion" (text "1") (
    member "summary" (text "s") (
      member "latestUserIntent" (text "i") (
        member "preservedFacts" no_items (
          member "decisions" no_items (
            member "referencedArtifacts" no_items
              (member "unresolvedQuestions" no_items no_member))))))

-- The state counts the calls of the runtime.
abbrev machine : Machine ℕ
machine = record {
  ints = tally;
  crypto = sums;
  digest = record { marshal = λ v. some "json"; hash = λ s. s };
  encryption_private_key = "|||";
  signing_private_key = "|";
  fingerprint = "f";
  unmarshal = λ b. some context;
  marshal = λ v. some "json";
  sign = λ s k. s;
  verify = λ s t k. valid;
  call = λ runtime request w. (w + 1, (some context, ""));
  unmarshal_text = λ s. some context;
  int_of = λ n. n;
  elapsed_ms = λ a b. 0;
  now_text = λ w. "now";
  fresh_key = λ w. some 2;
  fresh_nonce = λ w. some "twelve bytes";
}

abbrev envelope : StageEnvelope tally
envelope = record {
  request_id = "r1";
  stage_id = "s2";
  stage_kind = "infer";
  encrypted_payload = "#hello";
  nonce = "twelve bytes";
  ephemeral_public_key = "||";
  prior_stage_signing_key = "key";
  prior_integrity = some (record (integrity "sig") { output_hash = "json" });
  continuation = none;
}

handle_stage_request-Guarded_example :
    Guarded machine envelope 0 (handle_stage_request machine envelope 0)
handle_stage_request-Guarded_example = handle_stage_request-Guarded machine envelope 0 refl

-- The runtime is called.
infer_run : (handle_stage_request machine envelope 0).0 ≡ 1
unfolding handle_stage_request decrypt_stage_payload handle_infer is_compressed_context find
    trim_space are_artifacts run_infer hash_canonical_json canonical_json normalize_for_canonical
infer_run = refl
