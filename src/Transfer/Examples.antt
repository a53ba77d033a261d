-- ===== src/Transfer/Examples.antt =====
-- A codec, a host and requests at which the theorems on the transfers apply.
use Prim.Native.Char.{code}
use Prim.Native.String.{◌++◌ as concat}
use text.Mathlib.TextEquality.{Char-path}
use mantlerd.Base.{
  zero, suc, ◌<◌, ◌≤◌, length, ◌≡◌, Bool, ==_iff, ◌&&◌, &&-eq-true, refl, sym, subst, ap,
  Bool-cases, inl, inr, ◌≢◌, eq_iff, true, false, String, List, [], ◌∷◌, Memᴰ, none, some, str_eq,
  arith, ℕ, trim_space, to_lower, has_prefix, trim_prefix, split, Lacks, ◌==◌, if◌then◌else◌, All,
}
use mantlerd.Transfer.Token.{
  TokenClaims, Codec, IsCodec, ok, create_token, signed, verify_token, verify_parts, parse_claims,
  check_claims, compute_hmac, dotted,
}
use mantlerd.Transfer.Token.RoundTrip.{verify-create}
use mantlerd.Transfer.Token.Soundness.{IsGenuine, verify-IsGenuine}
use mantlerd.Transfer.Server.{
  Host, ModelFile, Request, Response, status, Phase, answered, check_model, verify_request,
  check_blob, find_model, serve_blob, advance, advance_at, step, run, start,
}
use mantlerd.Transfer.Server.Limit.{Inv, IsAnswered, run-start-Inv}
use mantlerd.Transfer.Server.Drained.{turns, run-start-Drained}
use mantlerd.Transfer.Server.Authorized.{OnGrant, hosts, run-start-OnGrant}
use mantlerd.Transfer.Address.{Interface}
use mantlerd.Transfer.Store.{Disk}

-- Every character is written as two: a dot as "--", any other behind "+".
abbrev encoded : String → String
encoded String.[] = ""
encoded (String.◌∷◌ c s) =
    if code c == b'.'
    then String.◌∷◌ "-" (String.◌∷◌ "-" (encoded s))
    else String.◌∷◌ "+" (String.◌∷◌ c (encoded s))

abbrev decoded : String → String
decoded String.[] = ""
decoded (String.◌∷◌ c String.[]) = ""
decoded (String.◌∷◌ c (String.◌∷◌ d s)) =
    let rest = decoded s in if code c == b'-' then String.◌∷◌ "." rest else String.◌∷◌ d rest

decoded-encoded : (s : String) → decoded (encoded s) ≡ s
decoded-encoded String.[] = refl
decoded-encoded (String.◌∷◌ c s) = elim (Bool-cases (code c == b'.')) [
  | inl dot ↦
      rw dot (λ i. String.◌∷◌ (sym (Char-path c "." ((==_iff _ _).0 dot)) i) (decoded-encoded s i))
  | inr other ↦ rw other (ap (String.◌∷◌ c) (decoded-encoded s))
]

encoded-Lacks : (s : String) → Lacks "." (encoded s)
encoded-Lacks String.[] = tt
encoded-Lacks (String.◌∷◌ c s) = elim (Bool-cases (code c == b'.')) [
  | inl dot ↦ rw dot (refl, (refl, encoded-Lacks s))
  | inr other ↦ rw other (refl, (other, encoded-Lacks s))
]

abbrev claims : TokenClaims
claims = record {
  requester_machine_id = "m2";
  served_machine_id = "m1";
  model_id = "qwen";
  runtime = "ollama";
  issued_at = 100;
  expires_at = 1000;
}

abbrev is_sample : TokenClaims → Bool
is_sample c =
    str_eq c.requester_machine_id "m2"
    && str_eq c.served_machine_id "m1"
    && str_eq c.model_id "qwen"
    && str_eq c.runtime "ollama"
    && c.issued_at == 100
    && c.expires_at == 1000

-- It knows the JSON text of these claims only.
abbrev codec : Codec
codec = record {
  marshal = λ c. if is_sample c then some "a.b" else none;
  unmarshal = λ p. if str_eq p "a.b" then some claims else none;
  encode = encoded;
  decode = λ p. some (decoded p);
  mac = λ secret message. concat secret message;
}

is_sample-eq : (c : TokenClaims) → is_sample c ≡ true → c ≡ claims
is_sample-eq c h =
    let (h1, g) = &&-eq-true _ (c.expires_at == 1000) h in
    let (h2, f) = &&-eq-true _ (c.issued_at == 100) h1 in
    let (h3, e) = &&-eq-true _ (str_eq c.runtime "ollama") h2 in
    let (h4, d) = &&-eq-true _ (str_eq c.model_id "qwen") h3 in
    let (a, b) = &&-eq-true _ (str_eq c.served_machine_id "m1") h4 in
    λ i. record {
      requester_machine_id = (eq_iff _ _).0 a i;
      served_machine_id = (eq_iff _ _).0 b i;
      model_id = (eq_iff _ _).0 d i;
      runtime = (eq_iff _ _).0 e i;
      issued_at = (==_iff _ _).0 f i;
      expires_at = (==_iff _ _).0 g i;
    }

codec-IsCodec : IsCodec codec
codec-IsCodec = record {
  unmarshal-marshal = λ c p h. elim (Bool-cases (is_sample c)) [
    | inl e ↦
        let same : "a.b" ≡ p = cc (rw e at h) in
        subst (λ q. codec.unmarshal q ≡ some c) same (ap some (sym (is_sample-eq c e)))
    | inr e ↦ absurd (none-some (rw e at h))
  ];
  decode-encode = λ p. ap some (decoded-encoded p);
  encode-Lacks = encoded-Lacks;
}
  where
    none-some : {p : String} → none ≡ some p → ⊥
    none-some q = cc q

abbrev token : String
token = dotted "t1" (dotted (encoded "a.b") (encoded (concat "key" (dotted "t1" (encoded "a.b")))))

verify-create_example : verify_token codec "key" token "m1" 950 ≡ ok claims
unfolding create_token signed compute_hmac
verify-create_example =
    verify-create codec codec-IsCodec "key" refl "m2" "m1" "qwen" "ollama" token 100 950 refl
      (omega arith)

verify-IsGenuine_example : (◌≢◌ {A = String} "key" "") × IsGenuine codec "key" token "m1" 950 claims
verify-IsGenuine_example = verify-IsGenuine codec "key" token "m1" 950 claims verify-create_example

abbrev host : Host
host = record {
  codec = codec;
  machine_id = "m1";
  secret = "key";
  now = 950;
  find_hf_model = λ model. none;
  find_ollama_model = λ model. some (record { path = "/blobs/sha256-1"; digest = "d1"; size = 4 });
  stat = λ path. some false;
}

abbrev fetch : Request
fetch = record {
  method = "GET";
  model = " qwen ";
  runtime = "ollama";
  authorization = concat "Bearer " token;
}

-- Four requests, of which the last is no GET; all pass the check before any transfer ends.
abbrev requests : List Request
requests = fetch ∷ fetch ∷ fetch ∷ record fetch { method = "POST" } ∷ []

abbrev turn : ℕ → Host × ℕ
turn i = (host, i)

abbrev schedule : List (Host × ℕ)
schedule = turn 0 ∷ turn 1 ∷ turn 2 ∷ turn 3 ∷ turn 2 ∷ turn 0 ∷ turn 1 ∷ []

abbrev file : Response
file = Response.file_of "/blobs/sha256-1" "d1"

abbrev served : List Phase
served =
    answered fetch file
    ∷ answered fetch file
    ∷ answered fetch (status 503)
    ∷ answered (record fetch { method = "POST" }) (status 405)
    ∷ []

final : (run (start requests) schedule).requests ≡ served
unfolding run step advance_at advance check_blob verify_request check_model serve_blob find_model
    verify_token verify_parts parse_claims check_claims split compute_hmac trim_space trim_prefix
    has_prefix to_lower
final = refl

run-start-Inv_example : Inv (run (start requests) schedule)
run-start-Inv_example = run-start-Inv requests schedule

run-start-OnGrant_example :
    All (OnGrant (λ h. Memᴰ h (hosts schedule))) (run (start requests) schedule).requests
run-start-OnGrant_example = run-start-OnGrant requests schedule

abbrev ifaces : List Interface
ifaces =
    record {
      is_up = true;
      is_loopback = false;
      speed = 1000;
      addrs = some (some (record { b0 = 10; b1 = 0; b2 = 0; b3 = 7 }) ∷ none ∷ []);
    }
    ∷ record { is_up = true; is_loopback = true; speed = 0; addrs = none }
    ∷ []

abbrev disk : Disk
disk = record {
  api_show = λ model. none;
  blobs = some (("/b/1", 3) ∷ ("/b/2", 9) ∷ ("/b/3", 9) ∷ []);
  sha256 = λ path. some "d2";
  snapshots = λ repo. none;
  total_size = λ path. 0;
  cache_dirs = none;
  join = λ a b. concat a b;
}

abbrev found : ModelFile
found = record { path = "/b/2"; digest = "d2"; size = 9 }

-- Every request has two turns, the last one also its second.
abbrev all_turns : List (Host × ℕ)
all_turns = turn 3 ∷ schedule

two_turns : (i : ℕ) → i < length requests → 2 ≤ turns i all_turns
two_turns zero k = omega arith
two_turns (suc zero) k = omega arith
two_turns (suc (suc zero)) k = omega arith
two_turns (suc (suc (suc zero))) k = omega arith
two_turns (suc (suc (suc (suc i)))) k = absurd (omega arith)

run-start-Drained_example :
    All IsAnswered (run (start requests) all_turns).requests
    × ((run (start requests) all_turns).active ≡ 0)
run-start-Drained_example = run-start-Drained requests all_turns two_turns
