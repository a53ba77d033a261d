-- ===== src/Transfer/Client.antt =====
-- internal/transfer/client.go: pulling a model from another machine. The reply to a request, and which
-- operations on files succeed, are parameters; what is modelled of a body is the archive or the blob in it.
pub mod Extraction
pub mod Verified
mod Examples
use Prim.Native.String.{◌++◌ as concat}
use mantlerd.Base.{
  ℕ, ◌+◌, Bool, true, false, ◌||◌, not, String, List, [], ◌∷◌, ◌++◌, Option, none, some, ◌==◌,
  str_eq, has_prefix, trim_prefix, to_lower, trim_space, if◌then◌else◌,
}
use mantlerd.Base.Paths.{clean, join_path}
use mantlerd.Transfer.Token.{Codec, Result, ok, err, create_token}
use mantlerd.Transfer.Store.{dir_name}

pub record PeerHint : Type 0 where
  pub machine_id : String
  pub addresses : List String
  pub transfer_port : ℕ
  pub digest : String

pub record TransferResult : Type 0 where
  pub digest : String
  pub bytes : ℕ
  pub source_machine_id : String

pub record TarEntry : Type 0 where
  pub name : String
  pub is_dir : Bool
  pub size : ℕ
  -- whether io.Copy reads it to the end
  pub copies : Bool

-- What the loop of receiveTar meets: entries, and then the end with the digest of what was read, an error of
-- the reader or the end of the context.
pub data Archive : Type 0 where
  finished : String → Archive
  broken cancelled : Archive
  entry : TarEntry → Archive → Archive

pub record Blob : Type 0 where
  pub received : ℕ
  pub is_complete : Bool
  pub sha256 : String

pub record Reply : Type 0 where
  pub status : ℕ
  -- X-Transfer-Machine and X-Transfer-Format
  pub machine : String
  pub format : String
  pub archive : Archive
  pub blob : Blob

-- The operations on files: os.MkdirAll of a path and of its directory, os.Create, os.CreateTemp and os.Rename.
pub data Touch : Type 0 where
  make_directory make_parent create create_temporary rename_to : String → Touch

-- What was done, and what is returned; none stands for an error.
abbrev pub Done : Type 0 → Type 0
Done A = List Touch × Option A

pub record Client : Type 0 where
  pub machine_id : String
  pub hf_cache_dir : String
  pub ollama_models_dir : String
  pub secret : String

abbrev pub transfer_port : ℕ
transfer_port = 7433

abbrev pub done : {A : Type 0} → Option A → Done A
done result = ([], result)

-- `if err := …; err != nil { return nil, err }`
abbrev pub attempt : {A : Type 0} → (Touch → Bool) → Touch → Done A → Done A
attempt permits t next = if permits t then (t ∷ next.0, next.1) else (t ∷ [], none)

-- Whether the digest of a result is the one that the server told.
abbrev pub is_expected : PeerHint → TransferResult → Bool
is_expected peer r = str_eq peer.digest "" || str_eq r.digest (trim_prefix peer.digest "sha256:")

module _ (permits : Touch → Bool) where
  -- The loop of receiveTar, with the bytes that were extracted.
  unfoldable pub extract : String → String → Archive → ℕ → Done TransferResult
  extract dest machine (finished digest) total =
      done (some (record { digest = digest; bytes = total; source_machine_id = machine }))
  extract dest machine broken total = done none
  extract dest machine cancelled total = done none
  extract dest machine (entry e archive) total =
      let skipped = extract dest machine archive total in
      let copied = extract dest machine archive (total + e.size) in
      let name = clean e.name in
      let target = join_path dest name in
      if has_prefix name ".."
      then skipped
      else if e.is_dir
      then attempt permits (make_directory target) skipped
      else attempt permits (make_parent target)
          (attempt permits (create target) (if e.copies then copied else done none))

  unfoldable pub snapshot_dir : Client → String → String
  snapshot_dir c model_id =
      clean
        (concat c.hf_cache_dir (concat "/" (concat (dir_name model_id) "/snapshots/peer-transfer")))

  unfoldable pub receive_tar : Client → String → Reply → Done TransferResult
  receive_tar c model_id reply =
      let dest = snapshot_dir c model_id in
      attempt permits (make_directory dest) (extract dest reply.machine reply.archive 0)

  unfoldable pub receive_blob : Client → Reply → Done TransferResult
  receive_blob c reply =
      let blobs_dir = join_path c.ollama_models_dir "blobs" in
      let blob = reply.blob in
      attempt permits (make_directory blobs_dir) (
        attempt permits (create_temporary blobs_dir) (
          if blob.is_complete
          then attempt permits (rename_to (join_path blobs_dir (concat "sha256-" blob.sha256))) (
              done (
                some (record {
                  digest = blob.sha256;
                  bytes = blob.received;
                  source_machine_id = reply.machine;
                })))
          else done none))

  unfoldable pub receive : Client → String → Reply → Done TransferResult
  receive c model_id reply =
      if not (reply.status == 200 || reply.status == 206)
      then done none
      else if str_eq (to_lower (trim_space reply.format)) "tar"
      then receive_tar c model_id reply
      else receive_blob c reply

  module _ {W : Type 0} (k : Codec) (now : W → ℕ)
      (get : String → ℕ → String → String → String → W → W × Option Reply) where
    -- The state after it with what was done, and what is returned.
    abbrev pub Pull : Type 0
    Pull = W × Done TransferResult

    abbrev pub after : List Touch → Pull → Pull
    after touched (w, (more, result)) = (w, (touched ++ more, result))

    abbrev received : Client → String → W × Option Reply → Pull
    received c model_id (w, none) = (w, done none)
    received c model_id (w, some reply) = (w, receive c model_id reply)

    -- `get` is the request to the address and the port, with the token, for the model and the runtime.
    unfoldable pub try_address : Client → String → PeerHint → String → String → W → Pull
    try_address c addr peer model_id runtime w =
        let port = if peer.transfer_port == 0 then transfer_port else peer.transfer_port in
        elim (create_token k c.secret c.machine_id peer.machine_id model_id runtime (now w)) [
          | err e ↦ (w, done none)
          | ok token ↦ received c model_id (get addr port token model_id runtime w)
        ]

    unfoldable pub try_addresses : Client → List String → PeerHint → String → String → W → Pull
    try_addresses c [] peer model_id runtime w = (w, done none)
    try_addresses c (addr ∷ addrs) peer model_id runtime w =
        let (w', (touched, result)) = try_address c addr peer model_id runtime w in
        elim result [
          | some r ↦ (w', (touched, some r))
          | none ↦ after touched (try_addresses c addrs peer model_id runtime w')
        ]

    unfoldable pub pull_from_peer : Client → PeerHint → String → String → W → Pull
    pull_from_peer c peer model_id runtime w =
        try_addresses c peer.addresses peer model_id runtime w

    -- The loop of PullFromPeers.
    unfoldable pub pull_each : Client → String → String → List PeerHint → W → Pull
    pull_each c model_id runtime [] w = (w, done none)
    pull_each c model_id runtime (peer ∷ peers) w =
        let skipped = pull_each c model_id runtime peers w in
        if str_eq peer.machine_id c.machine_id
        then skipped
        else let (w', (touched, result)) = pull_from_peer c peer model_id runtime w in
          let next = after touched (pull_each c model_id runtime peers w') in
          elim result [
            | none ↦ next
            | some r ↦ if is_expected peer r then (w', (touched, some r)) else next
          ]

    unfoldable pub pull_from_peers : Client → String → String → List PeerHint → W → Pull
    pull_from_peers c model_id runtime peers w =
        if str_eq c.secret "" then (w, done none) else pull_each c model_id runtime peers w
