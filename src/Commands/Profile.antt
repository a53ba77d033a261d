-- ===== src/Commands/Profile.antt =====
-- internal/commands/executor.go: the profile of a runtime that a command brings, its files and environment. The
-- host's files are a function from paths; which can be written is a parameter, and so are the network,
-- the decoding of JSON and the text of the state file.
pub mod Written
pub mod Mismatch
use Prim.Native.String.{◌++◌}
use mantlerd.Base.{
  ℕ, Bool, true, false, ◌&&◌, ◌||◌, not, String, List, [], ◌∷◌, Option, none, some, join,
  has_prefix, trim_prefix, to_lower, to_upper, str_eq, trim_space, ltb, leb, if◌then◌else◌,
}
use mantlerd.Base.Dict.{Dict, lookup, put}
use mantlerd.Base.Paths.{clean, join_path}
use mantlerd.Explore.Files.{Files, write_file}
use mantlerd.Commands.EnvFile.{Quoting, or_empty, read_env_file, env_text}

pub record RequiredFile : Type 0 where
  pub source : String
  pub destination : String

pub record RuntimeProfile : Type 0 where
  pub id : String
  pub label : String
  pub runtime : String
  pub container_image : String
  pub environment : Dict String
  pub extra_args : List String
  pub required_files : List RequiredFile

pub data ProfileError : Type 0 where
  destination_empty destination_outside : ProfileError
  source_invalid source_not_https download_failed too_large not_written : ProfileError
  download_status : ℕ → ProfileError
  image_mismatch : String → String → ProfileError
  env_mismatch : String → ProfileError
  file_missing : String → ProfileError
  decode_failed : String → ProfileError

abbrev pub vllm_env_path : String
vllm_env_path = "/etc/mantler/vllm.env"

abbrev pub tensorrt_env_path : String
tensorrt_env_path = "/etc/mantler/tensorrt.env"

abbrev pub state_root : String
state_root = "/var/lib/mantler/runtime-profiles"

abbrev pub max_file_size : ℕ
max_file_size = 536870912

-- The host's side of the mount at /app in a runtime's container.
abbrev pub app_mount : String → Option String
app_mount name =
    if str_eq name "vllm"
    then some "/opt/mantler/vllm-app"
    else if str_eq name "tensorrt"
    then some "/opt/mantler/tensorrt-app"
    else none

unfoldable pub resolve_host_path : String → String → String
resolve_host_path runtime_name path = elim (app_mount (to_lower runtime_name)) [
  | none ↦ path
  | some host ↦
      if has_prefix path "/app/"
      then host ++ trim_prefix path "/app"
      else if str_eq path "/app"
      then host
      else path
]

pub data Destination : Type 0 where
  accepted : String → Destination
  refused : ProfileError → Destination

unfoldable pub sanitize_destination : String → Destination
sanitize_destination destination =
    let cleaned = clean (trim_space destination) in
    if str_eq cleaned "." || str_eq cleaned ""
    then refused destination_empty
    else if not (str_eq cleaned state_root) && not (has_prefix cleaned (state_root ++ "/"))
    then refused destination_outside
    else accepted cleaned

-- Whether a trimmed name is one that a profile may set for the runtime.
abbrev pub is_allowed_name : String → String → Bool
is_allowed_name runtime_name name =
    not (str_eq name "")
    && (not (str_eq (to_upper name) "LD_PRELOAD")
        && has_prefix (to_upper name) (to_upper (trim_space runtime_name) ++ "_"))

unfoldable pub put_filtered : String → Dict String → Dict String → Dict String
put_filtered runtime_name [] values = values
put_filtered runtime_name ((key, value) ∷ environment) values =
    put_filtered runtime_name environment (
      if is_allowed_name runtime_name (trim_space key)
      then put (trim_space key) (trim_space value) values
      else values)

unfoldable pub filter_env : String → Dict String → Dict String
filter_env runtime_name environment = put_filtered runtime_name environment []

abbrev pub put_each : Dict String → Dict String → Dict String
put_each [] values = values
put_each ((key, value) ∷ added) values = put_each added (put key value values)

abbrev pub is_empty_list : List String → Bool
is_empty_list [] = true
is_empty_list (x ∷ xs) = false

-- The values of the environment file with those of the profile.
unfoldable pub with_profile : String → RuntimeProfile → Dict String → Dict String
with_profile runtime_name profile values =
    let prefix = to_upper runtime_name in
    let image = trim_space profile.container_image in
    let imaged =
      if str_eq image "" then values else put (prefix ++ "_CONTAINER_IMAGE") image values in
    let extended =
      if is_empty_list profile.extra_args
      then imaged
      else put (prefix ++ "_EXTRA_ARGS") (trim_space (join " " profile.extra_args)) imaged in
    put_each (filter_env runtime_name profile.environment) extended

-- An answer to a GET: its status, the number of its bytes, and its body.
pub record Reply : Type 0 where
  pub status : ℕ
  pub size : ℕ
  pub body : String

pub record Surface : Type 0 where
  pub quoting : Quoting
  pub writable : String → Bool
  -- the scheme of a URL that url.Parse reads
  pub scheme : String → Option String
  -- profileDownloadHTTPClient.Get, and the reading of the body
  pub get : String → Option Reply
  pub state_text : RuntimeProfile → String → String

-- A file that is written, with the error where it cannot be.
abbrev pub written : Surface → String → String → Files → Files × Option ProfileError
written s path content files =
    if s.writable path then (write_file path content files, none) else (files, some not_written)

-- `if err := …; err != nil { return err }`, and what follows.
abbrev pub and_then :
    Files × Option ProfileError
    → (Files → Files × Option ProfileError)
    → Files × Option ProfileError
and_then (files, some e) next = (files, some e)
and_then (files, none) next = next files

abbrev pub store_reply : Surface → String → Option Reply → Files → Files × Option ProfileError
store_reply s destination none files = (files, some download_failed)
store_reply s destination (some reply) files =
    if leb 400 reply.status
    then (files, some (download_status reply.status))
    else if ltb max_file_size reply.size
    then (files, some too_large)
    else written s destination reply.body files

unfoldable pub download_profile_file :
    Surface → String → String → Files → Files × Option ProfileError
download_profile_file s source destination files = elim (s.scheme source) [
  | none ↦ (files, some source_invalid)
  | some scheme ↦
      if str_eq (to_lower scheme) "https"
      then store_reply s destination (s.get source) files
      else (files, some source_not_https)
]

abbrev pub download_to : Surface → String → Destination → Files → Files × Option ProfileError
download_to s source (refused e) files = (files, some e)
download_to s source (accepted path) files = download_profile_file s source path files

unfoldable pub fetch_one : Surface → String → RequiredFile → Files → Files × Option ProfileError
fetch_one s runtime_name file files =
    let source = trim_space file.source in
    let destination = trim_space file.destination in
    if str_eq source "" || str_eq destination ""
    then (files, none)
    else download_to s source (sanitize_destination (resolve_host_path runtime_name destination))
        files

unfoldable pub fetch_each :
    Surface → String → List RequiredFile → Files → Files × Option ProfileError
fetch_each s runtime_name [] files = (files, none)
fetch_each s runtime_name (file ∷ rest) files =
    and_then (fetch_one s runtime_name file files) (fetch_each s runtime_name rest)

-- The first variable of the profile that the environment file has another value for.
unfoldable pub env_error : Dict String → Dict String → Option ProfileError
env_error [] values = none
env_error ((key, value) ∷ environment) values =
    let rest = env_error environment values in
    let name = trim_space key in
    if str_eq name "" || str_eq (trim_space (or_empty (lookup name values))) (trim_space value)
    then rest
    else some (env_mismatch key)

unfoldable pub missing_file : String → List RequiredFile → Files → Option ProfileError
missing_file runtime_name [] files = none
missing_file runtime_name (file ∷ rest) files =
    let later = missing_file runtime_name rest files in
    let destination = trim_space file.destination in
    let path = resolve_host_path runtime_name destination in
    if str_eq destination ""
    then later
    else elim (files path) [ some content ↦ later | none ↦ some (file_missing path) ]

abbrev pub image_error : String → RuntimeProfile → Dict String → Option ProfileError
image_error runtime_name profile values =
    let image = trim_space profile.container_image in
    let set =
      trim_space
        (or_empty (lookup (to_upper (trim_space runtime_name) ++ "_CONTAINER_IMAGE") values)) in
    if str_eq image "" || str_eq set image then none else some (image_mismatch image set)

-- The first error of two tests.
abbrev pub or_then : Option ProfileError → Option ProfileError → Option ProfileError
or_then (some e) f = some e
or_then none f = f

unfoldable pub state_path : String → String
state_path runtime_name =
    let name = to_lower (trim_space runtime_name) in
    join_path state_root ((if str_eq name "" then "unknown" else name) ++ ".json")

-- verifyRuntimeProfileApplied for a runtime with this environment file.
unfoldable pub verify_applied :
    Surface → String → String → RuntimeProfile → Files → Files × Option ProfileError
verify_applied s env_path runtime_name profile files =
    let values = read_env_file s.quoting (files env_path) in
    and_then
      (
        files,
        or_then (image_error runtime_name profile values) (
            or_then (env_error profile.environment values)
              (missing_file runtime_name profile.required_files files)),
      )
      (written s (state_path runtime_name) (s.state_text profile runtime_name))

unfoldable pub apply_env :
    Surface → String → String → RuntimeProfile → Files → Files × Option ProfileError
apply_env s env_path runtime_name profile files =
    let values = with_profile runtime_name profile (read_env_file s.quoting (files env_path)) in
    and_then (written s env_path (env_text s.quoting values) files)
      (verify_applied s env_path runtime_name profile)

-- The environment file of a runtime that has one.
abbrev pub env_path_of : String → Option String
env_path_of runtime_name =
    if str_eq runtime_name "vllm"
    then some vllm_env_path
    else if str_eq runtime_name "tensorrt"
    then some tensorrt_env_path
    else none

abbrev pub apply_to :
    Surface → Option String → String → RuntimeProfile → Files → Files × Option ProfileError
apply_to s none runtime_name profile files = (files, none)
apply_to s (some path) runtime_name profile files = apply_env s path runtime_name profile files

unfoldable pub apply_profile :
    Surface → String → RuntimeProfile → Files → Files × Option ProfileError
apply_profile s runtime_name profile files =
    and_then (fetch_each s runtime_name profile.required_files files)
      (apply_to s (env_path_of runtime_name) runtime_name profile)

unfoldable pub runtime_of_profile : String → RuntimeProfile → String
runtime_of_profile hint profile =
    let hinted = to_lower (trim_space hint) in
    if str_eq hinted "" then to_lower (trim_space profile.runtime) else hinted

-- What the JSON of the parameter `runtimeProfile` stands for.
pub data Decoded : Type 0 where
  no_profile : Decoded
  malformed : String → Decoded
  profile_given : RuntimeProfile → Decoded

unfoldable pub apply_runtime_profile_overrides :
    Surface → Decoded → String → Files → Files × Option ProfileError
apply_runtime_profile_overrides s no_profile hint files = (files, none)
apply_runtime_profile_overrides s (malformed e) hint files = (files, some (decode_failed e))
apply_runtime_profile_overrides s (profile_given profile) hint files =
    let runtime_name = runtime_of_profile hint profile in
    if str_eq runtime_name "" then (files, none) else apply_profile s runtime_name profile files
