-- ===== src/Commands/Profile/Written.antt =====
-- Which files of the host a profile can change.
use Prim.Native.String.{◌++◌ as concat}
use mantlerd.Base.{
  ◌≡◌, refl, sym, ◌∙◌, subst, ◌⊎◌, inl, inr, true, ◌&&◌, ◌||◌, not, String, List, [], ◌∷◌, Option,
  none, some, has_prefix, str_eq, eq_iff, trim_space, to_lower, arith, split, join, Bool-cases,
  if-holds, leb, ltb, if◌then◌else◌,
}
use mantlerd.Base.Paths.{clean, join_path, resolve, add_element}
use mantlerd.Base.Paths.Elements.{IsDirect, clean-IsDirect, clean-rooted}
use mantlerd.Explore.Files.{Files}
use mantlerd.Commands.EnvFile.{read_env_file, env_text}
use mantlerd.Commands.Profile.{
  RequiredFile, RuntimeProfile, ProfileError, Surface, Decoded, no_profile, malformed,
  profile_given, vllm_env_path, tensorrt_env_path, state_root, Destination, accepted, refused,
  sanitize_destination, resolve_host_path, and_then, apply_to, max_file_size, Reply, written,
  store_reply, download_profile_file, download_to, fetch_one, fetch_each, image_error, env_error,
  missing_file, or_then, state_path, with_profile, verify_applied, apply_env, env_path_of,
  apply_profile, runtime_of_profile, apply_runtime_profile_overrides,
}

-- A path at the state's root or below it by its text, without an element that leads elsewhere.
abbrev pub IsStateFile : String → Type 0
IsStateFile p = ((str_eq p state_root || has_prefix p (concat state_root "/")) ≡ true) × IsDirect p

-- The files that a profile may change.
abbrev pub IsTouchable : String → Type 0
IsTouchable p = (p ≡ vllm_env_path) ⊎ (p ≡ tensorrt_env_path) ⊎ IsStateFile p

-- Every file that may not be changed is as it was.
abbrev pub Keeps : Files → Files → Type 0
Keeps files files' = (p : String) → IsTouchable p ⊎ (files' p ≡ files p)

Keeps-refl : (files : Files) → Keeps files files
Keeps-refl files p = inr refl

Keeps-trans : (a b c : Files) → Keeps a b → Keeps b c → Keeps a c
Keeps-trans a b c h k p = elim (k p) [
  | inl t ↦ inl t
  | inr e ↦ elim (h p) [ inl t ↦ inl t | inr f ↦ inr (e ∙ f) ]
]

written-Keeps :
    (s : Surface) (path content : String) (files : Files)
    → IsTouchable path
    → Keeps files (written s path content files).0
written-Keeps s path content files t =
    if-holds {A = Files × Option ProfileError} (λ r. Keeps files r.0) (s.writable path)
      (λ e p. elim (Bool-cases (str_eq p path)) [
        | inl f ↦ inl (subst IsTouchable (sym ((eq_iff p path).0 f)) t)
        | inr f ↦ inr (rw f refl)
      ])
      (λ e. Keeps-refl files)

store_reply-Keeps :
    (s : Surface) (path : String) (reply : Option Reply) (files : Files)
    → IsTouchable path
    → Keeps files (store_reply s path reply files).0
store_reply-Keeps s path none files t = Keeps-refl files
store_reply-Keeps s path (some reply) files t =
    if-holds {A = Files × Option ProfileError} (λ r. Keeps files r.0) (leb 400 reply.status)
      (λ e. Keeps-refl files)
      (λ e.
        if-holds {A = Files × Option ProfileError} (λ r. Keeps files r.0)
          (ltb max_file_size reply.size) (λ f. Keeps-refl files)
          (λ f. written-Keeps s path reply.body files t))

download-Keeps :
    (s : Surface) (source path : String) (files : Files)
    → IsTouchable path
    → Keeps files (download_profile_file s source path files).0
unfolding download_profile_file
download-Keeps s source path files t = go (s.scheme source)
  where
    after : Option String → Files × Option ProfileError
    after none = (files, some ProfileError.source_invalid)
    after (some scheme) =
        if str_eq (to_lower scheme) "https"
        then store_reply s path (s.get source) files
        else (files, some ProfileError.source_not_https)

    go : (o : Option String) → Keeps files (after o).0
    go none = Keeps-refl files
    go (some scheme) =
        if-holds {A = Files × Option ProfileError} (λ r. Keeps files r.0)
          (str_eq (to_lower scheme) "https") (λ e. store_reply-Keeps s path (s.get source) files t)
          (λ e. Keeps-refl files)

below-rooted :
    (p : String)
    → (str_eq p state_root || has_prefix p (concat state_root "/")) ≡ true
    → has_prefix p "/" ≡ true
unfolding has_prefix
below-rooted p h = elim (Bool-cases (str_eq p state_root)) [
  | inl e ↦ subst (λ t. has_prefix t "/" ≡ true) (sym ((eq_iff p state_root).0 e)) refl
  | inr e ↦ begins p (rw e at h)
]
  where
    begins : (t : String) → has_prefix t (concat state_root "/") ≡ true → has_prefix t "/" ≡ true
    begins String.[] k = absurd (ground (arith, k))
    begins (String.◌∷◌ c t) k = ground (arith, k)

-- A destination that is accepted is one of the state's files.
IsAccepted : Destination → Type 0
IsAccepted (refused e) = Unit
IsAccepted (accepted path) = IsStateFile path

sanitize-IsAccepted : (destination : String) → IsAccepted (sanitize_destination destination)
unfolding sanitize_destination IsAccepted
sanitize-IsAccepted destination =
    let trimmed = trim_space destination in
    let cleaned = clean trimmed in
    if-holds IsAccepted (str_eq cleaned "." || str_eq cleaned "") (λ e. tt)
      (λ e.
        if-holds IsAccepted
          (not (str_eq cleaned state_root) && not (has_prefix cleaned (concat state_root "/")))
          (λ f. tt)
          (λ f.
            let under : (str_eq cleaned state_root || has_prefix cleaned (concat state_root "/"))
                ≡ true =
              ground (arith, f) in
            (under, clean-IsDirect trimmed (clean-rooted trimmed (below-rooted cleaned under)))))

download_to-Keeps :
    (s : Surface) (source : String) (d : Destination) (files : Files)
    → IsAccepted d
    → Keeps files (download_to s source d files).0
unfolding IsAccepted
download_to-Keeps s source (refused e) files h = Keeps-refl files
download_to-Keeps s source (accepted path) files h =
    download-Keeps s source path files (inr (inr h))

fetch_one-Keeps :
    (s : Surface) (name : String) (file : RequiredFile) (files : Files)
    → Keeps files (fetch_one s name file files).0
unfolding fetch_one
fetch_one-Keeps s name file files =
    let path = resolve_host_path name (trim_space file.destination) in
    if-holds {A = Files × Option ProfileError} (λ r. Keeps files r.0)
      (str_eq (trim_space file.source) "" || str_eq (trim_space file.destination) "")
      (λ e. Keeps-refl files)
      (λ e.
        download_to-Keeps s (trim_space file.source) (sanitize_destination path) files
          (sanitize-IsAccepted path))

-- A step, and the next one if it gives no error.
chain-Keeps :
    (files : Files) (r : Files × Option ProfileError) (next : Files → Files × Option ProfileError)
    → Keeps files r.0
    → ((after : Files) → Keeps after (next after).0)
    → Keeps files (and_then r next).0
chain-Keeps files (f, some x) next h k = h
chain-Keeps files (f, none) next h k = Keeps-trans files f (next f).0 h (k f)

fetch_each-Keeps :
    (s : Surface) (name : String) (required : List RequiredFile) (files : Files)
    → Keeps files (fetch_each s name required files).0
unfolding fetch_each
fetch_each-Keeps s name [] files = Keeps-refl files
fetch_each-Keeps s name (file ∷ rest) files =
    chain-Keeps files (fetch_one s name file files) (fetch_each s name rest)
      (fetch_one-Keeps s name file files) (fetch_each-Keeps s name rest)

verify-Keeps :
    (s : Surface) (env_path name : String) (profile : RuntimeProfile) (files : Files)
    → IsTouchable (state_path name)
    → Keeps files (verify_applied s env_path name profile files).0
unfolding verify_applied
verify-Keeps s env_path name profile files t =
    let values = read_env_file s.quoting (files env_path) in
    chain-Keeps files
      (
        files,
        or_then (image_error name profile values) (
            or_then (env_error profile.environment values)
              (missing_file name profile.required_files files)),
      )
      (written s (state_path name) (s.state_text profile name)) (Keeps-refl files)
      (λ f. written-Keeps s (state_path name) (s.state_text profile name) f t)

apply_env-Keeps :
    (s : Surface) (env_path name : String) (profile : RuntimeProfile) (files : Files)
    → IsTouchable env_path
    → IsTouchable (state_path name)
    → Keeps files (apply_env s env_path name profile files).0
unfolding apply_env
apply_env-Keeps s env_path name profile files t u =
    let values = with_profile name profile (read_env_file s.quoting (files env_path)) in
    chain-Keeps files (written s env_path (env_text s.quoting values) files)
      (verify_applied s env_path name profile)
      (written-Keeps s env_path (env_text s.quoting values) files t)
      (λ f. verify-Keeps s env_path name profile f u)

vllm-IsStateFile : IsStateFile (state_path "vllm")
unfolding state_path join_path clean resolve add_element split join has_prefix trim_space to_lower
vllm-IsStateFile = (
  refl,
  (
    (refl, refl),
    ((refl, refl), ((refl, refl), ((refl, refl), ((refl, refl), ((refl, refl), tt))))),
  ),
)

tensorrt-IsStateFile : IsStateFile (state_path "tensorrt")
unfolding state_path join_path clean resolve add_element split join has_prefix trim_space to_lower
tensorrt-IsStateFile = (
  refl,
  (
    (refl, refl),
    ((refl, refl), ((refl, refl), ((refl, refl), ((refl, refl), ((refl, refl), tt))))),
  ),
)

-- The environment file of a runtime, and the file of its state.
apply_to-Keeps :
    (s : Surface) (name : String) (profile : RuntimeProfile) (files : Files)
    → Keeps files (apply_to s (env_path_of name) name profile files).0
apply_to-Keeps s name profile files =
    if-holds (λ o. Keeps files (apply_to s o name profile files).0) (str_eq name "vllm")
      (λ e.
        subst (λ n. Keeps files (apply_env s vllm_env_path n profile files).0)
          (sym ((eq_iff name "vllm").0 e))
          (apply_env-Keeps s vllm_env_path "vllm" profile files (inl refl)
            (inr (inr vllm-IsStateFile))))
      (λ e.
        if-holds (λ o. Keeps files (apply_to s o name profile files).0) (str_eq name "tensorrt")
          (λ f.
            subst (λ n. Keeps files (apply_env s tensorrt_env_path n profile files).0)
              (sym ((eq_iff name "tensorrt").0 f))
              (apply_env-Keeps s tensorrt_env_path "tensorrt" profile files (inr (inl refl))
                (inr (inr tensorrt-IsStateFile))))
          (λ f. Keeps-refl files))

-- Whatever a profile says, and whether or not applying it fails: the only files of the host that change are
-- the environment files of vllm and tensorrt, and files at or below the root of the profiles' state, at
-- paths without an element `.` or `..`.
pub apply-Keeps :
    (s : Surface) (decoded : Decoded) (hint : String) (files : Files)
    → Keeps files (apply_runtime_profile_overrides s decoded hint files).0
unfolding apply_runtime_profile_overrides apply_profile
apply-Keeps s no_profile hint files = Keeps-refl files
apply-Keeps s (malformed e) hint files = Keeps-refl files
apply-Keeps s (profile_given profile) hint files =
    let name = runtime_of_profile hint profile in
    if-holds {A = Files × Option ProfileError} (λ r. Keeps files r.0) (str_eq name "")
      (λ e. Keeps-refl files)
      (λ e.
        chain-Keeps files (fetch_each s name profile.required_files files)
          (apply_to s (env_path_of name) name profile)
          (fetch_each-Keeps s name profile.required_files files) (apply_to-Keeps s name profile))
