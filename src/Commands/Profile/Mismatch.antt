-- ===== src/Commands/Profile/Mismatch.antt =====
-- What becomes of a profile that sets a variable which the filter does not let through.
use mantlerd.Base.{
  ◌≡◌, refl, sym, ◌∙◌, ap, subst, Bool, true, false, ◌||◌, not, String, [], ◌∷◌, Option, none, some,
  Memᴰ, All, has_prefix, str_eq, eq_iff, str_eq_refl, trim_space, to_upper, arith, if-holds,
  &&-eq-true, if◌then◌else◌, join,
}
use mantlerd.Base.Dict.{Dict, lookup, put, keys, lookup-put}
use mantlerd.Explore.Files.{Files, write_file}
use mantlerd.Commands.EnvFile.{or_empty, read_env_file, env_text}
use mantlerd.Commands.EnvFile.RoundTrip.{IsWritable, read-env_text}
use mantlerd.Commands.Profile.{
  RuntimeProfile, ProfileError, not_written, Surface, is_allowed_name, put_filtered, filter_env,
  put_each, is_empty_list, with_profile, and_then, or_then, env_error, env_mismatch, image_error,
  missing_file, verify_applied, apply_env,
}

-- A variable that is named like those of vllm.
abbrev IsOwn : String → Type 0
IsOwn name = has_prefix (to_upper name) "VLLM_" ≡ true

module _ (j : String) (foreign : has_prefix (to_upper j) "VLLM_" ≡ false) where
  lookup-put_own : (k v : String) (m : Dict String) → IsOwn k → lookup j (put k v m) ≡ lookup j m
  lookup-put_own k v m own =
      lookup-put k j v m
      ∙ if-holds (λ o. o ≡ lookup j m) (str_eq k j)
          (λ e. absurd (
            let other = ap (λ t. has_prefix (to_upper t) "VLLM_") ((eq_iff k j).0 e) in
            ground (arith, other, own, foreign)))
          (λ e. refl)

  put_each_own :
      (added values : Dict String)
      → All (λ e. IsOwn e.0) added
      → lookup j (put_each added values) ≡ lookup j values
  put_each_own [] values h = refl
  put_each_own ((k, v) ∷ added) values h =
      put_each_own added (put k v values) h.1 ∙ lookup-put_own k v values h.0

put-All-IsOwn :
    (k v : String) (m : Dict String)
    → IsOwn k
    → All (λ e. IsOwn e.0) m
    → All (λ e. IsOwn e.0) (put k v m)
unfolding put
put-All-IsOwn k v [] own h = (own, tt)
put-All-IsOwn k v ((i, w) ∷ m) own h =
    if-holds (All (λ e. IsOwn e.0)) (str_eq i k) (λ e. (own, h.1))
      (λ e. (h.0, put-All-IsOwn k v m own h.1))

allowed-IsOwn : (name : String) → is_allowed_name "vllm" name ≡ true → IsOwn name
unfolding trim_space to_upper
allowed-IsOwn name h =
    let listed = &&-eq-true (not (str_eq name "")) _ h in
    (&&-eq-true (not (str_eq (to_upper name) "LD_PRELOAD")) _ listed.1).1

put_filtered-All-IsOwn :
    (environment values : Dict String)
    → All (λ e. IsOwn e.0) values
    → All (λ e. IsOwn e.0) (put_filtered "vllm" environment values)
unfolding put_filtered
put_filtered-All-IsOwn [] values h = h
put_filtered-All-IsOwn ((k, v) ∷ environment) values h = put_filtered-All-IsOwn environment _ (
    if-holds (All (λ e. IsOwn e.0)) (is_allowed_name "vllm" (trim_space k))
      (λ e. put-All-IsOwn (trim_space k) (trim_space v) values (allowed-IsOwn (trim_space k) e) h)
      (λ e. h))

-- The values of the profile leave a foreign name as it is.
with_profile-foreign :
    (j : String) (profile : RuntimeProfile) (values : Dict String)
    → has_prefix (to_upper j) "VLLM_" ≡ false
    → lookup j (with_profile "vllm" profile values) ≡ lookup j values
unfolding with_profile filter_env to_upper has_prefix
with_profile-foreign j profile values foreign =
    let image = trim_space profile.container_image in
    let args = trim_space (join " " profile.extra_args) in
    let imaged = if str_eq image "" then values else put "VLLM_CONTAINER_IMAGE" image values in
    put_each_own j foreign (put_filtered "vllm" profile.environment []) _
      (put_filtered-All-IsOwn profile.environment [] tt)
    ∙ if-holds (λ m. lookup j m ≡ lookup j values) (is_empty_list profile.extra_args)
        (λ e. with_image)
        (λ e. lookup-put_own j foreign "VLLM_EXTRA_ARGS" args imaged refl ∙ with_image)
  where
    with_image :
        lookup j (
          if str_eq (trim_space profile.container_image) ""
          then values
          else put "VLLM_CONTAINER_IMAGE" (trim_space profile.container_image) values)
        ≡ lookup j values
    with_image =
        if-holds (λ m. lookup j m ≡ lookup j values)
          (str_eq (trim_space profile.container_image) "") (λ e. refl)
          (λ e.
            lookup-put_own j foreign "VLLM_CONTAINER_IMAGE" (trim_space profile.container_image)
              values refl)

-- A variable whose value is another one makes the test of the environment fail.
env_error-some :
    (environment values : Dict String) (k v : String)
    → Memᴰ (k, v) environment
    → str_eq (trim_space k) "" ≡ false
    → str_eq (trim_space (or_empty (lookup (trim_space k) values))) (trim_space v) ≡ false
    → (e : ProfileError) × (env_error environment values ≡ some e)
unfolding env_error
env_error-some [] values k v m h d = elim m [ ]
env_error-some ((i, w) ∷ environment) values k v (Memᴰ.head q) h d =
    let test : String × String → Bool = λ p.
      str_eq (trim_space p.0) ""
      || str_eq (trim_space (or_empty (lookup (trim_space p.0) values))) (trim_space p.1) in
    let fails : test (i, w) ≡ false = sym (ap test q) ∙ rw (h, d) refl in
    (env_mismatch i, rw fails refl)
env_error-some ((i, w) ∷ environment) values k v (Memᴰ.tail m) h d =
    if-holds (λ o. (e : ProfileError) × (o ≡ some e))
      (str_eq (trim_space i) ""
        || str_eq (trim_space (or_empty (lookup (trim_space i) values))) (trim_space w))
      (λ e. env_error-some environment values k v m h d) (λ e. (env_mismatch i, refl))

or_then-some :
    (o p : Option ProfileError) (e : ProfileError)
    → p ≡ some e
    → (x : ProfileError) × (or_then o p ≡ some x)
or_then-some none p e h = (e, h)
or_then-some (some x) p e h = (x, refl)

or_then-first : (o p : Option ProfileError) (e : ProfileError) → o ≡ some e → or_then o p ≡ some e
or_then-first none p e h = absurd (ground (arith, h))
or_then-first (some x) p e h = h

and_then-some :
    (files : Files) (o : Option ProfileError) (next : Files → Files × Option ProfileError)
    (e : ProfileError)
    → o ≡ some e
    → (and_then (files, o) next).1 ≡ some e
and_then-some files none next e h = absurd (ground (arith, h))
and_then-some files (some x) next e h = h

verify-refuses :
    (s : Surface) (env_path : String) (profile : RuntimeProfile) (files : Files) (k v : String)
    → Memᴰ (k, v) profile.environment
    → str_eq (trim_space k) "" ≡ false
    → str_eq
        (trim_space (or_empty (lookup (trim_space k) (read_env_file s.quoting (files env_path)))))
        (trim_space v)
      ≡ false
    → (e : ProfileError) × ((verify_applied s env_path "vllm" profile files).1 ≡ some e)
unfolding verify_applied
verify-refuses s env_path profile files k v m named differs =
    let values = read_env_file s.quoting (files env_path) in
    let (e, first) = env_error-some profile.environment values k v m named differs in
    let (x, any) = or_then-some (image_error "vllm" profile values) _ e (
      or_then-first (env_error profile.environment values)
        (missing_file "vllm" profile.required_files files) e first) in
    (x, and_then-some files _ _ x any)

-- Where a profile for vllm has a variable with a name and without the prefix VLLM_, whose value is not the one that the
-- environment file has for this name, and the values to be written can be read back: applying the profile
-- to the environment fails, whatever else the profile says.
pub foreign-IsRefused :
    (s : Surface) (env_path : String) (profile : RuntimeProfile) (files : Files) (k v : String)
    → Memᴰ (k, v) profile.environment
    → str_eq (trim_space k) "" ≡ false
    → has_prefix (to_upper (trim_space k)) "VLLM_" ≡ false
    → str_eq
        (trim_space (or_empty (lookup (trim_space k) (read_env_file s.quoting (files env_path)))))
        (trim_space v)
      ≡ false
    → All
        (IsWritable s.quoting
          (with_profile "vllm" profile (read_env_file s.quoting (files env_path))))
        (keys (with_profile "vllm" profile (read_env_file s.quoting (files env_path))))
    → (e : ProfileError) × ((apply_env s env_path "vllm" profile files).1 ≡ some e)
unfolding apply_env
foreign-IsRefused s env_path profile files k v m named foreign differs writable =
    let old = read_env_file s.quoting (files env_path) in
    let values = with_profile "vllm" profile old in
    let text = env_text s.quoting values in
    if-holds {A = Files × Option ProfileError}
      (λ r.
        (e : ProfileError) × ((and_then r (verify_applied s env_path "vllm" profile)).1 ≡ some e))
      (s.writable env_path)
      (λ w.
        let back : write_file env_path text files env_path ≡ some text =
          ap (λ b. if b then some text else files env_path) (str_eq_refl env_path) in
        let same : lookup (trim_space k)
              (read_env_file s.quoting (write_file env_path text files env_path))
            ≡ lookup (trim_space k) old =
          ap (λ o. lookup (trim_space k) (read_env_file s.quoting o)) back
          ∙ read-env_text s.quoting values writable (trim_space k)
          ∙ with_profile-foreign (trim_space k) profile old foreign in
        verify-refuses s env_path profile (write_file env_path text files) k v m named
          (subst (λ o. str_eq (trim_space (or_empty o)) (trim_space v) ≡ false) (sym same) differs))
      (λ w. (not_written, refl))
