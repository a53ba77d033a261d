-- ===== src/Commands/VllmEnv/Restored.antt =====
-- The variables of the process after a call.
use mantlerd.Base.{
  ◌≡◌, refl, ◌∙◌, ◌⊎◌, inl, inr, true, String, Option, none, some, str_eq, to_lower, eq_iff, arith,
  ap, if-holds, if◌then◌else◌,
}
use mantlerd.Explore.Files.{Files}
use mantlerd.Pipeline.Value.{Members}
use mantlerd.Commands.Params.{invalid_param, optional_string_param}
use mantlerd.Commands.Profile.{ProfileError, Surface}
use mantlerd.Commands.Models.{CommandError, bad_param, bad_environment}
use mantlerd.Commands.VllmEnv.{
  Vars, Machine, mode_name, image_name, Call, set_given, restore_var, restore_given,
  persist_overrides, is_bad_mode, persisted, with_vllm_runtime_env,
}

-- A variable's value while the call runs.
abbrev pub shown : String → Option String → Option String
shown value before = if str_eq value "" then before else some value

set_given-at :
    (name value q : String) (vars : Vars)
    → set_given name value vars q
      ≡ (if str_eq value "" then vars q else if str_eq q name then some value else vars q)
set_given-at name value q vars = ground arith

restore_given-at :
    (name value q : String) (before vars : Vars)
    → restore_given name value before vars q
      ≡ (if str_eq value "" then vars q else if str_eq q name then before q else vars q)
restore_given-at name value q before vars = restored (before name) refl
  where
    restored :
        (o : Option String)
        → before name ≡ o
        → (if str_eq value "" then vars else restore_var name o vars) q
          ≡ (if str_eq value "" then vars q else if str_eq q name then before q else vars q)
    restored none e =
        let here = λ (h : str_eq q name ≡ true). ap before ((eq_iff q name).0 h) ∙ e in
        ground (arith, here)
    restored (some v) e =
        let here = λ (h : str_eq q name ≡ true). ap before ((eq_iff q name).0 h) ∙ e in
        ground (arith, here)

-- Both variables, as they are set and then restored.
restore-set :
    (mode image q : String) (before vars : Vars)
    → vars q ≡ set_given image_name image (set_given mode_name mode before) q
    → restore_given image_name image before (restore_given mode_name mode before vars) q ≡ before q
restore-set mode image q before vars h = ground (
  arith,
  h,
  restore_given-at image_name image q before (restore_given mode_name mode before vars),
  restore_given-at mode_name mode q before vars,
  set_given-at image_name image q (set_given mode_name mode before),
  set_given-at mode_name mode q before,
)

module _ {W : Type 0} (s : Surface) (call : Call W) (params : Members) where
  abbrev mode_given : String
  mode_given = to_lower (optional_string_param params "runtimeMode")

  abbrev image_given : String
  image_given = optional_string_param params "containerImage"

  -- The call was made on a machine that shows it the mode and the image where they are given; what it left and
  -- returned is the result, but that every variable is as it was before.
  pub record IsRestored (m : Machine W) (r : Machine W × Option CommandError) : Type 0 where
    pub seen : Machine W
    pub same_host : seen.host ≡ m.host
    pub mode : seen.vars mode_name ≡ shown mode_given (m.vars mode_name)
    pub image : seen.vars image_name ≡ shown image_given (m.vars image_name)
    pub error : r.1 ≡ (call seen).1
    pub files : r.0.files ≡ (call seen).0.files
    pub host : r.0.host ≡ (call seen).0.host
    pub vars : (q : String) → r.0.vars q ≡ m.vars q

  -- The call was not made: the mode is unknown and nothing changed, or the settings could not be written.
  abbrev pub IsRefused : Machine W → Machine W × Option CommandError → Type 0
  IsRefused m r =
      (r ≡ (m, some (bad_param (invalid_param "runtimeMode"))))
      ⊎ ((e : ProfileError) × (r.1 ≡ some (bad_environment e)) × (r.0.host ≡ m.host))

  module _ (keeps : (m : Machine W) (q : String) → (call m).0.vars q ≡ m.vars q) where
    -- Where the call itself leaves the variables of the process alone, the wrapped call is refused, or it was made
    -- with the mode and the image that are given, and every variable is as it was before.
    pub with_vllm-IsRestored :
        (m : Machine W)
        → IsRefused m (with_vllm_runtime_env s call params m)
          ⊎ IsRestored m (with_vllm_runtime_env s call params m)
    unfolding with_vllm_runtime_env
    with_vllm-IsRestored m =
        if-holds (λ r. IsRefused m r ⊎ IsRestored m r) (is_bad_mode mode_given)
          (λ bad. inl (inl refl))
          (λ good. settled (persist_overrides s mode_given image_given m.files))
      where
        vars : Vars
        vars = set_given image_name image_given (set_given mode_name mode_given m.vars)

        settled :
            (p : Files × Option ProfileError)
            → let r = persisted s call mode_given image_given m vars p in
              IsRefused m r ⊎ IsRestored m r
        settled (files, some e) = inl (inr (e, refl, refl))
        settled (files, none) =
            let seen = record m { vars = vars; files = files } in
            inr (record {
              seen = seen;
              same_host = refl;
              mode = ground (
                arith,
                set_given-at image_name image_given mode_name
                    (set_given mode_name mode_given m.vars),
                set_given-at mode_name mode_given mode_name m.vars,
              );
              image = ground (
                arith,
                set_given-at image_name image_given image_name
                    (set_given mode_name mode_given m.vars),
                set_given-at mode_name mode_given image_name m.vars,
              );
              error = refl;
              files = refl;
              host = refl;
              vars = λ q.
                  restore-set mode_given image_given q m.vars (call seen).0.vars (keeps seen q);
            })
