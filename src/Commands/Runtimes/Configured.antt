-- ===== src/Commands/Runtimes/Configured.antt =====
-- The settings that a runtime is installed or restarted with.
use mathlib.Core.Option
use mantlerd.Base.{
  ◌≡◌, refl, ◌∙◌, ap, subst, ◌⊎◌, inl, inr, Bool, true, false, String, Option, none, some, str_eq,
  eq_iff, str_eq_refl, Bool-cases, if-holds, if◌then◌else◌, to_lower,
}
use mantlerd.Explore.Files.{Files, write_file}
use mantlerd.Pipeline.Value.{Members}
use mantlerd.Runtime.Driver.{Error, Step}
use mantlerd.Runtime.Manager.{Manager, normalize, install_runtime}
use mantlerd.Commands.Params.{Parsed, parsed, wrong, string_param, optional_string_param}
use mantlerd.Commands.Profile.{ProfileError, not_written}
use mantlerd.Commands.Config.{
  Configured, as_it_is, refused, writes, with_config, configure_llama_cpp, configure_quant_cpp,
}
use mantlerd.Commands.Config.Bounds.{Written, IsLlamaCpp, IsQuantCpp, configure-bounds}
use mantlerd.Commands.Models.{CommandError, bad_environment, from_runtime}
use mantlerd.Commands.VllmEnv.{
  Machine, Call, persisted, persist_overrides, is_bad_mode, set_given, mode_name, image_name,
  with_vllm_runtime_env,
}
use mantlerd.Commands.Runtimes.{
  llama_path, quant_path, Settings, invalid, write_settings, with_llama_cpp_config,
  with_quant_cpp_config, with_settings, manager_call, install_named, install_command,
}

no_error : (e : Option Error) → Option.map from_runtime e ≡ none → e ≡ none
no_error none h = refl
no_error (some e) h = cc

module _ (s : Settings) where
  -- The file of the settings is the one of before, or it holds settings that satisfy a property.
  abbrev pub Holds : {C : Type 0} → (C → Type 0) → String → (C → String) → Files → Files → Type 0
  Holds {C} P path text before files =
      (files ≡ before) ⊎ ((c : C) × P c × (files path ≡ some (text c)))

  -- What the settings of the named runtime satisfy.
  pub data HasSettings (name : String) (before files : Files) : Type 0 where
    llama_cpp :
        str_eq (normalize name) "llamacpp" ≡ true
        → Holds IsLlamaCpp llama_path s.llama_text before files
        → HasSettings name before files
    quant_cpp :
        str_eq (normalize name) "quantcpp" ≡ true
        → Holds IsQuantCpp quant_path s.quant_text before files
        → HasSettings name before files
    another :
        str_eq (normalize name) "llamacpp" ≡ false
        → str_eq (normalize name) "quantcpp" ≡ false
        → HasSettings name before files

module _ {W : Type 0} (s : Settings) where
  -- The call was made without an error, on the same host, where these are the settings.
  pub record IsCalled (name : String) (call : Call W) (m : Machine W) : Type 0 where
    pub seen : Machine W
    pub host : seen.host ≡ m.host
    pub called : (call seen).1 ≡ none
    pub settings : HasSettings s name m.files seen.files

  module _ (call : Call W) (m : Machine W) where
    config-Holds :
        {C : Type 0} (P : C → Type 0) (path : String) (text : C → String) (cfg : Configured C)
        → Written P cfg
        → (with_config invalid (write_settings s path text) cfg call m).1 ≡ none
        → (seen : Machine W) × (seen.host ≡ m.host)
          × ((call seen).1 ≡ none)
          × Holds s P path text m.files seen.files
    config-Holds P path text as_it_is w h = (m, refl, h, inl refl)
    config-Holds P path text (refused name) w h = cc
    config-Holds P path text (writes c) w h = elim (Bool-cases (s.surface.writable path)) [
      | inl e ↦
          let k = subst (λ b. (outcome b).1 ≡ none) e h in
          (record m { files = write_file path (text c) m.files }, refl, k, inr (c, w, at_path))
      | inr e ↦ absurd (let k = subst (λ b. (outcome b).1 ≡ none) e h in cc)
    ]
      where
        stored : Bool → Files × Option ProfileError
        stored b =
            if b then (write_file path (text c) m.files, none) else (m.files, some not_written)

        outcome : Bool → Machine W × Option CommandError
        outcome b =
            with_config invalid
              (λ d n. (record n { files = (stored b).0 }, Option.map bad_environment (stored b).1))
              (writes c) call m

        at_path : write_file path (text c) m.files path ≡ some (text c)
        at_path = rw (str_eq_refl path) refl

    vllm-Called :
        (params : Members)
        → (with_vllm_runtime_env s.surface call params m).1 ≡ none
        → (seen : Machine W) × (seen.host ≡ m.host) × ((call seen).1 ≡ none)
    unfolding with_vllm_runtime_env
    vllm-Called params =
        let mode = to_lower (optional_string_param params "runtimeMode") in
        let image = optional_string_param params "containerImage" in
        let vars = set_given image_name image (set_given mode_name mode m.vars) in
        if-holds
          (λ (r : Machine W × Option CommandError).
            r.1 ≡ none → (seen : Machine W) × (seen.host ≡ m.host) × ((call seen).1 ≡ none))
          (is_bad_mode mode) (λ e h. cc)
          (λ e. settled mode image vars (persist_overrides s.surface mode image m.files))
      where
        settled :
            (mode image : String) (vars : String → Option String) (p : Files × Option ProfileError)
            → (persisted s.surface call mode image m vars p).1 ≡ none
            → (seen : Machine W) × (seen.host ≡ m.host) × ((call seen).1 ≡ none)
        settled mode image vars (files, none) h = (record m { vars = vars; files = files }, refl, h)
        settled mode image vars (files, some e) h = cc

    -- A name has the settings of no other runtime.
    other_runtime :
        (name a b : String)
        → str_eq (normalize name) a ≡ true
        → str_eq a b ≡ false
        → str_eq (normalize name) b ≡ false
    other_runtime name a b h d = ap (λ t. str_eq t b) ((eq_iff (normalize name) a).0 h) ∙ d

    settings-Called :
        (name : String) (params : Members)
        → (with_settings s name params call m).1 ≡ none
        → IsCalled name call m
    unfolding with_settings with_llama_cpp_config with_quant_cpp_config
    settings-Called name params =
        let n = normalize name in
        let bounds =
          configure-bounds s.floats s.num_cpu (s.llama_from (m.files llama_path))
            (s.quant_from (m.files quant_path)) params in
        if-holds Called (str_eq n "vllm")
          (λ v h.
            let (seen, host, called) = vllm-Called params h in
            record {
              seen = seen;
              host = host;
              called = called;
              settings =
                  another (other_runtime name "vllm" "llamacpp" v refl)
                    (other_runtime name "vllm" "quantcpp" v refl);
            })
          (λ v.
            if-holds Called (str_eq n "llamacpp")
              (λ l h.
                let (seen, host, called, holds) =
                  config-Holds IsLlamaCpp llama_path s.llama_text
                    (configure_llama_cpp s.floats (s.llama_from (m.files llama_path)) params)
                    bounds.0 h in
                record { seen = seen; host = host; called = called; settings = llama_cpp l holds })
              (λ l.
                if-holds Called (str_eq n "quantcpp")
                  (λ q h.
                    let (seen, host, called, holds) =
                      config-Holds IsQuantCpp quant_path s.quant_text
                        (configure_quant_cpp s.floats s.num_cpu (s.quant_from (m.files quant_path))
                          params)
                        bounds.1 h in
                    record {
                      seen = seen;
                      host = host;
                      called = called;
                      settings = quant_cpp q holds;
                    })
                  (λ q h. record { seen = m; host = refl; called = h; settings = another l q })))
      where
        Called : Machine W × Option CommandError → Type 0
        Called r = r.1 ≡ none → IsCalled name call m

  module _ (m : Machine W) where
    -- The manager's step was made without an error, on the same host, where these are the settings.
    pub record IsDone (name : String) (step : Step (Machine W)) : Type 0 where
      pub seen : Machine W
      pub host : seen.host ≡ m.host
      pub done : (step seen).1 ≡ none
      pub settings : HasSettings s name m.files seen.files

    called-IsDone :
        (name : String) (step : Step (Machine W))
        → IsCalled name (manager_call s step) m
        → IsDone name step
    called-IsDone name step c = record {
      seen = c.seen;
      host = c.host;
      done = no_error _ c.called;
      settings = c.settings;
    }

    -- An install_runtime that returns no error names a runtime which the manager installed without an error, on
    -- the host of before. Where the runtime is llama.cpp or quant.cpp, the file of its settings was then the
    -- one of before, or it held settings within their bounds.
    pub install-IsDone :
        (mgr : Manager (Machine W)) (params : Members)
        → (install_command s mgr params m).1 ≡ none
        → (name : String) × (string_param params "runtime" ≡ parsed name)
          × IsDone name (install_runtime mgr name)
    unfolding install_command
    install-IsDone mgr params h = read (string_param params "runtime") refl h
      where
        read :
            (p : Parsed String)
            → string_param params "runtime" ≡ p
            → (install_named s mgr params p m).1 ≡ none
            → (name : String) × (string_param params "runtime" ≡ parsed name)
              × IsDone name (install_runtime mgr name)
        read (wrong e) q k = cc
        read (parsed name) q k = (
          name,
          q,
          called-IsDone name (install_runtime mgr name)
              (settings-Called (manager_call s (install_runtime mgr name)) m name params k),
        )
