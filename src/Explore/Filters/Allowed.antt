-- ===== src/Explore/Filters/Allowed.antt =====
-- What the filters of a runtime plan keep.
use mantlerd.Base.{
  ◌≡◌, refl, sym, ◌∙◌, subst, inl, inr, true, String, List, [], ◌∷◌, Memᴰ, none, some, str_eq,
  eq_iff, trim_space, Bool-cases, if-holds,
}
use mantlerd.Base.Dict.{Dict, lookup, put, lookup-put}
use mantlerd.Explore.Filters.{
  arg_prefixes, env_prefixes, is_allowed, filter_args, filter_runtime_plan_args, is_allowed_key,
  filter_env, filter_runtime_plan_env,
}

filter_args_sound :
    (prefixes args : List String) {s : String}
    → Memᴰ s (filter_args prefixes args)
    → is_allowed prefixes s ≡ true
unfolding filter_args
filter_args_sound prefixes [] k = elim k [ ]
filter_args_sound prefixes (arg ∷ args) {s} k =
    elim (Bool-cases (is_allowed prefixes (trim_space arg))) [
      | inl e ↦ go e (filter_args_sound prefixes args) (rw e at k)
      | inr e ↦ filter_args_sound prefixes args (rw e at k)
    ]
  where
    go :
        is_allowed prefixes (trim_space arg) ≡ true
        → (Memᴰ s (filter_args prefixes args) → is_allowed prefixes s ≡ true)
        → Memᴰ s (trim_space arg ∷ filter_args prefixes args)
        → is_allowed prefixes s ≡ true
    go e later (Memᴰ.head q) = subst (λ x. is_allowed prefixes x ≡ true) (sym q) e
    go e later (Memᴰ.tail m) = later m

-- An argument that is kept begins with a prefix that the runtime allows.
pub filter_runtime_plan_args_sound :
    (runtime : String) (args : List String) {s : String}
    → Memᴰ s (filter_runtime_plan_args runtime args)
    → is_allowed (arg_prefixes runtime) s ≡ true
unfolding filter_runtime_plan_args
filter_runtime_plan_args_sound runtime args k = filter_args_sound (arg_prefixes runtime) args k

-- Every key under which something is found is allowed.
abbrev AllowsOnly : List String → Dict String → Type 0
AllowsOnly prefixes env =
    (key value : String) → lookup key env ≡ some value → is_allowed_key prefixes key ≡ true

put-AllowsOnly :
    (prefixes : List String) (key value : String) (env : Dict String)
    → is_allowed_key prefixes key ≡ true
    → AllowsOnly prefixes env
    → AllowsOnly prefixes (put key value env)
put-AllowsOnly prefixes key value env e h other found q = elim (Bool-cases (str_eq key other)) [
  | inl same ↦ subst (λ x. is_allowed_key prefixes x ≡ true) ((eq_iff key other).0 same) e
  | inr apart ↦
      let p : lookup other (put key value env) ≡ lookup other env =
        rw (lookup-put key other value env, apart) refl in
      h other found (sym p ∙ q)
]

filter_env-AllowsOnly :
    (prefixes : List String) (env filtered : Dict String)
    → AllowsOnly prefixes filtered
    → AllowsOnly prefixes (filter_env prefixes env filtered)
unfolding filter_env
filter_env-AllowsOnly prefixes [] filtered h = h
filter_env-AllowsOnly prefixes ((key, value) ∷ env) filtered h =
    filter_env-AllowsOnly prefixes env _ (
      if-holds (AllowsOnly prefixes) (is_allowed_key prefixes (trim_space key))
        (λ e. put-AllowsOnly prefixes (trim_space key) (trim_space value) filtered e h) (λ e. h))

-- A variable that is kept has a name that, in capitals, begins with a prefix that the runtime allows.
pub filter_runtime_plan_env-AllowsOnly :
    (runtime : String) (env : Dict String)
    → AllowsOnly (env_prefixes runtime) (filter_runtime_plan_env runtime env)
unfolding filter_runtime_plan_env
filter_runtime_plan_env-AllowsOnly runtime env =
    filter_env-AllowsOnly (env_prefixes runtime) env []
      (λ key value q. absurd (let p : none ≡ some value = unfold lookup in q in cc p))
