-- ===== src/Agent/Reconcile/Calls.antt =====
-- enforceDesiredConfig as a list of calls.
use mantlerd.Base.{
  ◌≡◌, refl, sym, ap, ◌∙◌, inl, inr, Bool, false, not, String, List, [], ◌∷◌, ◌++◌, none, some, map,
  keep, elem, Bool-cases,
}
use mantlerd.Runtime.Manager.{Manager, ensure_runtime}
use mantlerd.Runtime.Prepare.{prepare_model_with_flags, prepare_model_with_runtime_progress}
use mantlerd.Agent.Reconcile.{
  ModelTarget, DesiredConfig, should_auto_eject_llama_cpp, is_skipped, ensure_each, prepare_targets,
  prepare_models, enforce_desired_config,
}

pub data Call : Type 0 where
  ensuring : String → Call
  preparing : ModelTarget → Call
  preparing_by_id : String → Call

module _ {W : Type 0} (m : Manager W) where
  abbrev pub perform : Call → W → W
  perform (ensuring runtime) w = (ensure_runtime m runtime w).0
  perform (preparing t) w =
      (prepare_model_with_runtime_progress false m t.model_id t.runtime (some t.feature_flags) w).0
  perform (preparing_by_id model) w = (prepare_model_with_flags m model none w).0

  abbrev pub perform_all : List Call → W → W
  perform_all [] w = w
  perform_all (c ∷ cs) w = perform_all cs (perform c w)

  perform_all-append :
      (cs ds : List Call) (w : W) → perform_all (cs ++ ds) w ≡ perform_all ds (perform_all cs w)
  perform_all-append [] ds w = refl
  perform_all-append (c ∷ cs) ds w = perform_all-append cs ds (perform c w)

  -- The runtimes first, then the targets that are not skipped, then the models that no target names.
  abbrev pub calls_for : Bool → DesiredConfig → List Call
  calls_for eject desired =
      map (λ r. ensuring r) desired.runtimes
      ++ map (λ t. preparing t) (keep (λ t. not (is_skipped eject t)) desired.model_targets)
      ++ map (λ s. preparing_by_id s)
          (keep (λ s. not (elem s (map (λ t. t.model_id) desired.model_targets))) desired.models)

  ensure_each-perform :
      (rs : List String) (w : W) → ensure_each m rs w ≡ perform_all (map (λ r. ensuring r) rs) w
  unfolding ensure_each
  ensure_each-perform [] w = refl
  ensure_each-perform (r ∷ rs) w = ensure_each-perform rs (ensure_runtime m r w).0

  prepare_targets-perform :
      (eject : Bool) (ts : List ModelTarget) (w : W)
      → prepare_targets m eject ts w
        ≡ perform_all (map (λ t. preparing t) (keep (λ t. not (is_skipped eject t)) ts)) w
  unfolding prepare_targets
  prepare_targets-perform eject [] w = refl
  prepare_targets-perform eject (t ∷ ts) w = elim (Bool-cases (is_skipped eject t)) [
    | inl e ↦ rw e (prepare_targets-perform eject ts w)
    | inr e ↦ rw e (prepare_targets-perform eject ts (perform (preparing t) w))
  ]

  prepare_models-perform :
      (handled models : List String) (w : W)
      → prepare_models m handled models w
        ≡ perform_all (map (λ s. preparing_by_id s) (keep (λ s. not (elem s handled)) models)) w
  unfolding prepare_models
  prepare_models-perform handled [] w = refl
  prepare_models-perform handled (s ∷ ss) w = elim (Bool-cases (elem s handled)) [
    | inl e ↦ rw e (prepare_models-perform handled ss w)
    | inr e ↦ rw e (prepare_models-perform handled ss (perform (preparing_by_id s) w))
  ]

  -- Whatever fails on the way, enforcing a configuration ensures each of its runtimes, then prepares each of
  -- its targets under its runtime with its flags, but those of llama.cpp unless that is kept warm, and then
  -- each of its models that no target names; in the configuration's order, and nothing else.
  pub enforce-perform :
      (env : String) (desired : DesiredConfig) (w : W)
      → enforce_desired_config m env desired w
        ≡ perform_all (calls_for (should_auto_eject_llama_cpp env) desired) w
  unfolding enforce_desired_config
  enforce-perform env desired w =
      let eject = should_auto_eject_llama_cpp env in
      let handled = map (λ t. t.model_id) desired.model_targets in
      let ensured = map (λ r. ensuring r) desired.runtimes in
      let prepared =
        map (λ t. preparing t) (keep (λ t. not (is_skipped eject t)) desired.model_targets) in
      prepare_models-perform handled desired.models _
      ∙ ap
          (λ v.
            perform_all
              (map (λ s. preparing_by_id s) (keep (λ s. not (elem s handled)) desired.models)) v)
          (prepare_targets-perform eject desired.model_targets _
            ∙ ap (perform_all prepared) (ensure_each-perform desired.runtimes w)
            ∙ sym (perform_all-append ensured prepared w))
      ∙ sym (perform_all-append (ensured ++ prepared) _ w)
