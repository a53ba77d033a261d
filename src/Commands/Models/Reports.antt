-- ===== src/Commands/Models/Reports.antt =====
-- What is reported of a model that a command starts or stops.
use mathlib.Core.Option
use mantlerd.Base.{
  ◌≡◌, refl, ◌∙◌, ap, ◌⊎◌, inl, inr, true, false, String, [], ◌∷◌, map, Option, none, some, str_eq,
  trim_space,
}
use mantlerd.Pipeline.Value.{Members}
use mantlerd.Explore.Files.{Files}
use mantlerd.Runtime.Driver.{Error}
use mantlerd.Runtime.Manager.{
  Manager, set_active_context, clear_active_context, stop_model_with_runtime,
}
use mantlerd.Runtime.Start.{OutcomeEvent, event_type_of, fill, start_model_with_runtime}
use mantlerd.Runtime.Start.Outcomes.{start-ReportsOnce}
use mantlerd.Commands.Params.{
  ParamError, Parsed, parsed, wrong, string_param, optional_string_param, model_feature_flags_param,
}
use mantlerd.Commands.Profile.{ProfileError}
use mantlerd.Commands.Models.{
  CommandError, bad_param, bad_environment, from_runtime, Reported, Services, Handled, ended,
  with_text, with_change, runtime_param, apply_profile_param, apply_cluster_params, from_manager,
  start_in_context, start_model, stop_event_type, emit, stop_report, stop_model,
}

-- The type of the event of a start that returned this error.
abbrev pub start_event_type : Option CommandError → String
start_event_type none = "startup_success"
start_event_type (some e) = "startup_failure"

start_event_type_of :
    (e : Option Error) → event_type_of e ≡ start_event_type (Option.map from_runtime e)
start_event_type_of none = refl
start_event_type_of (some e) = refl

module _ {W : Type 0} (s : Services W) (m : Manager W) (params : Members) where
  -- A host that differs from `w` in what was written to files.
  pub data OnlyFiles (w : W) : W → Type 0 where
    same : OnlyFiles w w
    rewritten : {v : W} → (files : Files) → OnlyFiles w v → OnlyFiles w (s.with_files files v)

  -- The command was refused before the manager was asked: nothing is reported, and the error is one of a
  -- parameter or of the files.
  pub record IsRefused (w : W) (r : Handled W) : Type 0 where
    pub manager : r.manager ≡ m
    pub world : OnlyFiles w r.world
    pub silent : r.reported ≡ []
    pub error :
        ((e : ParamError) × (r.error ≡ some (bad_param e)))
        ⊎ ((e : ProfileError) × (r.error ≡ some (bad_environment e)))

  -- One outcome, of the type that belongs to the error, under the command's plan and fingerprint; and the
  -- manager has no plan any more.
  pub record IsReported (r : Handled W) : Type 0 where
    pub event : OutcomeEvent
    pub only : r.reported ≡ from_manager s m params event ∷ []
    pub kind : event.event_type ≡ start_event_type r.error
    pub plan : event.plan_id ≡ trim_space (optional_string_param params "compatibilityPlanId")
    pub fingerprint :
        event.mantle_fingerprint ≡ trim_space (optional_string_param params "mantleFingerprint")
    pub manager : r.manager ≡ clear_active_context m

  abbrev pub IsAccounted : W → Handled W → Type 0
  IsAccounted w r = IsRefused w r ⊎ IsReported r

  with_text-IsAccounted :
      (w : W) (p : Parsed String) (next : String → Handled W)
      → ((x : String) → IsAccounted w (next x))
      → IsAccounted w (with_text m w p next)
  with_text-IsAccounted w (parsed x) next h = h x
  with_text-IsAccounted w (wrong e) next h =
      inl (record { manager = refl; world = same; silent = refl; error = inl (e, refl) })

  with_change-IsAccounted :
      (change : Files → Files × Option ProfileError) (w v : W) (next : W → Handled W)
      → OnlyFiles w v
      → ((v' : W) → OnlyFiles w v' → IsAccounted w (next v'))
      → IsAccounted w (with_change s m params change v next)
  with_change-IsAccounted change w v next o h = changed (change (s.files_of v))
    where
      changed :
          (r : Files × Option ProfileError)
          → IsAccounted w (elim r.1 [
            | none ↦ next (s.with_files r.0 v)
            | some x ↦ ended m (s.with_files r.0 v) (some (bad_environment x))
          ])
      changed (files, none) = h (s.with_files files v) (rewritten files o)
      changed (files, some e) = inl (record {
        manager = refl;
        world = rewritten files o;
        silent = refl;
        error = inr (e, refl);
      })

  module _ (reports : m.reports ≡ true) where
    in_context-IsReported :
        (model_id : String) (w : W) → IsReported (start_in_context s m params model_id w)
    unfolding start_in_context set_active_context clear_active_context
    in_context-IsReported model_id w =
        let active =
          set_active_context m (optional_string_param params "compatibilityPlanId")
            (optional_string_param params "mantleFingerprint") in
        let started =
          start_model_with_runtime s.surroundings active model_id (runtime_param s m params)
            (model_feature_flags_param params) w in
        let once =
          start-ReportsOnce s.surroundings active reports model_id (runtime_param s m params)
            (model_feature_flags_param params) w in
        record {
          event = once.event;
          only = ap (map (from_manager s m params)) once.only;
          kind = once.kind ∙ start_event_type_of started.error;
          plan = once.plan;
          fingerprint = once.fingerprint;
          manager = refl;
        }

    -- While the manager has a reporter, start_model ends in one of two ways. Either it is refused for a
    -- parameter or a file, and then no driver was called, nothing is reported and the manager is as before.
    -- Or exactly one outcome is reported, a success exactly if no error is returned, under the plan and the
    -- fingerprint of the command, and no plan is active behind it.
    pub start_model-IsAccounted : (w : W) → IsAccounted w (start_model s m params w)
    unfolding start_model
    start_model-IsAccounted w =
        let clustered = λ (x : String) (v : W).
          with_change s m params (apply_cluster_params s m params) v
            (start_in_context s m params x) in
        with_text-IsAccounted w (string_param params "modelId")
          (λ x. with_change s m params (apply_profile_param s m params) w (clustered x))
          λ x.
            with_change-IsAccounted (apply_profile_param s m params) w w (clustered x) same λ v o.
              with_change-IsAccounted (apply_cluster_params s m params) w v
                (start_in_context s m params x) o λ v' o'. inr (in_context-IsReported x v')

  event_type-not_blank : (e : Option Error) → str_eq (trim_space (stop_event_type e)) "" ≡ false
  unfolding trim_space
  event_type-not_blank none = refl
  event_type-not_blank (some e) = refl

  -- A stop that was not refused for its parameter: one outcome under the command's plan, and a success exactly
  -- if the manager's stop returned no error.
  abbrev pub IsStopped : W → Handled W → Type 0
  IsStopped w r =
      (event : Reported) × (e : Option Error) × (r.reported ≡ event ∷ [])
      × (event.event.event_type ≡ stop_event_type e)
      × (r.error ≡ Option.map from_runtime e)
      × (event.event.plan_id ≡ optional_string_param params "compatibilityPlanId")
      × (event.base_fingerprint ≡ optional_string_param params "baseFingerprint")

  -- While the executor has a callback, stop_model is refused for its parameter, or reports exactly one outcome.
  stop_model-IsStopped :
      s.reports ≡ true
      → (w : W) → IsRefused w (stop_model s m params w) ⊎ IsStopped w (stop_model s m params w)
  unfolding stop_model emit
  stop_model-IsStopped reports w = read (string_param params "modelId")
    where
      stopped : String → Handled W
      stopped model_id =
          let r = stop_model_with_runtime m model_id (runtime_param s m params) w in
          record {
            manager = m;
            world = r.0;
            reported = emit s m params (stop_report s m params w r) r.0;
            error = Option.map from_runtime r.1;
          }

      read :
          (p : Parsed String)
          → IsRefused w (with_text m w p stopped) ⊎ IsStopped w (with_text m w p stopped)
      read (wrong e) =
          inl (record { manager = refl; world = same; silent = refl; error = inl (e, refl) })
      read (parsed model_id) =
          let r = stop_model_with_runtime m model_id (runtime_param s m params) w in
          let told = stop_report s m params w r in
          inr (
            record told {
              event = record told.event {
                timestamp = fill told.event.timestamp (s.surroundings.now_text r.0);
              };
            },
            r.1,
            rw (reports, event_type-not_blank r.1),
            refl,
            refl,
            refl,
            refl,
          )
