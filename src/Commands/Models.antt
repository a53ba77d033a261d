-- ===== src/Commands/Models.antt =====
-- internal/commands/executor.go: the commands pull_model, start_model, stop_model and remove_model, over the
-- runtime manager, the environment files and the transfer between machines. The acks of a pull's progress
-- are left out.
pub mod Reports
pub mod Pulls
use mathlib.Core.Option
use mantlerd.Base.{
  ℕ, ◌-◌, Bool, true, not, String, List, [], ◌∷◌, map, Option, none, some, str_eq, trim_space, ◌||◌,
  if◌then◌else◌,
}
use mantlerd.Pipeline.Value.{Members}
use mantlerd.Explore.Files.{Files}
use mantlerd.Runtime.Driver.{Error, Flags}
use mantlerd.Runtime.Manager.{
  Manager, set_active_context, clear_active_context, remove_model_with_runtime,
  stop_model_with_runtime,
}
use mantlerd.Runtime.Prepare.{prepare_model_with_runtime_progress}
use mantlerd.Runtime.Start.{OutcomeEvent, Surroundings, Started, fill, start_model_with_runtime}
use mantlerd.Transfer.Client.{PeerHint, TransferResult}
use mantlerd.Commands.Params.{
  ℤ, Floats, ParamError, Parsed, parsed, wrong, string_param, optional_string_param,
  model_feature_flags_param,
}
use mantlerd.Commands.Profile.{ProfileError, Surface, Decoded, apply_runtime_profile_overrides}
use mantlerd.Commands.Cluster.{apply_distributed_params}

pub data CommandError : Type 0 where
  bad_param : ParamError → CommandError
  bad_environment : ProfileError → CommandError
  from_runtime : Error → CommandError
  -- ErrCommandCancelled
  command_cancelled : CommandError

-- An outcome, with the field that only the executor sets.
pub record Reported : Type 0 where
  pub base_fingerprint : String
  pub event : OutcomeEvent

-- What the executor has beside the manager.
pub record Services (W : Type 0) : Type 0 where
  pub surroundings : Surroundings W
  pub surface : Surface
  pub floats : Floats
  pub itoa : ℤ → String
  -- the files of a host, which the drivers read, too
  pub files_of : W → Files
  pub with_files : Files → W → W
  -- what the JSON of the parameters `runtimeProfile` and `peerHints` stands for
  pub profile_of : Members → Decoded
  pub peers_of : Members → List PeerHint
  -- PullFromPeers, where SetTransferPuller was called
  pub puller : Option (String → String → List PeerHint → W → W × Option TransferResult)
  -- errors.Is(err, context.Canceled)
  pub is_cancelled : Error → Bool
  -- whether an outcome callback was given
  pub reports : Bool

-- The end of a command: the manager and the host then, the outcomes that were reported, and the error.
pub record Handled (W : Type 0) : Type 0 where
  pub manager : Manager W
  pub world : W
  pub reported : List Reported
  pub error : Option CommandError

abbrev pub stop_event_type : Option Error → String
stop_event_type none = "stop_success"
stop_event_type (some e) = "stop_failure"

module _ {W : Type 0} where
  abbrev pub ended : Manager W → W → Option CommandError → Handled W
  ended m w e = record { manager = m; world = w; reported = []; error = e }

  -- `x, err := stringParam(…)`, with the return of an error.
  abbrev pub with_text : Manager W → W → Parsed String → (String → Handled W) → Handled W
  with_text m w (parsed s) next = next s
  with_text m w (wrong e) next = ended m w (some (bad_param e))

module _ {W : Type 0} (s : Services W) (m : Manager W) (params : Members) where
  -- A change of the host's files, with the return of an error.
  abbrev pub with_change : (Files → Files × Option ProfileError) → W → (W → Handled W) → Handled W
  with_change change w next =
      let (files, e) = change (s.files_of w) in
      elim e [
        | none ↦ next (s.with_files files w)
        | some x ↦ ended m (s.with_files files w) (some (bad_environment x))
      ]

  abbrev pub runtime_param : String
  runtime_param = optional_string_param params "runtime"

  abbrev pub apply_profile_param : Files → Files × Option ProfileError
  apply_profile_param =
      apply_runtime_profile_overrides s.surface (s.profile_of params) runtime_param

  abbrev pub apply_cluster_params : Files → Files × Option ProfileError
  apply_cluster_params = apply_distributed_params s.itoa s.floats s.surface params runtime_param

  abbrev pub ask_peers :
      Option (String → String → List PeerHint → W → W × Option TransferResult)
      → String
      → List PeerHint
      → W
      → W × Option TransferResult
  ask_peers none model_id peers w = (w, none)
  ask_peers (some pull) model_id [] w = (w, none)
  ask_peers (some pull) model_id (peer ∷ peers) w = pull model_id runtime_param (peer ∷ peers) w

  abbrev pub pull_error : Error → CommandError
  pull_error e = if s.is_cancelled e then command_cancelled else from_runtime e

  -- PrepareModelWithRuntimeProgressCtx, unless a peer has served the model.
  abbrev pub fetch_model : String → W × Option TransferResult → Handled W
  fetch_model model_id (w, some r) = ended m w none
  fetch_model model_id (w, none) =
      let (w', e) =
        prepare_model_with_runtime_progress true m model_id runtime_param
          (model_feature_flags_param params) w in
      ended m w' (Option.map pull_error e)

  unfoldable pub pull_model : W → Handled W
  pull_model w = with_text m w (string_param params "modelId") λ model_id.
      with_change apply_profile_param w
        λ w'. fetch_model model_id (ask_peers s.puller model_id (s.peers_of params) w')

  abbrev pub from_manager : OutcomeEvent → Reported
  from_manager event = record { base_fingerprint = ""; event = event }

  -- StartModelWithRuntime between SetActiveContext and the deferred ClearActiveContext.
  unfoldable pub start_in_context : String → W → Handled W
  start_in_context model_id w =
      let active =
        set_active_context m (optional_string_param params "compatibilityPlanId")
          (optional_string_param params "mantleFingerprint") in
      let started =
        start_model_with_runtime s.surroundings active model_id runtime_param
          (model_feature_flags_param params) w in
      record {
        manager = clear_active_context active;
        world = started.world;
        reported = map from_manager started.reported;
        error = Option.map from_runtime started.error;
      }

  unfoldable pub start_model : W → Handled W
  start_model w = with_text m w (string_param params "modelId") λ model_id.
      with_change apply_profile_param w
        λ w'. with_change apply_cluster_params w' (start_in_context model_id)

  -- Executor.emitOutcome
  unfoldable pub emit : Reported → W → List Reported
  emit r w =
      if not s.reports || str_eq (trim_space r.event.event_type) ""
      then []
      else record r {
        event = record r.event { timestamp = fill r.event.timestamp (s.surroundings.now_text w) };
      }
        ∷ []

  abbrev pub stop_detail : Option Error → String
  stop_detail none = "model stop succeeded"
  stop_detail (some e) = s.surroundings.error_text e

  abbrev pub stop_report : W → W × Option Error → Reported
  stop_report started (w, e) = record {
    base_fingerprint = optional_string_param params "baseFingerprint";
    event = record {
      plan_id = optional_string_param params "compatibilityPlanId";
      mantle_fingerprint = optional_string_param params "mantleFingerprint";
      event_type = stop_event_type e;
      timestamp = s.surroundings.now_text w;
      duration_ms = s.surroundings.now_ms w - s.surroundings.now_ms started;
      crash_signature = "";
      detail = stop_detail e;
    };
  }

  unfoldable pub stop_model : W → Handled W
  stop_model w = with_text m w (string_param params "modelId") λ model_id.
      let stopped = stop_model_with_runtime m model_id runtime_param w in
      record {
        manager = m;
        world = stopped.0;
        reported = emit (stop_report w stopped) stopped.0;
        error = Option.map from_runtime stopped.1;
      }

  unfoldable pub remove_model : W → Handled W
  remove_model w = with_text m w (string_param params "modelId") λ model_id.
      let removed = remove_model_with_runtime m model_id runtime_param w in
      ended m removed.0 (Option.map from_runtime removed.1)
