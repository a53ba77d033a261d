-- ===== src/Commands/Manifests.antt =====
-- internal/commands/executor.go: the manifests of the orchestrators that run, by the ID of the command.
pub mod Active
use mantlerd.Base.{
  Bool, true, false, not, String, List, [], ◌∷◌, ◌++◌, Option, none, some, elem, str_eq, trim_space,
  if◌then◌else◌,
}
use mantlerd.Base.Dict.{Dict, put, delete}
use mantlerd.Manifest.Plan.{ManifestModel}

-- A manifest that may be nil, by its models.
abbrev pub Manifests : Type 0
Manifests = Dict (Option (List ManifestModel))

unfoldable pub register_manifest : String → Option (List ManifestModel) → Manifests → Manifests
register_manifest command_id none manifests = manifests
register_manifest command_id (some models) manifests =
    if str_eq (trim_space command_id) "" then manifests else put command_id (some models) manifests

unfoldable pub unregister_manifest : String → Manifests → Manifests
unregister_manifest command_id manifests =
    if str_eq (trim_space command_id) "" then manifests else delete command_id manifests

-- Whether a model is on this machine and is not yet in the result.
abbrev pub is_new : String → ManifestModel → List String → Bool
is_new local_machine_id model result =
    if not (str_eq model.source "machine")
    then false
    else if not (str_eq (trim_space model.machine_id) (trim_space local_machine_id))
    then false
    else if str_eq (trim_space model.size.model_id) ""
    then false
    else not (elem (trim_space model.size.model_id) result)

-- The inner loop of ActiveManifestModelIDs, with the result so far.
unfoldable pub add_active : String → List ManifestModel → List String → List String
add_active local_machine_id [] result = result
add_active local_machine_id (model ∷ models) result = add_active local_machine_id models (
    if is_new local_machine_id model result
    then result ++ trim_space model.size.model_id ∷ []
    else result)

unfoldable pub collect_active : String → Manifests → List String → List String
collect_active local_machine_id [] result = result
collect_active local_machine_id ((command_id, none) ∷ manifests) result =
    collect_active local_machine_id manifests result
collect_active local_machine_id ((command_id, some models) ∷ manifests) result =
    collect_active local_machine_id manifests (add_active local_machine_id models result)

unfoldable pub active_manifest_model_ids : String → Manifests → List String
active_manifest_model_ids local_machine_id manifests = collect_active local_machine_id manifests []
