-- ===== src/Agent/Reconcile/Active.antt =====
-- cmd/mantler/start.go, runCheckIn: the reconciliation while orchestrators run on this machine.
use mantlerd.Base.{
  ◌≡◌, sym, ◌∙◌, subst, true, false, String, List, Memᴰ, some, str_eq, trim_space, trim_space_idem,
}
use mantlerd.Runtime.Manager.{Manager, installed_runtimes}
use mantlerd.Manifest.Plan.{ManifestModel, is_local}
use mantlerd.Commands.Manifests.{Manifests, active_manifest_model_ids}
use mantlerd.Commands.Manifests.Active.{active-Memᴰ}
use mantlerd.Agent.Reconcile.{
  DesiredConfig, should_auto_eject_llama_cpp, wanted, reconcile_stale_models,
}
use mantlerd.Agent.Reconcile.Removals.{reconcile_runtimes-IsRemovable, reconcile-IsKept}

module _ {W : Type 0} (m : Manager W) where
  reconcile-named :
      (env : String) (desired : DesiredConfig) (protected : List String) (w : W) (r s : String)
      → Memᴰ (r, s) (reconcile_stale_models m env desired protected w).removed
      → str_eq s "" ≡ false
  unfolding reconcile_stale_models
  reconcile-named env desired protected w r s k =
      (reconcile_runtimes-IsRemovable m (should_auto_eject_llama_cpp env) (wanted desired protected)
        (installed_runtimes m w) w k).1.named

  -- While the manifest of a command is registered, the reconciliation of a check-in removes none of the
  -- models that the manifest places on this machine, from any runtime, whatever the server wants.
  pub reconcile-active :
      (env : String) (desired : DesiredConfig) (local_machine_id : String) (manifests : Manifests)
      (w : W) (r s id : String) (models : List ManifestModel) (model : ManifestModel)
      → Memᴰ
          (r, s)
          (reconcile_stale_models m env desired
            (active_manifest_model_ids local_machine_id manifests)
            w).removed
      → Memᴰ (id, some models) manifests
      → Memᴰ model models
      → is_local local_machine_id model ≡ true
      → ¬ (s ≡ trim_space model.size.model_id)
  reconcile-active env desired local_machine_id manifests w r s id models model k registered inside
        here same =
      let ids = active_manifest_model_ids local_machine_id manifests in
      let named = subst (λ x. str_eq x "" ≡ false) same (reconcile-named env desired ids w r s k) in
      let (_, (kept, _)) = reconcile-IsKept m env desired ids w r s k in
      kept (trim_space model.size.model_id)
        (active-Memᴰ local_machine_id manifests registered inside here named)
        (same ∙ sym (trim_space_idem model.size.model_id))
