-- ===== src/Commands/Manifests/Active.antt =====
-- ActiveManifestModelIDs.
use mantlerd.Base.{
  ◌≡◌, refl, ap, subst, inl, inr, true, false, String, List, [], ◌∷◌, ◌++◌, Memᴰ, Memᴰ-append_left,
  Memᴰ-append_right, none, some, elem, elem-Memᴰ, str_eq, trim_space, Bool-cases, if-holds, arith,
  if◌then◌else◌,
}
use mantlerd.Manifest.Plan.{ManifestModel, is_local}
use mantlerd.Commands.Manifests.{
  Manifests, is_new, add_active, collect_active, active_manifest_model_ids,
}

abbrev id_of : ManifestModel → String
id_of model = trim_space model.size.model_id

module _ (local_machine_id : String) where
  abbrev step_active : ManifestModel → List String → List String
  step_active model result =
      if is_new local_machine_id model result then result ++ id_of model ∷ [] else result

  step_active-keeps :
      {s : String} (model : ManifestModel) (result : List String)
      → Memᴰ s result
      → Memᴰ s (step_active model result)
  step_active-keeps {s} model result k =
      if-holds (Memᴰ s) (is_new local_machine_id model result)
        (λ e. Memᴰ-append_left (id_of model ∷ []) k) (λ e. k)

  step_active-adds :
      (model : ManifestModel) (result : List String)
      → is_local local_machine_id model ≡ true
      → str_eq (id_of model) "" ≡ false
      → Memᴰ (id_of model) (step_active model result)
  step_active-adds model result here named = elim (Bool-cases (elem (id_of model) result)) [
    | inl old ↦ step_active-keeps model result (elem-Memᴰ (id_of model) result old)
    | inr new ↦
        let e : is_new local_machine_id model result ≡ true = ground arith in
        rw e (Memᴰ-append_right result (Memᴰ.head refl))
  ]

  add_active-keeps :
      {s : String} (models : List ManifestModel) (result : List String)
      → Memᴰ s result
      → Memᴰ s (add_active local_machine_id models result)
  unfolding add_active
  add_active-keeps [] result k = k
  add_active-keeps (model ∷ models) result k =
      add_active-keeps models _ (step_active-keeps model result k)

  add_active-adds :
      {model : ManifestModel} (models : List ManifestModel) (result : List String)
      → Memᴰ model models
      → is_local local_machine_id model ≡ true
      → str_eq (id_of model) "" ≡ false
      → Memᴰ (id_of model) (add_active local_machine_id models result)
  unfolding add_active
  add_active-adds [] result m here named = elim m [ ]
  add_active-adds {model} (other ∷ models) result (Memᴰ.head e) here named =
      add_active-keeps models _ (
        subst (λ x. Memᴰ (id_of model) (step_active x result)) e
          (step_active-adds model result here named))
  add_active-adds (other ∷ models) result (Memᴰ.tail m) here named =
      add_active-adds models _ m here named

  collect_active-keeps :
      {s : String} (manifests : Manifests) (result : List String)
      → Memᴰ s result
      → Memᴰ s (collect_active local_machine_id manifests result)
  unfolding collect_active
  collect_active-keeps [] result k = k
  collect_active-keeps ((id, none) ∷ manifests) result k = collect_active-keeps manifests result k
  collect_active-keeps ((id, some models) ∷ manifests) result k =
      collect_active-keeps manifests _ (add_active-keeps models result k)

  collect_active-adds :
      {id : String} {models : List ManifestModel} {model : ManifestModel} (manifests : Manifests)
      (result : List String)
      → Memᴰ (id, some models) manifests
      → Memᴰ model models
      → is_local local_machine_id model ≡ true
      → str_eq (id_of model) "" ≡ false
      → Memᴰ (id_of model) (collect_active local_machine_id manifests result)
  unfolding collect_active
  collect_active-adds [] result k m here named = elim k [ ]
  collect_active-adds ((i, none) ∷ manifests) result (Memᴰ.head e) m here named =
      absurd (let q = ap (λ p. p.1) e in cc q)
  collect_active-adds ((i, none) ∷ manifests) result (Memᴰ.tail k) m here named =
      collect_active-adds manifests result k m here named
  collect_active-adds {models = ms} {model = x} ((i, some others) ∷ manifests) result (Memᴰ.head e)
        m here named =
      let q : ms ≡ others = let p = ap (λ p. p.1) e in cc p in
      collect_active-keeps manifests _
        (add_active-adds others result (subst (λ l. Memᴰ x l) q m) here named)
  collect_active-adds ((i, some others) ∷ manifests) result (Memᴰ.tail k) m here named =
      collect_active-adds manifests _ k m here named

  -- The list has every model on this machine of every manifest that is registered.
  pub active-Memᴰ :
      {id : String} {models : List ManifestModel} {model : ManifestModel} (manifests : Manifests)
      → Memᴰ (id, some models) manifests
      → Memᴰ model models
      → is_local local_machine_id model ≡ true
      → str_eq (trim_space model.size.model_id) "" ≡ false
      → Memᴰ (trim_space model.size.model_id) (active_manifest_model_ids local_machine_id manifests)
  unfolding active_manifest_model_ids
  active-Memᴰ manifests k m here named = collect_active-adds manifests [] k m here named
