-- ===== src/Agent/Reconcile/Removals.antt =====
-- What reconcileStaleModels removes.
use mantlerd.Base.{
  ◌≡◌, refl, sym, ap, subst, ◌⊎◌, inl, inr, Bool, true, false, ◌&&◌, not, String, List, [], ◌∷◌,
  ◌++◌, map, keep, Memᴰ, Memᴰ-map, map-Memᴰ, Memᴰ-keep, keep-Memᴰ, append-Memᴰ, Memᴰ-append_left,
  Memᴰ-append_right, Memᴰ-elem, str_eq, trim_space, Bool-cases, arith,
}
use mantlerd.Runtime.Driver.{Driver, Result, ok, err}
use mantlerd.Runtime.Manager.{Manager, driver_for, installed_runtimes, remove_model_with_runtime}
use mantlerd.Agent.Reconcile.{
  ModelTarget, DesiredConfig, should_auto_eject_llama_cpp, trimmed_set, Wanted, wanted, is_stale,
  Reconciled, reconcile_models, reconcile_runtimes, reconcile_stale_models,
}

Memᴰ-trimmed_set :
    {s : String} (xs : List String)
    → Memᴰ s xs
    → str_eq (trim_space s) "" ≡ false
    → Memᴰ (trim_space s) (trimmed_set xs)
unfolding trimmed_set
Memᴰ-trimmed_set xs k named =
    Memᴰ-keep (λ s. not (str_eq s "")) (map (λ s. trim_space s) xs) (Memᴰ-map (λ s. trim_space s) k)
      (ap not named)

-- What holds of a model that is removed, by the runtime and the model's trimmed ID.
pub record IsRemovable (eject : Bool) (k : Wanted) (runtime model : String) : Type 0 where
  pub named : str_eq model "" ≡ false
  pub unprotected : ¬ Memᴰ model k.protected
  pub undesired : ((eject && str_eq runtime "llamacpp") ≡ true) ⊎ (¬ Memᴰ model k.desired_global)

is_stale-IsRemovable :
    (eject : Bool) (k : Wanted) (runtime model : String)
    → is_stale eject k runtime model ≡ true
    → IsRemovable eject k runtime model
unfolding is_stale
is_stale-IsRemovable eject k runtime model h = record {
  named = ground arith;
  unprotected = λ m. let e = Memᴰ-elem model k.protected m in ground arith;
  undesired = elim (Bool-cases (eject && str_eq runtime "llamacpp")) [
    | inl e ↦ inl e
    | inr e ↦ inr (λ m. let f = Memᴰ-elem model k.desired_global m in ground arith)
  ];
}

module _ {W : Type 0} (m : Manager W) where
  -- Of the models that a runtime lists, reconcileStaleModels tries to remove those that are stale, in the
  -- order of the list, also after failures.
  pub reconcile_models-removed :
      (eject : Bool) (k : Wanted) (runtime : String) (models : List String) (w : W)
      → (reconcile_models m eject k runtime models w).removed
        ≡ map (λ s. (runtime, s)) (keep (is_stale eject k runtime) (map (λ s. trim_space s) models))
  unfolding reconcile_models
  reconcile_models-removed eject k runtime [] w = refl
  reconcile_models-removed eject k runtime (model ∷ models) w =
      elim (Bool-cases (is_stale eject k runtime (trim_space model))) [
        | inl e ↦ rw e (
            ap (λ l. (runtime, trim_space model) ∷ l)
              (reconcile_models-removed eject k runtime models
                (remove_model_with_runtime m (trim_space model) runtime w).0))
        | inr e ↦ rw e (reconcile_models-removed eject k runtime models w)
      ]

  reconcile_models-IsRemovable :
      (eject : Bool) (k : Wanted) (runtime : String) (models : List String) (w : W) {r s : String}
      → Memᴰ (r, s) (reconcile_models m eject k runtime models w).removed
      → (r ≡ runtime) × IsRemovable eject k r s
  reconcile_models-IsRemovable eject k runtime models w {r} {s} i =
      let (x, j, e) =
        map-Memᴰ (λ s. (runtime, s))
          (keep (is_stale eject k runtime) (map (λ s. trim_space s) models))
          (subst (λ l. Memᴰ (r, s) l) (reconcile_models-removed eject k runtime models w) i) in
      let (_, stale) = keep-Memᴰ (is_stale eject k runtime) (map (λ s. trim_space s) models) j in
      (
        ap (λ p. p.0) e,
        subst (λ p. IsRemovable eject k p.0 p.1) (sym e)
            (is_stale-IsRemovable eject k runtime x stale),
      )

  pub reconcile_runtimes-IsRemovable :
      (eject : Bool) (k : Wanted) (runtimes : List String) (w : W) {r s : String}
      → Memᴰ (r, s) (reconcile_runtimes m eject k runtimes w).removed
      → Memᴰ r runtimes × IsRemovable eject k r s
  unfolding reconcile_runtimes
  reconcile_runtimes-IsRemovable eject k [] w i = elim i [ ]
  reconcile_runtimes-IsRemovable eject k (runtime ∷ runtimes) w {r} {s} i =
      go
        (λ w' j.
          let (a, b) = reconcile_runtimes-IsRemovable eject k runtimes w' j in (Memᴰ.tail a, b))
        (driver_for m runtime) i
    where
      after : Result (Driver W) → Reconciled W
      after o = elim o [
        | err e ↦ reconcile_runtimes m eject k runtimes w
        | ok d ↦
            let here = reconcile_models m eject k runtime (d.list_models w) w in
            let rest = reconcile_runtimes m eject k runtimes here.world in
            record { world = rest.world; removed = here.removed ++ rest.removed }
      ]

      go :
          ((w' : W)
            → Memᴰ (r, s) (reconcile_runtimes m eject k runtimes w').removed
            → Memᴰ r (runtime ∷ runtimes) × IsRemovable eject k r s)
          → (o : Result (Driver W)) → Memᴰ (r, s) (after o).removed
          → Memᴰ r (runtime ∷ runtimes) × IsRemovable eject k r s
      go later (err e) j = later w j
      go later (ok d) j =
          let here = reconcile_models m eject k runtime (d.list_models w) w in
          elim (append-Memᴰ here.removed _ j) [
            | inl first ↦
                let (a, b) =
                  reconcile_models-IsRemovable eject k runtime (d.list_models w) w first in
                (Memᴰ.head a, b)
            | inr second ↦ later here.world second
          ]

  abbrev pub IsKept : DesiredConfig → List String → String → String → Bool → Type 0
  IsKept desired protected r s eject =
      ((p : String) → Memᴰ p protected → ¬ (s ≡ trim_space p))
      × (((eject && str_eq r "llamacpp") ≡ true)
          ⊎ (((t : ModelTarget) → Memᴰ t desired.model_targets → ¬ (s ≡ trim_space t.model_id))
              × ((p : String) → Memᴰ p desired.models → ¬ (s ≡ trim_space p))))

  -- The reconciliation only tries to remove a model from an installed runtime. It never tries to remove a
  -- protected model; and a model that the configuration wants, as a target or by its ID, it tries to remove
  -- only from llama.cpp, and only where that is not kept warm.
  pub reconcile-IsKept :
      (env : String) (desired : DesiredConfig) (protected : List String) (w : W) (r s : String)
      → Memᴰ (r, s) (reconcile_stale_models m env desired protected w).removed
      → Memᴰ r (installed_runtimes m w)
        × IsKept desired protected r s (should_auto_eject_llama_cpp env)
  unfolding reconcile_stale_models wanted
  reconcile-IsKept env desired protected w r s i =
      let eject = should_auto_eject_llama_cpp env in
      let (a, v) =
        reconcile_runtimes-IsRemovable eject (wanted desired protected) (installed_runtimes m w) w
          i in
      let ids = map (λ t. t.model_id) desired.model_targets in
      let named : (p : String) → s ≡ trim_space p → str_eq (trim_space p) "" ≡ false =
        λ p e. subst (λ x. str_eq x "" ≡ false) e v.named in
      (
        a,
        (
          λ p j e. v.unprotected (
              subst (λ x. Memᴰ x (trimmed_set protected)) (sym e)
                (Memᴰ-trimmed_set protected j (named p e))),
          elim v.undesired [
            | inl ejected ↦ inl ejected
            | inr unwanted ↦ inr (
              λ t j e. unwanted (
                  subst (λ x. Memᴰ x (trimmed_set ids ++ trimmed_set desired.models)) (sym e)
                    (Memᴰ-append_left (trimmed_set desired.models)
                      (Memᴰ-trimmed_set ids (Memᴰ-map (λ t. t.model_id) j) (named t.model_id e)))),
              λ p j e. unwanted (
                  subst (λ x. Memᴰ x (trimmed_set ids ++ trimmed_set desired.models)) (sym e)
                    (Memᴰ-append_right (trimmed_set ids)
                      (Memᴰ-trimmed_set desired.models j (named p e)))),
            )
          ],
        ),
      )
