-- ===== src/Manifest/Plan/Target.antt =====
-- What is loaded after a plan has been carried out.
use mathlib.Core.List.Permᴰ
use mantlerd.Base.{
  ◌≡◌, sym, ap, subst, ◌↔◌, inl, inr, Bool, true, not, String, List, ◌++◌, map, keep, elem, text_le,
  Memᴰ, sort-perm, Memᴰ-perm, keep-Memᴰ, Memᴰ-keep, elem-Memᴰ, Memᴰ-elem, append-Memᴰ,
  Memᴰ-append_left, Memᴰ-append_right, Bool-cases, trim_space, map-Memᴰ, Memᴰ-map, eq_iff, arith,
}
use mantlerd.Manifest.Memory.{Floats}
use mantlerd.Manifest.Plan.{
  ManifestModel, MemorySnapshot, LoadPlan, id_of, is_local, desired_models, desired_ids, is_missing,
  is_unwanted, eject_ids, load_ids, plan_of, plan_model_loading_with_snapshot,
}

-- The IDs that are loaded once the plan's models have been ejected and loaded.
abbrev pub loaded_after : LoadPlan → List String → List String
loaded_after plan loaded =
    map trim_space (keep (λ id. not (elem id plan.eject_model_ids)) loaded) ++ plan.load_model_ids

module _ (desired loaded : List String) where
  eject_ids_iff :
      (id : String)
      → Memᴰ id (eject_ids desired loaded) ↔ (Memᴰ id loaded × (is_unwanted desired id ≡ true))
  unfolding eject_ids
  eject_ids_iff id =
      let p = sort-perm text_le (keep (is_unwanted desired) loaded) in
      (
        λ m. keep-Memᴰ (is_unwanted desired) loaded (Memᴰ-perm p m),
        λ h. Memᴰ-perm (Permᴰ.symm p) (Memᴰ-keep (is_unwanted desired) loaded h.0 h.1),
      )

  load_ids_iff :
      (id : String)
      → Memᴰ id (load_ids desired loaded) ↔ (Memᴰ id desired × (is_missing loaded id ≡ true))
  unfolding load_ids
  load_ids_iff id =
      let p = sort-perm text_le (keep (is_missing loaded) desired) in
      (
        λ m. keep-Memᴰ (is_missing loaded) desired (Memᴰ-perm p m),
        λ h. Memᴰ-perm (Permᴰ.symm p) (Memᴰ-keep (is_missing loaded) desired h.0 h.1),
      )

  abbrev stays : String → Bool
  stays id = not (elem id (eject_ids desired loaded))

  kept_sound : (l : String) → Memᴰ l loaded → stays l ≡ true → Memᴰ (trim_space l) desired
  kept_sound l m s = elim (Bool-cases (elem (trim_space l) desired)) [
    | inl e ↦ elem-Memᴰ (trim_space l) desired e
    | inr e ↦
        let ejected = (eject_ids_iff l).1 (m, ap not e) in
        let listed = Memᴰ-elem l (eject_ids desired loaded) ejected in
        absurd (cc (s, ap not listed))
  ]

  kept_complete : (l : String) → Memᴰ (trim_space l) desired → stays l ≡ true
  kept_complete l d = elim (Bool-cases (elem l (eject_ids desired loaded))) [
    | inr e ↦ ap not e
    | inl e ↦
        let (m, u) = (eject_ids_iff l).0 (elem-Memᴰ l (eject_ids desired loaded) e) in
        absurd (cc (u, ap not (Memᴰ-elem (trim_space l) desired d)))
  ]

  ids_after : List String
  ids_after = map trim_space (keep stays loaded) ++ load_ids desired loaded

  after_sound : (id : String) → Memᴰ id ids_after → Memᴰ id desired
  unfolding ids_after
  after_sound id m =
      elim (append-Memᴰ (map trim_space (keep stays loaded)) (load_ids desired loaded) m) [
        | inl k ↦
            let (l, n, e) = map-Memᴰ trim_space (keep stays loaded) k in
            let (o, s) = keep-Memᴰ stays loaded n in
            subst (λ x. Memᴰ x desired) (sym e) (kept_sound l o s)
        | inr k ↦ ((load_ids_iff id).0 k).0
      ]

  after_complete : (id : String) → Memᴰ id desired → Memᴰ id ids_after
  unfolding ids_after
  after_complete id d = elim (Bool-cases (elem id (map trim_space loaded))) [
    | inr e ↦
        Memᴰ-append_right (map trim_space (keep stays loaded)) ((load_ids_iff id).1 (d, ap not e))
    | inl e ↦
        let (l, m, same) = map-Memᴰ trim_space loaded (elem-Memᴰ id (map trim_space loaded) e) in
        let s = kept_complete l (subst (λ x. Memᴰ x desired) same d) in
        Memᴰ-append_left (load_ids desired loaded) (
          subst (λ x. Memᴰ x (map trim_space (keep stays loaded))) (sym same)
            (Memᴰ-map trim_space (Memᴰ-keep stays loaded m s)))
  ]

-- A model of the manifest with this ID which is of the source `machine` and names this machine.
pub record IsPlaced (models : List ManifestModel) (machine_id id : String) : Type 0 where
  pub model : ManifestModel
  pub listed : Memᴰ model models
  pub source : model.source ≡ "machine"
  pub machine : trim_space model.machine_id ≡ trim_space machine_id
  pub named : model.size.model_id ≡ id

desired_ids_iff :
    (models : List ManifestModel) (machine_id id : String)
    → Memᴰ id (desired_ids models machine_id) ↔ IsPlaced models machine_id id
unfolding desired_models
desired_ids_iff models machine_id id = (
  λ m.
      let (model, among, e) = map-Memᴰ id_of (desired_models models machine_id) m in
      let (listed, local) = keep-Memᴰ (is_local machine_id) models among in
      record {
        model = model;
        listed = listed;
        source = (eq_iff model.source "machine").0 (ground arith);
        machine = (eq_iff (trim_space model.machine_id) (trim_space machine_id)).0 (ground arith);
        named = sym e;
      },
  λ h.
      subst (λ x. Memᴰ x (desired_ids models machine_id)) h.named
        (Memᴰ-map id_of (
          Memᴰ-keep (is_local machine_id) models h.listed (
            let source = (eq_iff h.model.source "machine").1 h.source in
            let machine =
              (eq_iff (trim_space h.model.machine_id) (trim_space machine_id)).1 h.machine in
            ground arith))),
)

-- Once a plan's models have been ejected and loaded, the IDs loaded then, trimmed where they were loaded
-- before, are exactly the IDs of the models of the manifest that have the source `machine` and name this
-- machine, up to white space around its ID.
pub plan-loaded_after :
    (fl : Floats) (models : List ManifestModel) (machine_id : String) (loaded : List String)
    (snapshot : MemorySnapshot) (id : String)
    → Memᴰ id (
        loaded_after (plan_model_loading_with_snapshot fl models machine_id loaded snapshot) loaded)
      ↔ IsPlaced models machine_id id
unfolding plan_model_loading_with_snapshot plan_of ids_after
plan-loaded_after fl models machine_id loaded snapshot id =
    let (sound, complete) = desired_ids_iff models machine_id id in
    (
      λ m. sound (after_sound (desired_ids models machine_id) loaded id m),
      λ h. after_complete (desired_ids models machine_id) loaded id (complete h),
    )
