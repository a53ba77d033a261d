-- ===== src/Manifest/Preflight/Ready.antt =====
-- What a preflight that is ready has done.
use native.Mathlib.Omega.{arith}
use mantlerd.Base.{
  subst, ◌≡◌, refl, sym, ◌∙◌, ap, true, String, List, ◌∷◌, ◌++◌, map, Option, none, some, if-holds,
}
use mantlerd.Runtime.Manager.{list_models}
use mantlerd.Manifest.Plan.{LoadPlan, MemorySnapshot, plan_model_loading_with_snapshot}
use mantlerd.Manifest.Probe.{Fallible, got, failed}
use mantlerd.Manifest.Preflight.Loops.{
  after_ejecting, Loaded, Brought, carry_out_lem, say_fallback_lem,
}
use mantlerd.Manifest.Preflight.{
  fit_issue, preflight_local, PlacedModel, PreflightResult, Host, Preflight, model_id_of,
  local_manifest_models, carry_out, preflight_of, returned, at_start, run_preflight, estimate_of,
  say_fallback, add_issue,
}

module _ {W : Type 0} (host : Host W) where
  -- The pair that a preflight gives, where it gives a ready result.
  IsBrought :
      List PlacedModel
      → List String
      → LoadPlan
      → W
      → Preflight W × Fallible PreflightResult
      → Type 0
  IsBrought ms present plan w (p, a) =
      (r : PreflightResult)
      → a ≡ got r
      → r.ready ≡ true
      → (r.memory_estimate.fits_in_memory ≡ true) × Brought host ms present plan w r p.world

  got-injective : (a b : PreflightResult) → (Fallible.got a) ≡ got b → a ≡ b
  got-injective a b e = ap (λ f. elim f [ got x ↦ x | failed t ↦ a ]) e

  returned_lem :
      (ms : List PlacedModel) (snapshot : MemorySnapshot) (plan : LoadPlan)
      (run : Preflight W × Option String) (r : PreflightResult)
      → returned host (estimate_of host ms snapshot plan) plan run ≡ got r
      → (run.1 ≡ none)
        × (r.ready ≡ run.0.ready)
        × (r.loaded_models ≡ run.0.loaded)
        × (r.memory_estimate ≡ estimate_of host ms snapshot plan)
  returned_lem ms snapshot plan (p, some e) r h = absurd (ground (arith, h))
  returned_lem ms snapshot plan (p, none) r h =
      let e = got-injective _ r h in
      (
        refl,
        sym (ap (λ x. x.ready) e),
        sym (ap (λ x. x.loaded_models) e),
        sym (ap (λ x. x.memory_estimate) e),
      )

  preflight_of-IsBrought :
      (ms : List PlacedModel) (present : List String) (plan : LoadPlan) (snapshot : MemorySnapshot)
      (query_err : Option String) (w : W)
      → IsBrought ms present plan w (preflight_of host ms present plan snapshot query_err w)
  unfolding preflight_of IsBrought
  preflight_of-IsBrought ms present plan snapshot query_err w =
      let p = say_fallback host plan.memory_source query_err (at_start host w) in
      let (world, none_loaded) = say_fallback_lem host plan.memory_source query_err w in
      if-holds {A = Preflight W × Fallible PreflightResult} (IsBrought ms present plan w)
        (estimate_of host ms snapshot plan).fits_in_memory
        (λ fits r e ready.
          let run = carry_out host plan.eject_model_ids present ms p in
          let (h, same, names, estimate) = returned_lem ms snapshot plan run r e in
          let (v, loads, probes, all) =
            carry_out_lem host plan.eject_model_ids present ms p h (sym same ∙ ready) in
          (
            ap (λ x. x.fits_in_memory) estimate ∙ fits,
            record {
              started_world = v;
              loads =
                  subst (λ u. Loaded host present ms (after_ejecting host plan.eject_model_ids u) v)
                    world loads;
              probes = probes;
              names = names ∙ all ∙ ap (λ l. l ++ map model_id_of ms) none_loaded;
            },
          ))
        (λ full r e ready.
          let refused =
            add_issue host (fit_issue host (estimate_of host ms snapshot plan) plan snapshot) p in
          let (h, same, names, estimate) = returned_lem ms snapshot plan (refused, none) r e in
          absurd (ground (arith, same, ready)))

  -- A preflight that returns a ready result for models of this machine has judged that they fit, and has
  -- asked each model of the plan's ejections to stop; then each of the machine's models, in order, was
  -- listed before or was started without an error; then each of them has an endpoint and answered its
  -- probe with a status of success; and the result lists all of their IDs, in order.
  pub run_preflight-Brought :
      (models : List PlacedModel) (machine_id : String) (snapshot : MemorySnapshot)
      (query_err : Option String) (w : W) (m : PlacedModel) (ms : List PlacedModel)
      (r : PreflightResult)
      → local_manifest_models models machine_id ≡ m ∷ ms
      → (run_preflight host models machine_id snapshot query_err w).1 ≡ got r
      → r.ready ≡ true
      → (r.memory_estimate.fits_in_memory ≡ true)
        × Brought host
            (m ∷ ms)
            (list_models host.manager w)
            (plan_model_loading_with_snapshot host.floats
              (map (λ p. p.model) models)
              machine_id
              (list_models host.manager w)
              snapshot)
            w
            r
            (run_preflight host models machine_id snapshot query_err w).0.world
  unfolding run_preflight IsBrought
  run_preflight-Brought models machine_id snapshot query_err w m ms r local e ready =
      let present = list_models host.manager w in
      let plan =
        plan_model_loading_with_snapshot host.floats (map (λ p. p.model) models) machine_id present
          snapshot in
      subst
        (λ ns.
          (preflight_local host ns present plan snapshot query_err w).1 ≡ got r
          → (r.memory_estimate.fits_in_memory ≡ true)
            × Brought host (m ∷ ms) present plan w r
                (preflight_local host ns present plan snapshot query_err w).0.world)
        (sym local)
        (λ h. preflight_of-IsBrought (m ∷ ms) present plan snapshot query_err w r h ready) e
