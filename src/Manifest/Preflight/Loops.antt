-- ===== src/Manifest/Preflight/Loops.antt =====
-- What the preflight's loops have done where they leave the result ready.
use mathlib.Core.List.{append_assoc, append-nil}
use native.Mathlib.Omega.{arith}
use mantlerd.Base.{
  subst, ◌≡◌, refl, sym, ◌∙◌, ap, Bool, true, false, String, List, [], ◌∷◌, ◌++◌, map, Option, none,
  some, trim_space, str_eq, if-holds, if◌then◌else◌,
}
use mantlerd.Runtime.Driver.{Error}
use mantlerd.Runtime.Manager.{stop_model_with_runtime}
use mantlerd.Manifest.Plan.{LoadPlan}
use mantlerd.Manifest.Probe.{probe_model_endpoint}
use mantlerd.Manifest.Messages.{ejecting, probing}
use mantlerd.Manifest.Preflight.{
  PlacedModel, PreflightResult, Host, Preflight, model_id_of, runtime_of, contains_model_id,
  eject_one, eject_each, ejected, start_placed, after_start, load_new, load_each, after_probe,
  probe_one, probe_each, carry_out, at_start, mark_loaded, say_fallback, say,
}

module _ {W : Type 0} (host : Host W) where
  -- The machine after each of the models was asked to stop, whether or not it did.
  unfoldable pub after_ejecting : List String → W → W
  after_ejecting [] w = w
  after_ejecting (id ∷ ids) w = after_ejecting ids (stop_model_with_runtime host.manager id "" w).0

  -- Each model, in turn, was there before or is started without an error.
  pub data Loaded (present : List String) : List PlacedModel → W → W → Type 0 where
    all_loaded : (w : W) → Loaded present [] w w
    present_before :
        (m : PlacedModel) (ms : List PlacedModel) (w w' : W)
        → contains_model_id present (model_id_of m) ≡ true
        → Loaded present ms w w'
        → Loaded present (m ∷ ms) w w'
    started :
        (m : PlacedModel) (ms : List PlacedModel) (w w' : W)
        → (start_placed host m w).error ≡ none
        → Loaded present ms (start_placed host m w).world w'
        → Loaded present (m ∷ ms) w w'

  -- Each model, in turn, has an endpoint that answers its probe with a status of success.
  pub data Probed : List PlacedModel → W → W → Type 0 where
    all_probed : (w : W) → Probed [] w w
    answering :
        (m : PlacedModel) (ms : List PlacedModel) (w w' : W)
        → str_eq (trim_space m.endpoint) "" ≡ false
        → (probe_model_endpoint host.web m.endpoint (runtime_of m) w).1 ≡ none
        → Probed ms (probe_model_endpoint host.web m.endpoint (runtime_of m) w).0 w'
        → Probed (m ∷ ms) w w'

  -- The world, readiness and loaded models of the loop of ejections.
  ejected_world :
      (id : String) (r : W × Option Error) (p : Preflight W)
      → ((ejected host id r p).world ≡ r.0)
        × ((ejected host id r p).ready ≡ p.ready)
        × ((ejected host id r p).loaded ≡ p.loaded)
  ejected_world id (w, none) p = (refl, refl, refl)
  ejected_world id (w, some e) p = (refl, refl, refl)

  eject_each_lem :
      (ids : List String) (p : Preflight W)
      → (eject_each host ids p).1 ≡ none
      → ((eject_each host ids p).0.world ≡ after_ejecting ids p.world)
        × ((eject_each host ids p).0.ready ≡ p.ready)
        × ((eject_each host ids p).0.loaded ≡ p.loaded)
  unfolding eject_each after_ejecting eject_one
  eject_each_lem [] p h = (refl, refl, refl)
  eject_each_lem (id ∷ ids) p h =
      go (host.context_error p.world) (eject_each_lem ids (eject_one host id p)) h
    where
      next : Preflight W
      next = eject_one host id p

      after : Option String → Preflight W × Option String
      after none = eject_each host ids next
      after (some e) = (p, some e)

      AsEjected : List String → Preflight W → Preflight W × Option String → Type 0
      AsEjected is q r =
          (r.0.world ≡ after_ejecting is q.world) × (r.0.ready ≡ q.ready) × (r.0.loaded ≡ q.loaded)

      go :
          (c : Option String)
          → ((eject_each host ids next).1 ≡ none → AsEjected ids next (eject_each host ids next))
          → (after c).1 ≡ none
          → AsEjected (id ∷ ids) p (after c)
      go (some e) rest k = absurd (ground (arith, k))
      go none rest k =
          let (a, b, c) = rest k in
          let (d, e, f) =
            ejected_world id (stop_model_with_runtime host.manager id "" p.world)
              (say host (ejecting id) p) in
          (a ∙ ap (after_ejecting ids) d, b ∙ e, c ∙ f)

  -- What the loop of starts has done, if it leaves the result ready.
  record LoadRun (present : List String) (ms : List PlacedModel) (p q : Preflight W) : Type 0 where
    was_ready : p.ready ≡ true
    loads : Loaded present ms p.world q.world
    names : q.loaded ≡ p.loaded ++ map model_id_of ms

  after_start_lem :
      (m : PlacedModel) (e : Option Error) (p : Preflight W)
      → (after_start host m e p).ready ≡ true
      → (e ≡ none)
        × (p.ready ≡ true)
        × ((after_start host m e p).world ≡ p.world)
        × ((after_start host m e p).loaded ≡ p.loaded ++ model_id_of m ∷ [])
  after_start_lem m none p h = (refl, h, refl, refl)
  after_start_lem m (some e) p h = absurd (ground (arith, h))

  load_new_lem :
      (m : PlacedModel) (p : Preflight W)
      → (load_new host m p).ready ≡ true
      → ((start_placed host m p.world).error ≡ none)
        × (p.ready ≡ true)
        × ((load_new host m p).world ≡ (start_placed host m p.world).world)
        × ((load_new host m p).loaded ≡ p.loaded ++ model_id_of m ∷ [])
  unfolding load_new
  load_new_lem m p h = after_start_lem m (start_placed host m p.world).error _ h

  load_each_lem :
      (present : List String) (ms : List PlacedModel) (p : Preflight W)
      → (load_each host present ms p).ready ≡ true
      → LoadRun present ms p (load_each host present ms p)
  unfolding load_each
  load_each_lem present [] p h = record {
    was_ready = h;
    loads = all_loaded p.world;
    names = sym (append-nil p.loaded);
  }
  load_each_lem present (m ∷ ms) p h =
      go (contains_model_id present (model_id_of m)) refl (load_each_lem present ms) h
    where
      next : Bool → Preflight W
      next b = if b then mark_loaded host m p else load_new host m p

      go :
          (b : Bool)
          → contains_model_id present (model_id_of m) ≡ b
          → ((q : Preflight W)
              → (load_each host present ms q).ready ≡ true
              → LoadRun present ms q (load_each host present ms q))
          → (load_each host present ms (next b)).ready ≡ true
          → LoadRun present (m ∷ ms) p (load_each host present ms (next b))
      go true here rest k =
          let r = rest (mark_loaded host m p) k in
          record {
            was_ready = r.was_ready;
            loads = present_before m ms p.world _ here r.loads;
            names = r.names ∙ append_assoc p.loaded (model_id_of m ∷ []) (map model_id_of ms);
          }
      go false absent rest k =
          let r = rest (load_new host m p) k in
          let (e, ready, world, names) = load_new_lem m p r.was_ready in
          record {
            was_ready = ready;
            loads = started m ms p.world _ e (
                subst (λ w. Loaded present ms w (load_each host present ms (next false)).world)
                  world r.loads);
            names =
                r.names
                ∙ ap (λ l. l ++ map model_id_of ms) names
                ∙ append_assoc p.loaded (model_id_of m ∷ []) (map model_id_of ms);
          }

  -- What the loop of probes has done, if it leaves the result ready.
  record ProbeRun (ms : List PlacedModel) (p q : Preflight W) : Type 0 where
    was_ready : p.ready ≡ true
    probes : Probed ms p.world q.world
    names : q.loaded ≡ p.loaded

  after_probe_lem :
      (m : PlacedModel) (r : W × Option String) (p : Preflight W)
      → (after_probe host m r p).ready ≡ true
      → (r.1 ≡ none)
        × (p.ready ≡ true)
        × ((after_probe host m r p).world ≡ r.0)
        × ((after_probe host m r p).loaded ≡ p.loaded)
  after_probe_lem m (w, none) p h = (refl, h, refl, refl)
  after_probe_lem m (w, some e) p h = absurd (ground (arith, h))

  probe_one_lem :
      (m : PlacedModel) (p : Preflight W)
      → (probe_one host m p).ready ≡ true
      → (str_eq (trim_space m.endpoint) "" ≡ false)
        × ((probe_model_endpoint host.web m.endpoint (runtime_of m) p.world).1 ≡ none)
        × (p.ready ≡ true)
        × ((probe_one host m p).world
            ≡ (probe_model_endpoint host.web m.endpoint (runtime_of m) p.world).0)
        × ((probe_one host m p).loaded ≡ p.loaded)
  unfolding probe_one
  probe_one_lem m p =
      let probed = probe_model_endpoint host.web m.endpoint (runtime_of m) p.world in
      if-holds {A = Preflight W}
        (λ q.
          q.ready ≡ true
          → (str_eq (trim_space m.endpoint) "" ≡ false)
            × (probed.1 ≡ none)
            × (p.ready ≡ true)
            × (q.world ≡ probed.0)
            × (q.loaded ≡ p.loaded))
        (str_eq (trim_space m.endpoint) "") (λ blank h. absurd (ground (arith, h)))
        (λ given h.
          let (e, ready, world, names) =
            after_probe_lem m probed (say host (probing (model_id_of m)) p) h in
          (given, e, ready, world, names))

  probe_each_lem :
      (ms : List PlacedModel) (p : Preflight W)
      → (probe_each host ms p).1 ≡ none
      → (probe_each host ms p).0.ready ≡ true
      → ProbeRun ms p (probe_each host ms p).0
  unfolding probe_each
  probe_each_lem [] p h ready = record {
    was_ready = ready;
    probes = all_probed p.world;
    names = refl;
  }
  probe_each_lem (m ∷ ms) p h ready =
      go (host.context_error p.world) (probe_each_lem ms (probe_one host m p)) h ready
    where
      next : Preflight W
      next = probe_one host m p

      after : Option String → Preflight W × Option String
      after none = probe_each host ms next
      after (some e) = (p, some e)

      go :
          (c : Option String)
          → ((probe_each host ms next).1 ≡ none
              → (probe_each host ms next).0.ready ≡ true
              → ProbeRun ms next (probe_each host ms next).0)
          → (after c).1 ≡ none
          → (after c).0.ready ≡ true
          → ProbeRun (m ∷ ms) p (after c).0
      go (some e) rest k done = absurd (ground (arith, k))
      go none rest k done =
          let r = rest k done in
          let (given, answer, ready, world, names) = probe_one_lem m p r.was_ready in
          record {
            was_ready = ready;
            probes =
                answering m ms p.world _ given answer
                  (subst (λ w. Probed ms w (after none).0.world) world r.probes);
            names = r.names ∙ names;
          }

  -- What a ready preflight of local models has done, by the machine at its start and at its end.
  pub record Brought (ms : List PlacedModel) (present : List String) (plan : LoadPlan) (w : W)
      (r : PreflightResult) (last : W) : Type 0 where
    pub started_world : W
    pub loads : Loaded present ms (after_ejecting plan.eject_model_ids w) started_world
    pub probes : Probed ms started_world last
    pub names : r.loaded_models ≡ map model_id_of ms

  pub carry_out_lem :
      (eject present : List String) (ms : List PlacedModel) (p : Preflight W)
      → (carry_out host eject present ms p).1 ≡ none
      → (carry_out host eject present ms p).0.ready ≡ true
      → (v : W) × Loaded present ms (after_ejecting eject p.world) v
        × Probed ms v (carry_out host eject present ms p).0.world
        × ((carry_out host eject present ms p).0.loaded ≡ p.loaded ++ map model_id_of ms)
  unfolding carry_out
  carry_out_lem eject present ms p h ready =
      go (eject_each host eject p) (eject_each_lem eject p) h ready
    where
      after : Preflight W × Option String → Preflight W × Option String
      after (q, some x) = (q, some x)
      after (q, none) = probe_each host ms (load_each host present ms q)

      go :
          (r : Preflight W × Option String)
          → (r.1 ≡ none
              → (r.0.world ≡ after_ejecting eject p.world)
                × (r.0.ready ≡ p.ready)
                × (r.0.loaded ≡ p.loaded))
          → (after r).1 ≡ none
          → (after r).0.ready ≡ true
          → (v : W) × Loaded present ms (after_ejecting eject p.world) v
            × Probed ms v (after r).0.world
            × ((after r).0.loaded ≡ p.loaded ++ map model_id_of ms)
      go (q, some x) f k done = absurd (ground (arith, k))
      go (q, none) f k done =
          let (world, same, names) = f refl in
          let probed = probe_each_lem ms (load_each host present ms q) k done in
          let loaded = load_each_lem present ms q probed.was_ready in
          (
            (load_each host present ms q).world,
            subst (λ w. Loaded present ms w (load_each host present ms q).world) world loaded.loads,
            probed.probes,
            probed.names ∙ loaded.names ∙ ap (λ l. l ++ map model_id_of ms) names,
          )

  pub say_fallback_lem :
      (source : String) (e : Option String) (w : W)
      → ((say_fallback host source e (at_start host w)).world ≡ w)
        × ((say_fallback host source e (at_start host w)).loaded ≡ [])
  say_fallback_lem source none w = (refl, refl)
  say_fallback_lem source (some e) w = (refl, refl)
