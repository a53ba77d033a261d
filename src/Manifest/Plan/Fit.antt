-- ===== src/Manifest/Plan/Fit.antt =====
-- What the plan's promises on memory mean.
use mantlerd.Base.{
  ℕ, ◌+◌, ◌-◌, ◌≤◌, ◌<◌, ◌≡◌, Bool, true, not, ◌&&◌, ◌||◌, String, List, [], ◌∷◌, Memᴰ, Memᴰ-map,
  arith, leb, ◌==◌,
}
use mantlerd.Manifest.Memory.{Floats, estimate_model_vram}
use mantlerd.Manifest.Plan.{
  ManifestModel, MemorySnapshot, LoadPlan, desired_models, desired_size, sum, largest,
  reclaimable_mb, estimates, plan_of, plan_model_loading_with_snapshot,
}

largest_bound : (ns : List ℕ) (n : ℕ) → Memᴰ n ns → n ≤ largest ns
unfolding largest
largest_bound [] n m = elim m [ ]
largest_bound (k ∷ ns) n (Memᴰ.head e) = ground arith
largest_bound (k ∷ ns) n (Memᴰ.tail m) = ground (arith, largest_bound ns n m)

-- Each model that is to be loaded fits in memory beside what is kept and the headroom, though not all of
-- them do together.
pub record OneByOne (fl : Floats) (desired : List ManifestModel) (snapshot : MemorySnapshot)
    (plan : LoadPlan) : Type 0 where
  pub known : snapshot.known ≡ true
  pub not_together : snapshot.total_mb < plan.projected_used_mb + plan.headroom_mb
  pub each :
      (id : String)
      → Memᴰ id plan.load_model_ids
      → snapshot.used_mb + estimate_model_vram fl (desired_size desired id) + plan.headroom_mb
        ≤ snapshot.total_mb + reclaimable_mb fl plan.eject_model_ids

sequential_lem :
    (known : Bool) (used big needed headroom total reclaimed : ℕ)
    → (known
        && not (big == 0)
        && not (not known || leb ((used + needed) - reclaimed + headroom) total)
        && leb (used + big + headroom) (total + reclaimed))
      ≡ true
    → (known ≡ true)
      × (total < (used + needed) - reclaimed + headroom)
      × (used + big + headroom ≤ total + reclaimed)
sequential_lem known used big needed headroom total reclaimed h = ground arith

-- A plan that is sequential is needed and possible: the memory is known, the models do not fit all at
-- once, and each of them fits alone, beside what is kept and the headroom.
pub plan-OneByOne :
    (fl : Floats) (models : List ManifestModel) (machine_id : String) (loaded : List String)
    (snapshot : MemorySnapshot)
    → (plan_model_loading_with_snapshot fl models machine_id loaded snapshot).sequential ≡ true
    → OneByOne fl
        (desired_models models machine_id)
        snapshot
        (plan_model_loading_with_snapshot fl models machine_id loaded snapshot)
unfolding plan_model_loading_with_snapshot plan_of estimates
plan-OneByOne fl models machine_id loaded snapshot h =
    let desired = desired_models models machine_id in
    let plan = plan_model_loading_with_snapshot fl models machine_id loaded snapshot in
    let needed = estimates fl desired plan.load_model_ids in
    let (known, over, alone) =
      sequential_lem snapshot.known snapshot.used_mb (largest needed) (sum needed) plan.headroom_mb
        snapshot.total_mb (reclaimable_mb fl plan.eject_model_ids) h in
    record {
      known = known;
      not_together = over;
      each = λ id m. omega (
        arith,
        alone,
        largest_bound needed (estimate_model_vram fl (desired_size desired id))
            (Memᴰ-map (λ i. estimate_model_vram fl (desired_size desired i)) m),
      );
    }
