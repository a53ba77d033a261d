-- ===== src/Manifest/Watchdog/Streaks.antt =====
-- What the watchdog's counter of failures counts, and when it raises the alarm.
use mathlib.Core.List.{append-nil}
use native.Mathlib.Omega.{arith}
use mantlerd.Base.{
  ℕ, zero, suc, ◌+◌, ◌≡◌, refl, sym, ◌∙◌, ap, Bool, true, false, String, List, [], ◌∷◌, ◌++◌,
  Option, none, some, trim_space, str_eq, leb, ltb, eq_iff, str_eq_refl, if-holds, if◌then◌else◌,
}
use mantlerd.Base.Dict.{Dict, lookup, put, lookup-put}
use mantlerd.Runtime.Driver.{Error}
use mantlerd.Runtime.Manager.{ensure_runtime, restart_runtime_named, stop_model_with_runtime}
use mantlerd.Manifest.Probe.{probe_model_endpoint}
use mantlerd.Manifest.Messages.{appears_oom, recovering, failed_repeatedly, health_failure}
use mantlerd.Manifest.Preflight.{PlacedModel, Host, local_manifest_models, model_id_of, runtime_of}
use mantlerd.Manifest.Watchdog.{
  warning, error, Emitted, Watch, count, or_zero, is_oom, emit, then_start, restart_and_reload,
  ensure_and_start, recover_model, recovered, on_failure, on_success, on_probe, check_model, tick,
  ticks, run,
}

-- The answers to the probes so far, newest first: the model's ID, and whether the probe succeeded.
abbrev pub History : Type 0
History = List (String × Bool)

-- How many of the newest probes of an ID have failed in a row.
unfoldable pub streak : String → History → ℕ
streak id [] = 0
streak id ((j, ok) ∷ h) =
    let rest = streak id h in if str_eq j id then (if ok then 0 else rest + 1) else rest

abbrev pub succeeded : Option String → Bool
succeeded none = true
succeeded (some e) = false

count-put :
    (k id : String) (n : ℕ) (d : Dict ℕ)
    → count id (put k n d) ≡ (if str_eq k id then n else count id d)
unfolding count
count-put k id n d = rw (lookup-put k id n d) (
    if-holds (λ o. or_zero o ≡ (if str_eq k id then n else or_zero (lookup id d))) (str_eq k id)
      (λ e. rw e refl) (λ e. rw e refl))

module _ {W : Type 0} (host : Host W) where
  -- No step of a recovery touches the counters.
  then_start-failures :
      (m : PlacedModel) (r : W × Option Error) (s : Watch W)
      → (then_start host m r s).0.failures ≡ s.failures
  then_start-failures m (w, none) s = refl
  then_start-failures m (w, some e) s = refl

  ensure-failures :
      (m : PlacedModel) (s : Watch W) → (ensure_and_start host m s).0.failures ≡ s.failures
  unfolding ensure_and_start
  ensure-failures m s =
      if-holds {A = Watch W × Option Error} (λ r. r.0.failures ≡ s.failures)
        (str_eq (trim_space (runtime_of m)) "") (λ e. refl)
        (λ e. then_start-failures m (ensure_runtime host.manager (runtime_of m) s.world) s)

  restart-failures :
      (m : PlacedModel) (s : Watch W) → (restart_and_reload host m s).0.failures ≡ s.failures
  unfolding restart_and_reload
  restart-failures m s =
      let w = (stop_model_with_runtime host.manager (model_id_of m) (runtime_of m) s.world).0 in
      then_start-failures m (restart_runtime_named host.manager (runtime_of m) w) s

  recover-failures :
      (m : PlacedModel) (failure : String) (s : Watch W)
      → (recover_model host m failure s).0.failures ≡ s.failures
  unfolding recover_model
  recover-failures m failure s =
      let oom = emit host (appears_oom (model_id_of m)) warning s in
      let plain = emit host (recovering (model_id_of m)) warning in
      if-holds {A = Watch W × Option Error} (λ r. r.0.failures ≡ s.failures) (is_oom failure)
        (λ e.
          if-holds {A = Watch W × Option Error} (λ r. r.0.failures ≡ s.failures)
            (str_eq (trim_space (runtime_of m)) "") (λ blank. ensure-failures m (plain oom))
            (λ named. restart-failures m oom))
        (λ e. ensure-failures m (plain s))

  recovered-failures :
      (m : PlacedModel) (r : Watch W × Option Error) → (recovered host m r).failures ≡ r.0.failures
  recovered-failures m (s, none) = refl
  recovered-failures m (s, some e) = refl

  -- The state after the recovery, and before the test of the counter.
  abbrev pub attempted : PlacedModel → String → Watch W → Watch W
  attempted m failure s = recovered host m (
      recover_model host m failure (
        emit host (health_failure (model_id_of m) failure) warning
          (record s { failures = put m.id (count m.id s.failures + 1) s.failures })))

  attempted-failures :
      (m : PlacedModel) (failure : String) (s : Watch W)
      → (attempted m failure s).failures ≡ put m.id (count m.id s.failures + 1) s.failures
  attempted-failures m failure s =
      let counted =
        emit host (health_failure (model_id_of m) failure) warning
          (record s { failures = put m.id (count m.id s.failures + 1) s.failures }) in
      recovered-failures m (recover_model host m failure counted)
      ∙ recover-failures m failure counted

  -- What the answer to a probe adds to the history.
  abbrev pub observed : PlacedModel → Watch W → History → History
  observed m s h =
      if str_eq (trim_space m.endpoint) ""
      then h
      else (m.id, succeeded (probe_model_endpoint host.web m.endpoint (runtime_of m) s.world).1) ∷ h

  -- Checks of models, in any order, with the answers that they got.
  pub data Watched : History → Watch W → Type 0 where
    begun : (w : W) → Watched [] (record { world = w; failures = []; emitted = []; reported = [] })
    checked :
        (h : History) (s : Watch W) (m : PlacedModel)
        → Watched h s
        → Watched (observed m s h) (check_model host m s)

  -- Every counter is the length of the model's latest streak of failures.
  CountsStreaks : History → Watch W → Type 0
  CountsStreaks h s = (id : String) → count id s.failures ≡ streak id h

  on_success-failures :
      (m : PlacedModel) (s : Watch W) → (on_success host m s).failures ≡ put m.id 0 s.failures
  unfolding on_success
  on_success-failures m s =
      if-holds {A = Watch W} (λ t. put m.id 0 t.failures ≡ put m.id 0 s.failures)
        (ltb 0 (count m.id s.failures)) (λ e. refl) (λ e. refl)

  on_failure-failures :
      (m : PlacedModel) (failure : String) (s : Watch W)
      → (on_failure host m failure s).failures ≡ put m.id (count m.id s.failures + 1) s.failures
  unfolding on_failure
  on_failure-failures m failure s =
      if-holds {A = Watch W} (λ t. t.failures ≡ put m.id (count m.id s.failures + 1) s.failures)
        (leb 3 (count m.id (attempted m failure s).failures)) (λ e. attempted-failures m failure s)
        (λ e. attempted-failures m failure s)

  on_probe-CountsStreaks :
      (m : PlacedModel) (r : W × Option String) (h : History) (s : Watch W)
      → CountsStreaks h s
      → CountsStreaks ((m.id, succeeded r.1) ∷ h) (on_probe host m r s)
  unfolding CountsStreaks streak
  on_probe-CountsStreaks m (w, none) h s c id =
      ap (count id) (on_success-failures m (record s { world = w }))
      ∙ count-put m.id id 0 s.failures
      ∙ ap (λ n. if str_eq m.id id then 0 else n) (c id)
  on_probe-CountsStreaks m (w, some e) h s c id =
      ap (count id) (on_failure-failures m e (record s { world = w }))
      ∙ count-put m.id id (count m.id s.failures + 1) s.failures
      ∙ ground (arith, eq_iff m.id id, c id, c m.id)

  either-CountsStreaks :
      (t : Bool) (h k : History) (s u : Watch W)
      → CountsStreaks h s
      → CountsStreaks k u
      → CountsStreaks (if t then h else k) (if t then s else u)
  either-CountsStreaks true h k s u c d = c
  either-CountsStreaks false h k s u c d = d

  -- The answers so far determine every counter.
  Watched-CountsStreaks : (h : History) (s : Watch W) → Watched h s → CountsStreaks h s
  unfolding CountsStreaks check_model count streak lookup
  Watched-CountsStreaks _ _ (begun w) = λ id. refl
  Watched-CountsStreaks _ _ (checked h s m k) =
      let c = Watched-CountsStreaks h s k in
      let r = probe_model_endpoint host.web m.endpoint (runtime_of m) s.world in
      either-CountsStreaks (str_eq (trim_space m.endpoint) "") h ((m.id, succeeded r.1) ∷ h) s
        (on_probe host m r s) c (on_probe-CountsStreaks m r h s c)

  on_failure-emitted :
      (m : PlacedModel) (failure : String) (s : Watch W) (n : ℕ)
      → host.listens ≡ true
      → count m.id s.failures + 1 ≡ n
      → (on_failure host m failure s).emitted
        ≡ (attempted m failure s).emitted
          ++ (if leb 3 n
              then record { message = failed_repeatedly (model_id_of m); event_type = error } ∷ []
              else [])
  unfolding on_failure
  on_failure-emitted m failure s n listens e =
      let after = attempted m failure s in
      let now : count m.id after.failures ≡ n =
        ap (count m.id) (attempted-failures m failure s)
        ∙ count-put m.id m.id (count m.id s.failures + 1) s.failures
        ∙ ap (λ t. if t then count m.id s.failures + 1 else count m.id s.failures)
            (str_eq_refl m.id)
        ∙ e in
      tested (leb 3 (count m.id after.failures)) after
      ∙ ap
          (λ k.
            after.emitted
            ++ (if leb 3 k
                then record { message = failed_repeatedly (model_id_of m); event_type = error } ∷ []
                else []))
          now
    where
      tested :
          (t : Bool) (a : Watch W)
          → (if t then emit host (failed_repeatedly (model_id_of m)) error a else a).emitted
            ≡ a.emitted
              ++ (if t
                  then record { message = failed_repeatedly (model_id_of m); event_type = error }
                    ∷ []
                  else [])
      tested true a = rw listens refl
      tested false a = sym (append-nil a.emitted)

  -- After any checks, where a model has an endpoint whose probe fails now: the watchdog emits what the
  -- recovery emits, and then the critical message exactly if this failure and those right before it are at
  -- least three in a row for the model's ID.
  pub check-alarm :
      (h : History) (s : Watch W) (m : PlacedModel) (failure : String)
      → Watched h s
      → host.listens ≡ true
      → str_eq (trim_space m.endpoint) "" ≡ false
      → (probe_model_endpoint host.web m.endpoint (runtime_of m) s.world).1 ≡ some failure
      → (check_model host m s).emitted
        ≡ (attempted m failure (record s {
          world = (probe_model_endpoint host.web m.endpoint (runtime_of m) s.world).0;
        })).emitted
          ++ (if leb 3 (streak m.id ((m.id, false) ∷ h))
              then record { message = failed_repeatedly (model_id_of m); event_type = error } ∷ []
              else [])
  unfolding check_model CountsStreaks streak
  check-alarm h s m failure k listens given fails =
      let r = probe_model_endpoint host.web m.endpoint (runtime_of m) s.world in
      let c = Watched-CountsStreaks h s k m.id in
      rw given (
        probed r fails (
          on_failure-emitted m failure (record s { world = r.0 }) _ listens
            (ground (arith, str_eq_refl m.id, c))))
    where
      probed :
          (r : W × Option String) {x : List Emitted}
          → r.1 ≡ some failure
          → (on_failure host m failure (record s { world = r.0 })).emitted ≡ x
          → (on_probe host m r s).emitted ≡ x
      probed (w, none) e h = absurd (ground (arith, e))
      probed (w, some f) e h = ap (λ o. (on_probe host m (w, o) s).emitted) e ∙ h

  tick-Watched :
      (ms : List PlacedModel) (h : History) (s : Watch W)
      → Watched h s
      → (k : History) × Watched k (tick host ms s)
  unfolding tick
  tick-Watched [] h s w = (h, w)
  tick-Watched (m ∷ ms) h s w =
      tick-Watched ms (observed m s h) (check_model host m s) (checked h s m w)

  ticks-Watched :
      (ms : List PlacedModel) (n : ℕ) (h : History) (s : Watch W)
      → Watched h s
      → (k : History) × Watched k (ticks host ms n s)
  ticks-Watched ms zero h s w = (h, w)
  ticks-Watched ms (suc n) h s w =
      let (k, v) = tick-Watched ms h s w in ticks-Watched ms n k (tick host ms s) v

  -- Every state of the watchdog's loop is one of those that checks lead to.
  pub run-Watched :
      (models : List PlacedModel) (machine_id : String) (n : ℕ) (w : W)
      → (h : History) × Watched h (run host models machine_id n w)
  unfolding run
  run-Watched models machine_id n w =
      ticks-Watched (local_manifest_models models machine_id) n []
        (record { world = w; failures = []; emitted = []; reported = [] }) (begun w)
