-- ===== src/Runtime/Start/Sequence.antt =====
-- StartModelWithRuntime in internal/runtime/manager.go: the order of the calls on a driver.
use mantlerd.Base.{
  ◌≡◌, refl, ◌∙◌, ◌≢◌, inl, inr, Bool-cases, true, false, String, Option, none, some, str_eq,
  trim_space,
}
use mantlerd.Runtime.Driver.{Driver, Error, ensure_runtime_failed, Flags, Result, ok, err}
use mantlerd.Runtime.Manager.{Manager, normalize, driver_for, ensure_driver, ensure_runtime}
use mantlerd.Runtime.Start.{
  Surroundings, Started, failed_start, finish_start, start_on_driver, start_model_with_runtime,
}

-- How a runtime was attended to on the host state `w`, without an error: it was found installed and ready, or it was
-- installed and restarted, or it was not installed and has been installed.
pub data IsEnsured {W : Type 0} (d : Driver W) (w w' : W) : Type 0 where
  found_ready : d.is_installed w ≡ true → d.is_ready w ≡ true → w' ≡ w → IsEnsured d w w'
  restarted_driver :
      d.is_installed w ≡ true
      → d.is_ready w ≡ false
      → d.restart_runtime w ≡ (w', none)
      → IsEnsured d w w'
  installed : d.is_installed w ≡ false → d.install w ≡ (w', none) → IsEnsured d w w'

ensure-IsEnsured :
    {W : Type 0} (m : Manager W) (name : String) (d : Driver W) (w w' : W)
    → driver_for m name ≡ ok d
    → ensure_runtime m name w ≡ (w', none)
    → IsEnsured d w w'
unfolding ensure_runtime ensure_driver
ensure-IsEnsured {W = W} m name d w w' found e = elim (Bool-cases (d.is_installed w)) [
  | inl i ↦ elim (Bool-cases (d.is_ready w)) [
    | inl r ↦ found_ready i r (let k = rw (i, r) at served in cc)
    | inr r ↦ restarted_driver i r (rw (i, r) at served)
  ]
  | inr i ↦ installed i (rw i at served)
]
  where
    served : ensure_driver d w ≡ (w', none)
    served = rw found at e

-- On the host state `w` the runtime was ensured, then the model was prepared, then it was started,
-- each by the named driver, each without an error, and each where the call before it left the host.
pub record Sequence {W : Type 0} (m : Manager W) (model name : String) (flags : Option Flags)
    (w w' : W) : Type 0 where
  pub driver : Driver W
  pub ready : W
  pub prepared : W
  pub found : driver_for m name ≡ ok driver
  pub ensure : IsEnsured driver w ready
  pub prepare : driver.prepare_model model flags ready ≡ (prepared, none)
  pub start : driver.start_model model flags prepared ≡ (w', none)

failed_start-ne-none :
    {W : Type 0} (env : Surroundings W) (m : Manager W) (started w : W) (signature : String)
    (e returned : Error)
    → (failed_start env m started w signature e returned).error ≢ none
unfolding failed_start
failed_start-ne-none env m started w signature e returned h = cc

module _ {W : Type 0} (env : Surroundings W) (m : Manager W) (model name : String)
    (flags : Option Flags) (w w' : W) where
  finish_ok :
      (d : Driver W) (ready prepared : W)
      → driver_for m name ≡ ok d
      → ensure_runtime m name w ≡ (ready, none)
      → d.prepare_model model flags ready ≡ (prepared, none)
      → (r : W × Option Error) → d.start_model model flags prepared ≡ r
      → (finish_start env m w r).error ≡ none
      → (finish_start env m w r).world ≡ w'
      → Sequence m model name flags w w'
  unfolding finish_start
  finish_ok d ready prepared found ensure prepare r start e k = record {
    driver = d;
    ready = ready;
    prepared = prepared;
    found = found;
    ensure = ensure-IsEnsured m name d w ready found ensure;
    prepare = prepare;
    start = start ∙ λ i. (k i, e i);
  }

  on_driver-Sequence :
      (d : Driver W) (ready : W)
      → driver_for m name ≡ ok d
      → ensure_runtime m name w ≡ (ready, none)
      → (start_on_driver env m w d model flags ready).error ≡ none
      → (start_on_driver env m w d model flags ready).world ≡ w'
      → Sequence m model name flags w w'
  unfolding start_on_driver
  on_driver-Sequence d ready found ensure e k = go (d.prepare_model model flags ready) refl e k
    where
      then : W × Option Error → Started W
      then r = elim r.1 [
        | some x ↦ failed_start env m w r.0 "prepare_failed" x x
        | none ↦ finish_start env m w (d.start_model model flags r.0)
      ]

      go :
          (r : W × Option Error)
          → d.prepare_model model flags ready ≡ r
          → (then r).error ≡ none
          → (then r).world ≡ w'
          → Sequence m model name flags w w'
      go (v, none) q e k = finish_ok d ready v found ensure q _ refl e k
      go (v, some x) q e k = absurd (failed_start-ne-none env m w v "prepare_failed" x x e)

-- If a start under a named runtime returns no error, then that runtime's driver was found installed and ready, or it
-- was restarted where it was installed and not ready, or it was installed where it was not; then the
-- preparation and the start were called on it, in this order, each without an error and on the host that the
-- call before it had left. Nothing tests after a restart or an installation whether the runtime is ready.
pub start-Sequence :
    {W : Type 0} (env : Surroundings W) (m : Manager W) (model runtime_name : String)
    (flags : Option Flags) (w : W)
    → str_eq (trim_space runtime_name) "" ≡ false
    → (start_model_with_runtime env m model runtime_name flags w).error ≡ none
    → Sequence m model
        (normalize runtime_name)
        flags
        w
        (start_model_with_runtime env m model runtime_name flags w).world
unfolding start_model_with_runtime
start-Sequence {W = W} env m model runtime_name flags w named h =
    rw named (ensured (ensure_runtime m name w) refl (rw named at h))
  where
    name : String
    name = normalize runtime_name

    later : W × Option Error → Started W
    later r = elim r.1 [
      | some x ↦ failed_start env m w r.0 "runtime_not_ready" x (ensure_runtime_failed name x)
      | none ↦ elim (driver_for m name) [
        | err x ↦ failed_start env m w r.0 "driver_not_found" x x
        | ok d ↦ start_on_driver env m w d model flags r.0
      ]
    ]

    found :
        (v : W)
        → ensure_runtime m name w ≡ (v, none)
        → (r : Result (Driver W)) → driver_for m name ≡ r
        → let s : Started W = elim r [
          | err x ↦ failed_start env m w v "driver_not_found" x x
          | ok d ↦ start_on_driver env m w d model flags v
        ] in
          s.error ≡ none → Sequence m model name flags w s.world
    found v q (ok d) e h = on_driver-Sequence env m model name flags w _ d v e q h refl
    found v q (err x) e h = absurd (failed_start-ne-none env m w v "driver_not_found" x x h)

    ensured :
        (r : W × Option Error)
        → ensure_runtime m name w ≡ r
        → (later r).error ≡ none
        → Sequence m model name flags w (later r).world
    ensured (v, none) q h = found v q (driver_for m name) refl h
    ensured (v, some x) q h = absurd (failed_start-ne-none env m w v "runtime_not_ready" x _ h)
