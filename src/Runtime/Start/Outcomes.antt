-- ===== src/Runtime/Start/Outcomes.antt =====
-- What is reported of a start.
use mantlerd.Base.{
  ◌≡◌, refl, inl, inr, true, false, String, [], ◌∷◌, Option, none, some, str_eq, trim_space,
  Bool-cases, ◌-◌,
}
use mantlerd.Runtime.Driver.{Driver, Error, ensure_runtime_failed, Flags, Result, ok, err}
use mantlerd.Runtime.Manager.{
  Manager, normalize, driver_for, ensure_runtime, preferred_driver_for_model,
}
use mantlerd.Runtime.Prepare.{prepare_model_with_flags}
use mantlerd.Runtime.Start.{
  OutcomeEvent, Surroundings, Started, fill, event_type_of, emit_outcome, startup_event,
  failed_start, finish_start, start_on_driver, start_model_with_flags, start_model_with_runtime,
}

-- One event, which is a success exactly if the call returns no error, and which carries the active
-- context.
pub record ReportsOnce {W : Type 0} (m : Manager W) (r : Started W) : Type 0 where
  pub event : OutcomeEvent
  pub only : r.reported ≡ event ∷ []
  pub kind : event.event_type ≡ event_type_of r.error
  pub plan : event.plan_id ≡ m.active_plan_id
  pub fingerprint : event.mantle_fingerprint ≡ m.active_mantle_fingerprint

fill_empty : (s : String) → fill "" s ≡ s
unfolding fill trim_space
fill_empty s = refl

event_type-not_blank : (e : Option Error) → str_eq (trim_space (event_type_of e)) "" ≡ false
unfolding trim_space
event_type-not_blank none = refl
event_type-not_blank (some e) = refl

module _ {W : Type 0} (env : Surroundings W) (m : Manager W) (reports : m.reports ≡ true) where
  emit-ReportsOnce :
      (started w : W) (signature detail : String) (e : Option Error)
      → ReportsOnce m (record {
        world = w;
        reported =
            emit_outcome env m w (startup_event env started w (event_type_of e) signature detail);
        error = e;
      })
  unfolding emit_outcome startup_event
  emit-ReportsOnce started w signature detail e = record {
    event = record {
      plan_id = fill "" m.active_plan_id;
      mantle_fingerprint = fill "" m.active_mantle_fingerprint;
      event_type = event_type_of e;
      timestamp = fill "" (env.now_text w);
      duration_ms = env.now_ms w - env.now_ms started;
      crash_signature = signature;
      detail = detail;
    };
    only = rw (reports, event_type-not_blank e);
    kind = refl;
    plan = fill_empty m.active_plan_id;
    fingerprint = fill_empty m.active_mantle_fingerprint;
  }

  failed-ReportsOnce :
      (started w : W) (signature : String) (e returned : Error)
      → ReportsOnce m (failed_start env m started w signature e returned)
  unfolding failed_start
  failed-ReportsOnce started w signature e returned =
      emit-ReportsOnce started w signature (env.error_text e) (some returned)

  finish-ReportsOnce :
      (started : W) (result : W × Option Error) → ReportsOnce m (finish_start env m started result)
  unfolding finish_start
  finish-ReportsOnce started (w, e) = emit-ReportsOnce started w "" _ e

  with_flags-ReportsOnce :
      (model_id : String) (flags : Option Flags) (w : W)
      → ReportsOnce m (start_model_with_flags env m model_id flags w)
  unfolding start_model_with_flags
  with_flags-ReportsOnce model_id flags w = prepared (prepare_model_with_flags m model_id flags w)
    where
      found :
          (w' : W) (r : Result (Driver W))
          → ReportsOnce m (elim r [
            | err x ↦ failed_start env m w w' "driver_not_found" x x
            | ok d ↦ finish_start env m w (d.start_model (trim_space model_id) flags w')
          ])
      found w' (ok d) = finish-ReportsOnce w _
      found w' (err x) = failed-ReportsOnce w w' "driver_not_found" x x

      prepared :
          (r : W × Option Error)
          → ReportsOnce m (elim r.1 [
            | some x ↦ failed_start env m w r.0 "prepare_failed" x x
            | none ↦ elim (preferred_driver_for_model m (trim_space model_id) r.0) [
              | err x ↦ failed_start env m w r.0 "driver_not_found" x x
              | ok d ↦ finish_start env m w (d.start_model (trim_space model_id) flags r.0)
            ]
          ])
      prepared (w', some x) = failed-ReportsOnce w w' "prepare_failed" x x
      prepared (w', none) = found w' (preferred_driver_for_model m (trim_space model_id) w')

  on_driver-ReportsOnce :
      (started : W) (d : Driver W) (model_id : String) (flags : Option Flags) (w : W)
      → ReportsOnce m (start_on_driver env m started d model_id flags w)
  unfolding start_on_driver
  on_driver-ReportsOnce started d model_id flags w = prepared (d.prepare_model model_id flags w)
    where
      prepared :
          (r : W × Option Error)
          → ReportsOnce m (elim r.1 [
            | some x ↦ failed_start env m started r.0 "prepare_failed" x x
            | none ↦ finish_start env m started (d.start_model model_id flags r.0)
          ])
      prepared (w', some x) = failed-ReportsOnce started w' "prepare_failed" x x
      prepared (w', none) = finish-ReportsOnce started _

  -- While a reporter is installed, every start of a model, whatever it returns, reports exactly one
  -- outcome. It is of type startup_success if the call returns no error, else startup_failure, and
  -- it carries the active plan and fingerprint.
  pub start-ReportsOnce :
      (model_id runtime_name : String) (flags : Option Flags) (w : W)
      → ReportsOnce m (start_model_with_runtime env m model_id runtime_name flags w)
  unfolding start_model_with_runtime
  start-ReportsOnce model_id runtime_name flags w =
      elim (Bool-cases (str_eq (trim_space runtime_name) "")) [
        | inl e ↦ rw e (with_flags-ReportsOnce model_id flags w)
        | inr e ↦ rw e (ensured (ensure_runtime m (normalize runtime_name) w))
      ]
    where
      found :
          (w' : W) (r : Result (Driver W))
          → ReportsOnce m (elim r [
            | err x ↦ failed_start env m w w' "driver_not_found" x x
            | ok d ↦ start_on_driver env m w d model_id flags w'
          ])
      found w' (ok d) = on_driver-ReportsOnce w d model_id flags w'
      found w' (err x) = failed-ReportsOnce w w' "driver_not_found" x x

      ensured :
          (r : W × Option Error)
          → ReportsOnce m (elim r.1 [
            | some x ↦
                failed_start env m w r.0 "runtime_not_ready" x
                  (ensure_runtime_failed (normalize runtime_name) x)
            | none ↦ elim (driver_for m (normalize runtime_name)) [
              | err x ↦ failed_start env m w r.0 "driver_not_found" x x
              | ok d ↦ start_on_driver env m w d model_id flags r.0
            ]
          ])
      ensured (w', some x) = failed-ReportsOnce w w' "runtime_not_ready" x _
      ensured (w', none) = found w' (driver_for m (normalize runtime_name))
