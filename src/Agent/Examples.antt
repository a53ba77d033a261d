-- ===== src/Agent/Examples.antt =====
-- Outcomes, commands and schedules at which the theorems on the agent apply.
use mantlerd.Base.{
  ℕ, ◌≡◌, refl, arith, true, false, String, List, [], ◌∷◌, Memᴰ, Option, none, some, elem,
  trim_space, to_lower, sort, text_le, ltb, ◌==◌, if◌then◌else◌,
}
use mantlerd.Base.Dict.{lookup}
use mantlerd.Runtime.Start.{OutcomeEvent}
use mantlerd.Commands.Lanes.{AgentCommand, command_lane}
use mantlerd.Agent.Outcomes.{persist, add, snapshot, drop_prefix, load}
use mantlerd.Agent.Outcomes.Queue.{
  Session, adding, beginning, succeeding, restarting, Reach, here, next, Inv, Reach-Inv,
}
use mantlerd.Agent.Dispatcher.{
  new_command_dispatcher, begin_enqueue, enqueue, send_heavy, take_heavy, finish_heavy, pick,
  acquire_light, finish_light, Event, enqueuing, sending, taking, finishing_heavy, acquiring,
  finishing_light, step, run,
}
use mantlerd.Agent.Dispatcher.Counted as Counted
use mantlerd.Agent.Dispatcher.Counted.{run-new-Inv}
use mantlerd.Agent.Dispatcher.Ordered.{InOrder, run-new-InOrder}
use mantlerd.Client.Retry.{Failure, http}
use mantlerd.Agent.Acks.Delivered.{
  Operation, acking, flushing, fresh, IsBalanced, perform, perform-fresh-IsBalanced,
}
use mantlerd.Runtime.Driver.{Driver, Step}
use mantlerd.Runtime.Manager.{
  Manager, driver_for, installed_runtimes, remove_model_with_runtime, normalize,
}
use mantlerd.Agent.Reconcile.{
  DesiredConfig, llama_cpp_keep_warm_enabled, should_auto_eject_llama_cpp, trimmed_set,
  runtime_desired, wanted, is_stale, enforce_desired_config, reconcile_models, reconcile_runtimes,
  reconcile_stale_models,
}
use mantlerd.Agent.Reconcile.Calls as Calls
use mantlerd.Agent.Reconcile.Calls.{calls_for, enforce-perform}
use mantlerd.Manifest.Plan.{ManifestModel}
use mantlerd.Commands.Manifests.{Manifests, add_active, collect_active, active_manifest_model_ids}
use mantlerd.Client.RetryAfter.{is_positive}
use mantlerd.Agent.Schedule.{compute_checkin_delay}
use mantlerd.Agent.Schedule.Delays.{IsDelay, compute_checkin_delay-IsDelay}
use mantlerd.Agent.Reconcile.Active.{reconcile-active}
use mantlerd.Agent.Reconcile.Removals.{IsKept, reconcile-IsKept}

abbrev outcome : OutcomeEvent
outcome = record {
  plan_id = "";
  mantle_fingerprint = "";
  event_type = "startup";
  timestamp = "2026-01-01T00:00:00Z";
  duration_ms = 12;
  crash_signature = "";
  detail = "ready";
}

-- An outcome is added, a check-in begins, another is added, the check-in succeeds, and the agent restarts.
abbrev one_added : Session
one_added = record {
  buffer = record { events = outcome ∷ []; file = outcome ∷ [] };
  pending = none;
  delivered = [];
  added = outcome ∷ [];
}

abbrev one_sent : Session
one_sent = record one_added { pending = some (outcome ∷ []) }

abbrev two_added : Session
two_added = record one_sent {
  buffer = record { events = outcome ∷ outcome ∷ []; file = outcome ∷ outcome ∷ [] };
  added = outcome ∷ outcome ∷ [];
}

abbrev one_left : Session
one_left = record two_added {
  buffer = record { events = outcome ∷ []; file = outcome ∷ [] };
  pending = none;
  delivered = outcome ∷ [];
}

one_left-Reach : Reach one_left
unfolding add persist snapshot drop_prefix load trim_space
one_left-Reach =
    next
      (next
        (next (next (next here (adding "" outcome (omega arith) refl refl)) (beginning refl))
          (adding "" outcome (omega arith) refl refl))
        (succeeding refl))
      (restarting refl)

Reach-Inv_example : Inv one_left
Reach-Inv_example = Reach-Inv one_left-Reach

abbrev pull : AgentCommand
pull = record { id = "c1"; command_type = "pull_model"; params = [] }

abbrev check : AgentCommand
check = record { id = "c2"; command_type = "health_check"; params = [] }

abbrev schedule : List Event
schedule =
    enqueuing pull
    ∷ sending
    ∷ enqueuing check
    ∷ taking
    ∷ acquiring 0
    ∷ enqueuing pull
    ∷ finishing_light 0
    ∷ sending
    ∷ finishing_heavy
    ∷ taking
    ∷ []

run-new-Inv_example : Counted.Inv (run schedule (new_command_dispatcher 4))
run-new-Inv_example = run-new-Inv 4 schedule

run-new-InOrder_example : InOrder (run schedule (new_command_dispatcher 4))
run-new-InOrder_example = run-new-InOrder 4 schedule

schedule-executed : (run schedule (new_command_dispatcher 4)).executed ≡ pull ∷ []
unfolding run step enqueue begin_enqueue send_heavy take_heavy finish_heavy pick acquire_light
    finish_light new_command_dispatcher command_lane elem
schedule-executed = refl

-- A server that is down for the first three calls, and refuses the ack 9.
abbrev down_first : ℕ → ℕ → Option Failure
down_first n p =
    if p == 9
    then some (http (record { status_code = 400; retry_after = 0; body = "" }))
    else if ltb n 3
    then some (http (record { status_code = 502; retry_after = 0; body = "" }))
    else none

abbrev acks : List (Operation ℕ)
acks = acking 1 ∷ acking 9 ∷ acking 2 ∷ flushing ∷ []

perform-fresh-IsBalanced_example : let (l, s) = perform down_first acks [] fresh in IsBalanced l s
perform-fresh-IsBalanced_example = perform-fresh-IsBalanced down_first acks (omega arith)

-- The host is the log of the calls, newest first.
abbrev logs : String → Step (List String)
logs call w = (call ∷ w, none)

abbrev runtime : Driver (List String)
runtime = record {
  is_installed = λ w. true;
  is_ready = λ w. true;
  version = λ w. "1.0";
  list_models = λ w. "qwen3:8b" ∷ " old " ∷ "gemma" ∷ [];
  install = logs "install";
  uninstall = logs "uninstall";
  restart_runtime = logs "restart";
  prepare_model = λ model flags. logs "prepare";
  start_model = λ model flags. logs "start";
  stop_model = λ model. logs "stop";
  remove_model = λ model. logs "remove";
  prepare_cancellable = none;
  prepare_with_progress = none;
}

abbrev manager : Manager (List String)
manager = record {
  drivers = ("ollama", runtime) ∷ [];
  reports = false;
  active_plan_id = "";
  active_mantle_fingerprint = "";
}

abbrev desired : DesiredConfig
desired = record {
  runtimes = "ollama" ∷ [];
  models = "qwen3:8b" ∷ [];
  model_targets =
      record {
        model_id = "m";
        runtime = "llamacpp";
        feature_flags = record { streaming = true; thinking = false };
      }
      ∷ [];
}

enforce-perform_example :
    enforce_desired_config manager "" desired []
    ≡ Calls.perform_all manager (calls_for manager (should_auto_eject_llama_cpp "") desired) []
enforce-perform_example = enforce-perform manager "" desired []

reconcile-IsKept_example :
    Memᴰ "ollama" (installed_runtimes manager [])
    × IsKept manager desired ("gemma" ∷ []) "ollama" "old" (should_auto_eject_llama_cpp "")
unfolding reconcile_stale_models reconcile_runtimes reconcile_models is_stale wanted trimmed_set
    runtime_desired should_auto_eject_llama_cpp llama_cpp_keep_warm_enabled installed_runtimes sort
    text_le driver_for lookup normalize to_lower trim_space elem remove_model_with_runtime
reconcile-IsKept_example =
    reconcile-IsKept manager "" desired ("gemma" ∷ []) [] "ollama" "old" (Memᴰ.head refl)

-- A manifest that places a model on this machine.
abbrev placed : ManifestModel
placed = record {
  source = "machine";
  machine_id = "m1";
  size = record {
    model_id = " gemma";
    runtime = "ollama";
    parameter_count = "7B";
    quantization = "";
    context_length = 0;
    is_moe = false;
    active_params = "";
  };
}

abbrev manifests : Manifests
manifests = ("c7", some (placed ∷ [])) ∷ []

reconcile-active_example : ¬ ("old" ≡ trim_space " gemma")
unfolding reconcile_stale_models reconcile_runtimes reconcile_models is_stale wanted trimmed_set
    runtime_desired should_auto_eject_llama_cpp llama_cpp_keep_warm_enabled installed_runtimes sort
    text_le driver_for lookup normalize to_lower trim_space elem remove_model_with_runtime
    active_manifest_model_ids collect_active add_active
reconcile-active_example =
    reconcile-active manager "" desired "m1" manifests [] "ollama" "old" "c7" (placed ∷ []) placed
      (Memᴰ.head refl) (Memᴰ.head refl) (Memᴰ.head refl) refl

-- Three failed check-ins of an agent that checks in every minute.
compute_checkin_delay-IsDelay_example :
    IsDelay 60000000000 false
      (is_positive 0)
      3
      (compute_checkin_delay (λ n. 0) 60000000000 false 3 0)
compute_checkin_delay-IsDelay_example =
    compute_checkin_delay-IsDelay (λ n. 0) 60000000000 false 3 0 (λ n h. h) (omega arith)
