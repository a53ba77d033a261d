-- ===== src/Agent/Schedule.antt =====
-- cmd/mantler/start.go: what a check-in reports of the runtimes and models, and when the next one follows. A
-- time.Duration is an int64 of nanoseconds, here the number of its bits.
pub mod Delays
use mantlerd.Base.{
  ℕ, zero, suc, ◌+◌, ◌-◌, ◌*◌, ◌/◌, ◌%◌, ◌^◌, Bool, true, false, ◌&&◌, ◌||◌, not, String, List, [],
  ◌∷◌, Option, none, some, any, ltb, ◌==◌, if◌then◌else◌,
}
use mantlerd.Base.Dict.{Dict, put, values}
use mantlerd.Client.RetryAfter.{second, is_positive}

pub data RuntimeStatus : Type 0 where
  runtime_installing runtime_ready : RuntimeStatus

abbrev pub put_each : RuntimeStatus → List String → Dict RuntimeStatus → Dict RuntimeStatus
put_each status [] statuses = statuses
put_each status (name ∷ names) statuses = put_each status names (put name status statuses)

-- An empty map stands for nil.
unfoldable pub build_runtime_statuses : List String → List String → Dict RuntimeStatus
build_runtime_statuses installed ready =
    put_each runtime_ready ready (put_each runtime_installing installed [])

pub data ModelStatus : Type 0 where
  downloading downloaded installing building built starting stopping model_failed : ModelStatus
  -- any other
  settled : ModelStatus

abbrev pub is_in_work : ModelStatus → Bool
is_in_work model_failed = false
is_in_work settled = false
is_in_work _ = true

pub data AgentHealth : Type 0 where
  healthy busy degraded : AgentHealth

abbrev pub health_with : ModelStatus → AgentHealth → AgentHealth
health_with model_failed rest = degraded
health_with settled rest = rest
health_with _ rest = busy

unfoldable pub compute_agent_health : List ModelStatus → AgentHealth
compute_agent_health [] = healthy
compute_agent_health (status ∷ statuses) = health_with status (compute_agent_health statuses)

abbrev pub is_installing : RuntimeStatus → Bool
is_installing runtime_installing = true
is_installing runtime_ready = false

unfoldable pub has_active_operations : Dict RuntimeStatus → List ModelStatus → Bool → Bool
has_active_operations runtimes models has_active_training =
    has_active_training || any is_installing (values runtimes) || any is_in_work models

abbrev pub max_degraded_interval : ℕ
max_degraded_interval = 300 * second

-- The interval before the jitter.
abbrev pub base_interval : ℕ → Bool → ℕ
base_interval idle active =
    let interval =
      if active && is_positive idle && ltb (15 * second) idle then 15 * second else idle in
    if not (is_positive interval) then 15 * second else interval

-- `random` is Int63n.
unfoldable pub next_checkin_interval : (ℕ → ℕ) → ℕ → Bool → ℕ
next_checkin_interval random idle active =
    let interval = base_interval idle active in
    let doubled = (2 * interval) % 2 ^ 64 in
    if not (is_positive doubled) || doubled / 5 == 0
    then interval
    else interval - interval / 5 + random (doubled / 5)

-- The loop that computes the multiplier, with the failures that are left.
abbrev pub multiplier_of : ℕ → ℕ → ℕ
multiplier_of zero multiplier = multiplier
multiplier_of (suc left) multiplier =
    let doubled = multiplier_of left (multiplier * 2) in
    let capped = multiplier_of left 8 in
    if ltb multiplier 8 then (if ltb 8 (multiplier * 2) then capped else doubled) else multiplier

abbrev pub at_most_degraded : ℕ → ℕ
at_most_degraded d =
    if is_positive d && ltb max_degraded_interval d then max_degraded_interval else d

unfoldable pub compute_checkin_delay : (ℕ → ℕ) → ℕ → Bool → ℕ → ℕ → ℕ
compute_checkin_delay random idle active failures rate_limited =
    let interval = next_checkin_interval random idle active in
    if is_positive rate_limited
    then at_most_degraded rate_limited
    else if failures == 0
    then interval
    else at_most_degraded ((interval * multiplier_of failures 1) % 2 ^ 64)
