-- ===== src/Agent/Schedule/Delays.antt =====
-- How long the agent waits for its next check-in.
use mantlerd.Base.{
  ℕ, zero, suc, ◌+◌, ◌-◌, ◌*◌, ◌/◌, ◌%◌, ◌^◌, ◌≤◌, ◌<◌, ◌≡◌, refl, ◌⊎◌, inl, inr, Bool, true, false,
  ◌||◌, not, ◌==◌, ltb, subst, Bool-cases, if-holds, arith, if◌then◌else◌,
}
use mantlerd.Client.RetryAfter.{is_positive}
use mantlerd.Agent.Schedule.{
  max_degraded_interval, base_interval, next_checkin_interval, multiplier_of, at_most_degraded,
  compute_checkin_delay,
}

-- The bound on the configured interval, over eighteen years, below which nothing wraps around.
abbrev pub IsModest : ℕ → Type 0
IsModest idle = idle < 2 ^ 59

abbrev pub IsRandom : (ℕ → ℕ) → Type 0
IsRandom random = (n : ℕ) → 0 < n → random n < n

base-IsModest :
    (idle : ℕ) (active : Bool)
    → IsModest idle
    → (0 < base_interval idle active) × IsModest (base_interval idle active)
base-IsModest idle true h = (ground arith, ground arith)
base-IsModest idle false h = (ground arith, ground arith)

-- Within a fifth of an interval.
pub record IsNear (interval d : ℕ) : Type 0 where
  pub lower : interval - interval / 5 ≤ d
  pub upper : d ≤ interval + interval / 5

-- Around which interval a delay lies: 15 seconds where none is configured, or where there is work and a longer one is
-- configured; otherwise the configured one. Durations are in nanoseconds.
pub data IsAround (idle : ℕ) (active : Bool) (d : ℕ) : Type 0 where
  not_configured : idle ≡ 0 → IsNear 15_000_000_000 d → IsAround idle active d
  at_work : active ≡ true → 15_000_000_000 < idle → IsNear 15_000_000_000 d → IsAround idle active d
  as_configured :
      0 < idle → (active ≡ false) ⊎ (idle ≤ 15_000_000_000) → IsNear idle d → IsAround idle active d

base-IsAround :
    (idle : ℕ) (active : Bool) (d : ℕ)
    → IsModest idle
    → IsNear (base_interval idle active) d
    → IsAround idle active d
base-IsAround zero active d h n = not_configured refl (rw (unconfigured active) at n)
  where
    unconfigured : (b : Bool) → base_interval 0 b ≡ 15_000_000_000
    unconfigured true = refl
    unconfigured false = refl
base-IsAround (suc i) false d h n =
    as_configured (omega arith) (inl refl)
      (subst (λ b. IsNear b d) (let e : base_interval (suc i) false ≡ suc i = ground arith in e) n)
base-IsAround (suc i) true d h n = elim (Bool-cases (ltb 15_000_000_000 (suc i))) [
  | inl e ↦ at_work refl (ground arith) (
      subst (λ b. IsNear b d)
        (let f : base_interval (suc i) true ≡ 15_000_000_000 = ground arith in f) n)
  | inr e ↦
      as_configured (omega arith) (inr (ground arith))
        (subst (λ b. IsNear b d) (let f : base_interval (suc i) true ≡ suc i = ground arith in f) n)
]

next-IsNear :
    (random : ℕ → ℕ) (idle : ℕ) (active : Bool)
    → IsRandom random
    → IsModest idle
    → IsNear (base_interval idle active) (next_checkin_interval random idle active)
unfolding next_checkin_interval
next-IsNear random idle active lawful h =
    let interval = base_interval idle active in
    let (positive, modest) = base-IsModest idle active h in
    let doubled = (2 * interval) % 2 ^ 64 in
    if-holds (IsNear interval) (not (is_positive doubled) || doubled / 5 == 0)
      (λ e. record { lower = omega arith; upper = omega arith })
      (λ e.
        let some_jitter : 0 < doubled / 5 = ground arith in
        let jitter = lawful (doubled / 5) some_jitter in
        record { lower = omega arith; upper = omega (arith, modest, jitter) })

at_the_cap : (n : ℕ) → multiplier_of n 8 ≡ 8
at_the_cap zero = refl
at_the_cap (suc n) = refl

multiplier_cases :
    (n : ℕ)
    → (multiplier_of (suc n) 1 ≡ 2)
      ⊎ ((multiplier_of (suc n) 1 ≡ 4) ⊎ (multiplier_of (suc n) 1 ≡ 8))
multiplier_cases zero = inl refl
multiplier_cases (suc zero) = inr (inl refl)
multiplier_cases (suc (suc n)) = inr (inr (at_the_cap n))

-- Of a delay after failures.
abbrev IsCapped : ℕ → Type 0
IsCapped d = (0 < d) × (d ≤ max_degraded_interval)

at_most-IsCapped : (d : ℕ) → 0 < d → d < 2 ^ 63 → IsCapped (at_most_degraded d)
at_most-IsCapped d h k = (ground arith, ground arith)

backoff-IsCapped :
    (interval n : ℕ)
    → 0 < interval
    → interval < 2 ^ 60
    → IsCapped (at_most_degraded ((interval * multiplier_of (suc n) 1) % 2 ^ 64))
backoff-IsCapped interval n h k = elim (multiplier_cases n) [
  | inl e ↦
      rw e (at_most-IsCapped ((interval * 2) % 2 ^ 64) (omega (arith, h, k)) (omega (arith, h, k)))
  | inr f ↦ elim f [
    | inl e ↦
        rw e
          (at_most-IsCapped ((interval * 4) % 2 ^ 64) (omega (arith, h, k)) (omega (arith, h, k)))
    | inr e ↦
        rw e
          (at_most-IsCapped ((interval * 8) % 2 ^ 64) (omega (arith, h, k)) (omega (arith, h, k)))
  ]
]

-- What a delay satisfies, by whether there is a rate limit and by the number of failures.
pub data IsDelay (idle : ℕ) (active limited : Bool) (failures d : ℕ) : Type 0 where
  slowed :
      (limited ≡ true) ⊎ (0 < failures)
      → 0 < d
      → d ≤ 300_000_000_000
      → IsDelay idle active limited failures d
  usual :
      limited ≡ false
      → failures ≡ 0
      → 0 < d
      → IsAround idle active d
      → IsDelay idle active limited failures d

-- Where the configured interval is below eighteen years, the next check-in follows after a positive delay: after a
-- rate limit or failed check-ins within five minutes, and otherwise within a fifth of 15 seconds where no
-- interval is configured or where there is work and the configured one is longer, and within a fifth of the
-- configured interval in all other cases.
pub compute_checkin_delay-IsDelay :
    (random : ℕ → ℕ) (idle : ℕ) (active : Bool) (failures rate_limited : ℕ)
    → IsRandom random
    → IsModest idle
    → IsDelay idle active
        (is_positive rate_limited)
        failures
        (compute_checkin_delay random idle active failures rate_limited)
unfolding compute_checkin_delay
compute_checkin_delay-IsDelay random idle active failures rate_limited lawful modest =
    let limited = is_positive rate_limited in
    if-holds (IsDelay idle active limited failures) limited
      (λ e.
        let c = at_most-IsCapped rate_limited (ground arith) (ground arith) in
        slowed (inl e) c.0 c.1)
      (λ e. go e failures)
  where
    interval : ℕ
    interval = next_checkin_interval random idle active

    near : IsNear (base_interval idle active) interval
    near = next-IsNear random idle active lawful modest

    bounded : (0 < interval) × (interval < 2 ^ 60)
    bounded =
        let b = base-IsModest idle active modest in
        (omega (arith, near.lower, b.0), omega (arith, near.upper, b.1))

    go :
        is_positive rate_limited ≡ false
        → (n : ℕ)
        → IsDelay idle active (is_positive rate_limited) n (
            if n == 0 then interval else at_most_degraded ((interval * multiplier_of n 1) % 2 ^ 64))
    go free zero = usual free refl bounded.0 (base-IsAround idle active interval modest near)
    go free (suc n) =
        let some_left : (suc n == 0) ≡ false = ground arith in
        let c = backoff-IsCapped interval n bounded.0 bounded.1 in
        rw some_left (slowed (inr (omega arith)) c.0 c.1)
