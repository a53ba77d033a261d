-- ===== src/Client/Retry.antt =====
-- internal/client/client.go, retryDecision and Retry. The replies of the calls and whether a wait ends before
-- the context is done are functions of the number of the call.
pub mod Attempts
use mantlerd.Base.{
  ℕ, zero, suc, ◌+◌, ◌-◌, ◌*◌, ◌≤◌, ◌<◌, ◌≡◌, refl, sym, ◌∙◌, ap, ◌⊎◌, inl, inr, Bool, true, false,
  ◌&&◌, not, List, [], ◌∷◌, Option, none, some, length, ltb, leb, ◌==◌, Bool-cases, arith,
  if◌then◌else◌,
}
use mantlerd.Client.RetryAfter.{HttpError, second, is_positive}

pub data Failure : Type 0 where
  http : HttpError → Failure
  other cancelled : Failure

unfoldable pub retry_decision : Failure → ℕ × Bool
retry_decision (http e) =
    if e.status_code == 429
    then (0, false)
    else if leb 400 e.status_code && ltb e.status_code 500
    then (0, false)
    else if is_positive e.retry_after
    then (e.retry_after, true)
    else (0, true)
retry_decision other = (0, true)
retry_decision cancelled = (0, true)

abbrev pub wait_of : ℕ → ℕ → ℕ
wait_of after backoff = if is_positive after then after else backoff

abbrev pub next_backoff : ℕ → ℕ → ℕ
next_backoff after backoff =
    if after == 0 && ltb backoff (10 * second) then backoff * 2 else backoff

-- The result, how many calls were made, and the waits.
pub record Retried (T : Type 0) : Type 0 where
  pub result : T ⊎ Failure
  pub calls : ℕ
  pub waits : List ℕ

module _ {T : Type 0} (nothing : T) (reply : ℕ → T ⊎ Failure) (elapsed : ℕ → Bool) where
  abbrev pub stopped : T ⊎ Failure → ℕ → Retried T
  stopped result calls = record { result = result; calls = calls; waits = [] }

  -- The loop, with the number of attempts that are left, the number of the call and the last error.
  unfoldable pub retry_loop : ℕ → ℕ → ℕ → T ⊎ Failure → Retried T
  retry_loop zero i backoff last = stopped last i
  retry_loop (suc left) i backoff last = elim (reply i) [
    | inl result ↦ stopped (inl result) (suc i)
    | inr e ↦
        let (after, retryable) = retry_decision e in
        let wait = wait_of after backoff in
        let rest = retry_loop left (suc i) (next_backoff after backoff) (inr e) in
        if not retryable
        then stopped (inr e) (suc i)
        else if ltb 0 left
        then if elapsed i
          then record rest { waits = wait ∷ rest.waits }
          else record { result = inr cancelled; calls = suc i; waits = wait ∷ [] }
        else rest
  ]

  unfoldable pub retry : ℕ → Retried T
  retry attempts = retry_loop attempts 0 second (inl nothing)
