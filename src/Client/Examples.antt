-- ===== src/Client/Examples.antt =====
-- Replies at which the theorems on the retries apply.
use mantlerd.Base.{ℕ, ◌*◌, zero, suc, arith, ◌⊎◌, inl, inr, true, String}
use mantlerd.Client.RetryAfter.{second}
use mantlerd.Client.Retry.{Failure, http, retry}
use mantlerd.Client.Retry.Attempts.{IsRetried, retry-IsRetried}

abbrev unavailable : Failure
unavailable = http (record { status_code = 503; retry_after = 7 * second; body = "" })

-- The second call succeeds.
abbrev reply : ℕ → String ⊎ Failure
reply zero = inr unavailable
reply (suc n) = inl "welcome"

retry-IsRetried_example : IsRetried "" reply (λ n. true) 3 0 (retry "" reply (λ n. true) 3)
retry-IsRetried_example = retry-IsRetried "" reply (λ n. true) 3 (omega arith)
