-- ===== src/Client/Retry/Attempts.antt =====
-- How often Retry calls, and with what it ends.
use mantlerd.Base.{
  ℕ, zero, suc, ◌+◌, ◌≤◌, ◌<◌, ◌≡◌, refl, sym, subst, ◌⊎◌, inl, inr, Bool, true, false, not, [],
  ◌∷◌, ltb, if-holds, Bool-cases, arith,
}
use mantlerd.Client.RetryAfter.{second}
use mantlerd.Client.Retry.{
  Failure, cancelled, retry_decision, wait_of, next_backoff, Retried, stopped, retry_loop, retry,
}

module _ {T : Type 0} (nothing : T) (reply : ℕ → T ⊎ Failure) (elapsed : ℕ → Bool) where
  -- A call after which there is a wait and another call.
  abbrev pub IsRetriable : ℕ → Type 0
  IsRetriable j =
      (e : Failure) × (reply j ≡ inr e) × ((retry_decision e).1 ≡ true) × (elapsed j ≡ true)

  abbrev pub IsFinal : ℕ → ℕ → T ⊎ Failure → Type 0
  IsFinal attempts n (inl x) = Unit
  IsFinal attempts n (inr e) = ((retry_decision e).1 ≡ false) ⊎ (suc n ≡ attempts)

  -- The last call is the one with the number `n`.
  pub data Ending (attempts : ℕ) (r : Retried T) : Type 0 where
    replied :
        (n : ℕ)
        → r.calls ≡ suc n
        → r.result ≡ reply n
        → IsFinal attempts n (reply n)
        → Ending attempts r
    interrupted :
        (n : ℕ) → r.calls ≡ suc n → r.result ≡ inr cancelled → elapsed n ≡ false → Ending attempts r

  pub record IsRetried (attempts i : ℕ) (r : Retried T) : Type 0 where
    pub at_most : r.calls ≤ attempts
    pub earlier : (j : ℕ) → i ≤ j → suc j < r.calls → IsRetriable j
    pub ending : Ending attempts r

  reply_cases : (n : ℕ) → ((x : T) × (reply n ≡ inl x)) ⊎ ((e : Failure) × (reply n ≡ inr e))
  reply_cases n = go (reply n) refl
    where
      go :
          (o : T ⊎ Failure)
          → reply n ≡ o
          → ((x : T) × (reply n ≡ inl x)) ⊎ ((e : Failure) × (reply n ≡ inr e))
      go (inl x) q = inl (x, q)
      go (inr e) q = inr (e, q)

  stopped-IsRetried :
      (attempts i : ℕ) (o : T ⊎ Failure)
      → suc i ≤ attempts
      → reply i ≡ o
      → IsFinal attempts i o
      → IsRetried attempts i (stopped nothing reply elapsed o (suc i))
  stopped-IsRetried attempts i o h q f = record {
    at_most = h;
    earlier = λ j a b. absurd (omega (arith, a, b));
    ending = replied i refl (sym q) (rw q f);
  }

  interrupted-IsRetried :
      (attempts i wait : ℕ)
      → suc i ≤ attempts
      → elapsed i ≡ false
      → IsRetried attempts i (record { result = inr cancelled; calls = suc i; waits = wait ∷ [] })
  interrupted-IsRetried attempts i wait h q = record {
    at_most = h;
    earlier = λ j a b. absurd (omega (arith, a, b));
    ending = interrupted i refl refl q;
  }

  waited-Ending :
      (attempts wait : ℕ) (r : Retried T)
      → Ending attempts r
      → Ending attempts (record r { waits = wait ∷ r.waits })
  waited-Ending attempts wait r (replied n c q f) = replied n c q f
  waited-Ending attempts wait r (interrupted n c q f) = interrupted n c q f

  waited-IsRetried :
      (attempts i wait : ℕ) (r : Retried T)
      → IsRetriable i
      → IsRetried attempts (suc i) r
      → IsRetried attempts i (record r { waits = wait ∷ r.waits })
  waited-IsRetried attempts i wait r again v = record {
    at_most = v.at_most;
    earlier = λ j a b. elim (Bool-cases (ltb i j)) [
      | inl l ↦ v.earlier j (ground arith) b
      | inr l ↦ let same : i ≡ j = ground arith in subst IsRetriable same again
    ];
    ending = waited-Ending attempts wait r v.ending;
  }

  retry_loop-IsRetried :
      (attempts left i backoff : ℕ) (last : T ⊎ Failure)
      → attempts ≡ i + suc left
      → IsRetried attempts i (retry_loop nothing reply elapsed (suc left) i backoff last)
  unfolding retry_loop
  retry_loop-IsRetried attempts zero i backoff last h = elim (reply_cases i) [
    | inl (x, q) ↦ rw (q, retry_loop) (stopped-IsRetried attempts i (inl x) (omega arith) q tt)
    | inr (e, q) ↦
        rw (q, retry_loop)
          (if-holds (IsRetried attempts i) (not (retry_decision e).1)
            (λ f. stopped-IsRetried attempts i (inr e) (omega arith) q (inl (ground arith)))
            (λ f. stopped-IsRetried attempts i (inr e) (omega arith) q (inr (omega arith))))
  ]
  retry_loop-IsRetried attempts (suc left) i backoff last h = elim (reply_cases i) [
    | inl (x, q) ↦ rw (q, retry_loop) (stopped-IsRetried attempts i (inl x) (omega arith) q tt)
    | inr (e, q) ↦
        rw (q, retry_loop)
          (if-holds (IsRetried attempts i) (not (retry_decision e).1)
            (λ f. stopped-IsRetried attempts i (inr e) (omega arith) q (inl (ground arith)))
            (λ f.
              if-holds (IsRetried attempts i) (ltb 0 (suc left))
                (λ g.
                  if-holds (IsRetried attempts i) (elapsed i)
                    (λ w.
                      let after = (retry_decision e).0 in
                      waited-IsRetried attempts i (wait_of after backoff)
                        (retry_loop nothing reply elapsed (suc left) (suc i)
                          (next_backoff after backoff) (inr e))
                        (e, q, ground arith, w)
                        (retry_loop-IsRetried attempts left (suc i) (next_backoff after backoff)
                          (inr e) (omega arith)))
                    (λ w.
                      interrupted-IsRetried attempts i (wait_of (retry_decision e).0 backoff)
                        (omega arith) w))
                (λ g. absurd (ground arith))))
  ]

  -- With at least one attempt allowed, Retry returns after at most that many calls. Each call but the last
  -- failed with an error that is to be retried, and the wait after it ended before the context was done.
  -- It returns what the last call returned, which is a success, an error that is not to be retried or the
  -- error of the last attempt; or the context was done in the wait after the last call.
  pub retry-IsRetried :
      (attempts : ℕ) → 0 < attempts → IsRetried attempts 0 (retry nothing reply elapsed attempts)
  unfolding retry
  retry-IsRetried zero h = absurd (omega arith)
  retry-IsRetried (suc n) h = retry_loop-IsRetried (suc n) n 0 second (inl nothing) (omega arith)
