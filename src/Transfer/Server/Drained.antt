-- ===== src/Transfer/Server/Drained.antt =====
-- The turns of the requests to handleBlob in internal/transfer/server.go.
use mantlerd.Base.{ℕ, zero, suc, ◌≤◌, ◌<◌, ◌≡◌, List, [], ◌∷◌, arith, All, length}
use mantlerd.Transfer.Server.{
  Host, Request, Phase, arrived, rejecting, transferring, answered, Server, raise, advance,
  advance_at, step, run, start, all_arrived,
}
use mantlerd.Transfer.Server.Limit.{IsAnswered, run-answered}

-- One more if the two places are the same.
abbrev plus_if : ℕ → ℕ → ℕ → ℕ
plus_if zero zero n = suc n
plus_if zero (suc j) n = n
plus_if (suc i) zero n = n
plus_if (suc i) (suc j) n = plus_if i j n

-- How often a schedule names a request.
abbrev pub turns : ℕ → List (Host × ℕ) → ℕ
turns i [] = 0
turns i ((h, j) ∷ schedule) = plus_if i j (turns i schedule)

-- The steps that a request still has before it.
abbrev remaining : Phase → ℕ
remaining (arrived r) = 2
remaining (rejecting r) = 1
remaining (transferring r) = 1
remaining (answered r response) = 0

-- Each request has at most as many steps before it as its place is given.
abbrev Within : (ℕ → ℕ) → List Phase → Type 0
Within f [] = Unit
Within f (p ∷ ps) = (remaining p ≤ f 0) × Within (λ i. f (suc i)) ps

module _ (h : Host) where
  advance-remaining :
      (p : Phase) (active n : ℕ) → remaining p ≤ suc n → remaining (advance h p active).0 ≤ n
  unfolding advance raise
  advance-remaining (arrived r) active n k = ground arith
  advance-remaining (rejecting r) active n k = omega arith
  advance-remaining (transferring r) active n k = omega arith
  advance-remaining (answered r response) active n k = omega arith

  advance_at-Within :
      (f : ℕ → ℕ) (j : ℕ) (ps : List Phase) (active : ℕ)
      → Within (λ i. plus_if i j (f i)) ps
      → Within f (advance_at h j ps active).0
  unfolding advance_at
  advance_at-Within f j [] active w = tt
  advance_at-Within f zero (p ∷ ps) active (k, w) = (advance-remaining p active (f 0) k, w)
  advance_at-Within f (suc j) (p ∷ ps) active (k, w) =
      (k, advance_at-Within (λ i. f (suc i)) j ps active w)

no_steps : (ps : List Phase) → Within (λ i. 0) ps → All IsAnswered ps
no_steps [] w = tt
no_steps (answered r response ∷ ps) (k, w) = (tt, no_steps ps w)
no_steps (arrived r ∷ ps) (k, w) = absurd (omega arith)
no_steps (rejecting r ∷ ps) (k, w) = absurd (omega arith)
no_steps (transferring r ∷ ps) (k, w) = absurd (omega arith)

run-Within :
    (s : Server) (schedule : List (Host × ℕ))
    → Within (λ i. turns i schedule) s.requests
    → All IsAnswered (run s schedule).requests
unfolding run step
run-Within s [] w = no_steps s.requests w
run-Within s ((h, j) ∷ schedule) w =
    run-Within (step h s j) schedule
      (advance_at-Within h (λ i. turns i schedule) j s.requests s.active w)

arrived-Within :
    (rs : List Request) (f : ℕ → ℕ)
    → ((i : ℕ) → i < length rs → 2 ≤ f i)
    → Within f (all_arrived rs)
arrived-Within [] f h = tt
arrived-Within (r ∷ rs) f h =
    (h 0 (omega arith), arrived-Within rs (λ i. f (suc i)) (λ i k. h (suc i) (omega arith)))

-- However the steps of the requests are interleaved, and whatever the host is at each of them, once every request
-- has had two turns, of which a transfer is one however much it streams, all requests have been answered and the
-- counter is back at zero.
pub run-start-Drained :
    (rs : List Request) (schedule : List (Host × ℕ))
    → ((i : ℕ) → i < length rs → 2 ≤ turns i schedule)
    → All IsAnswered (run (start rs) schedule).requests × ((run (start rs) schedule).active ≡ 0)
run-start-Drained rs schedule h =
    let a = run-Within (start rs) schedule (arrived-Within rs (λ i. turns i schedule) h) in
    (a, run-answered rs schedule a)
