-- ===== src/Transfer/Server/Limit.antt =====
-- The limit on concurrent transfers, under every interleaving of the requests.
use mantlerd.Base.{ℕ, zero, suc, ◌+◌, ◌≤◌, ◌≡◌, refl, ◌⊎◌, inl, List, [], ◌∷◌, arith, All}
use mantlerd.Transfer.Server.{
  Host, Request, Phase, arrived, rejecting, transferring, answered, Server,
  max_concurrent_transfers, advance, advance_at, step, run, start,
}

abbrev pub is_transferring : Phase → ℕ
is_transferring (transferring r) = 1
is_transferring _ = 0

-- The share of a request in the counter.
abbrev pub raised : Phase → ℕ
raised (rejecting r) = 1
raised (transferring r) = 1
raised _ = 0

abbrev pub total : (Phase → ℕ) → List Phase → ℕ
total f [] = 0
total f (p ∷ ps) = f p + total f ps

pub record Inv (s : Server) : Type 0 where
  pub counted : s.active ≡ total raised s.requests
  pub limited : total is_transferring s.requests ≤ max_concurrent_transfers

transferring-le-raised : (ps : List Phase) → total is_transferring ps ≤ total raised ps
transferring-le-raised [] = omega arith
transferring-le-raised (arrived r ∷ ps) = omega (arith, transferring-le-raised ps)
transferring-le-raised (p ∷ ps) = omega (arith, transferring-le-raised ps)

module _ (h : Host) where
  -- A step changes the counter by the request's share, and a transfer begins only below the limit.
  advance_lem :
      (p : Phase) (active : ℕ)
      → raised p ≤ active
      → ((advance h p active).1 + raised p ≡ active + raised (advance h p active).0)
        × ((is_transferring (advance h p active).0 ≤ is_transferring p)
            ⊎ ((advance h p active).1 ≤ max_concurrent_transfers))
  unfolding advance
  advance_lem (arrived r) active k = ground arith
  advance_lem (rejecting r) active k = ground arith
  advance_lem (transferring r) active k = ground arith
  advance_lem (answered r response) active k = ground arith

  advance_at_lem :
      (i : ℕ) (ps : List Phase) (active : ℕ)
      → total raised ps ≤ active
      → ((advance_at h i ps active).1 + total raised ps
          ≡ active + total raised (advance_at h i ps active).0)
        × ((total is_transferring (advance_at h i ps active).0 ≤ total is_transferring ps)
            ⊎ ((advance_at h i ps active).1 ≤ max_concurrent_transfers))
  unfolding advance_at
  advance_at_lem i [] active k = (omega arith, inl (omega arith))
  advance_at_lem zero (p ∷ ps) active k = ground (arith, advance_lem p active)
  advance_at_lem (suc i) (p ∷ ps) active k = ground (arith, advance_at_lem i ps active)

  step-Inv : (s : Server) (i : ℕ) → Inv s → Inv (step h s i)
  unfolding step
  step-Inv s i v = ground (
    arith,
    advance_at_lem i s.requests s.active,
    transferring-le-raised (advance_at h i s.requests s.active).0,
  )

run-Inv : (s : Server) (schedule : List (Host × ℕ)) → Inv s → Inv (run s schedule)
unfolding run
run-Inv s [] v = v
run-Inv s ((h, i) ∷ schedule) v = run-Inv (step h s i) schedule (step-Inv h s i v)

start-Inv : (rs : List Request) → Inv (start rs)
start-Inv [] = omega arith
start-Inv (r ∷ rs) = let v = start-Inv rs in record { counted = omega arith; limited = omega arith }

-- However the steps of any number of requests are interleaved, at most two transfers run at once, and
-- the counter is the number of the requests that have raised it and have not taken this back.
pub run-start-Inv : (rs : List Request) (schedule : List (Host × ℕ)) → Inv (run (start rs) schedule)
run-start-Inv rs schedule = run-Inv (start rs) schedule (start-Inv rs)

abbrev pub IsAnswered : Phase → Type 0
IsAnswered (answered r response) = Unit
IsAnswered _ = ⊥

answered-total : (ps : List Phase) → All IsAnswered ps → total raised ps ≡ 0
answered-total [] a = refl
answered-total (answered r response ∷ ps) a = omega (arith, answered-total ps a.1)
answered-total (p ∷ ps) a = absurd a.0

-- When every request has been answered, whether it was served, refused or rejected, the counter is back
-- at zero.
pub run-answered :
    (rs : List Request) (schedule : List (Host × ℕ))
    → All IsAnswered (run (start rs) schedule).requests
    → (run (start rs) schedule).active ≡ 0
run-answered rs schedule a =
    omega (arith, run-start-Inv rs schedule, answered-total (run (start rs) schedule).requests a)
