-- ===== src/Runtime/Manager/Restarts.antt =====
-- RestartRuntime against the list of its attempts.
use mantlerd.Base.{
  ◌≡◌, refl, ◌↔◌, Bool, true, false, String, List, [], ◌∷◌, ◌++◌, Memᴰ, Option, none, some,
}
use mantlerd.Runtime.Driver.{Error, Step, on_driver}
use mantlerd.Runtime.Manager.{
  Manager, driver_for, installed_runtimes, restart_verdict, restart_each, restart_runtime,
}

module _ {W : Type 0} (m : Manager W) where
  abbrev pub restart_one : String → Step W
  restart_one name = on_driver (driver_for m name) λ d. d.restart_runtime

  -- What each attempt returns, in order; each starts where the one before it has left the host.
  abbrev pub attempts : List String → W → List (Option Error)
  attempts [] w = []
  attempts (name ∷ names) w = (restart_one name w).1 ∷ attempts names (restart_one name w).0

  -- The host after all attempts.
  abbrev pub after_attempts : List String → W → W
  after_attempts [] w = w
  after_attempts (name ∷ names) w = after_attempts names (restart_one name w).0

-- The loop's variables `restarted` and `lastErr` over the results of the attempts.
verdict : Bool → Option Error → List (Option Error) → Option Error
verdict b last [] = restart_verdict b last
verdict b last (none ∷ es) = verdict true last es
verdict b last (some x ∷ es) = verdict b (some x) es

verdict-true : (last : Option Error) (es : List (Option Error)) → verdict true last es ≡ none
unfolding verdict
verdict-true last [] = refl
verdict-true last (none ∷ es) = verdict-true last es
verdict-true last (some x ∷ es) = verdict-true (some x) es

verdict_sound :
    (last : Option Error) (es : List (Option Error)) → verdict false last es ≡ none → Memᴰ none es
unfolding verdict
verdict_sound none [] h = cc
verdict_sound (some x) [] h = cc
verdict_sound last (none ∷ es) h = Memᴰ.head refl
verdict_sound last (some x ∷ es) h = Memᴰ.tail (verdict_sound (some x) es h)

verdict_complete :
    (last : Option Error) (es : List (Option Error)) → Memᴰ none es → verdict false last es ≡ none
unfolding verdict
verdict_complete last [] k = elim k [ ]
verdict_complete last (none ∷ es) k = verdict-true last es
verdict_complete last (some x ∷ es) (Memᴰ.head e) = cc
verdict_complete last (some x ∷ es) (Memᴰ.tail k) = verdict_complete (some x) es k

-- If no attempt succeeds, the verdict is the last attempt's error.
verdict-last :
    (last : Option Error) (es : List (Option Error)) (x : Error)
    → ¬ Memᴰ none es
    → verdict false last (es ++ some x ∷ []) ≡ some x
unfolding verdict
verdict-last last [] x h = refl
verdict-last last (none ∷ es) x h = absurd (h (Memᴰ.head refl))
verdict-last last (some y ∷ es) x h = verdict-last (some y) es x (λ k. h (Memᴰ.tail k))

module _ {W : Type 0} (m : Manager W) where
  restart_each_lem :
      (names : List String) (b : Bool) (last : Option Error) (w : W)
      → restart_each m names b last w
        ≡ (after_attempts m names w, verdict b last (attempts m names w))
  unfolding restart_each verdict
  restart_each_lem [] b last w = refl
  restart_each_lem (name ∷ names) b last w =
      go (restart_one m name w) (restart_each_lem names true last)
        (λ x. restart_each_lem names b (some x))
    where
      go :
          (r : W × Option Error)
          → ((v : W)
              → restart_each m names true last v
                ≡ (after_attempts m names v, verdict true last (attempts m names v)))
          → ((x : Error) (v : W)
              → restart_each m names b (some x) v
                ≡ (after_attempts m names v, verdict b (some x) (attempts m names v)))
          → elim r.1 [
            | none ↦ restart_each m names true last r.0
            | some x ↦ restart_each m names b (some x) r.0
          ]
            ≡ (after_attempts m names r.0, verdict b last (r.1 ∷ attempts m names r.0))
      go (w', none) then_none then_some = then_none w'
      go (w', some x) then_none then_some = then_some x w'

  -- RestartRuntime tries every runtime that was installed when it was called, in the sorted order and
  -- also after a failure. It returns no error exactly if one of the attempts returned none.
  pub restart_runtime_iff :
      (w : W)
      → ((restart_runtime m w).0 ≡ after_attempts m (installed_runtimes m w) w)
        × (((restart_runtime m w).1 ≡ none) ↔ Memᴰ none (attempts m (installed_runtimes m w) w))
  unfolding restart_runtime
  restart_runtime_iff w =
      let e = restart_each_lem (installed_runtimes m w) false none w in
      rw e (refl, (verdict_sound none _, verdict_complete none _))

  -- If every attempt fails, RestartRuntime returns the error of the last one.
  pub restart_runtime-last_error :
      (w : W) (es : List (Option Error)) (x : Error)
      → attempts m (installed_runtimes m w) w ≡ es ++ some x ∷ []
      → ¬ Memᴰ none es
      → (restart_runtime m w).1 ≡ some x
  unfolding restart_runtime
  restart_runtime-last_error w es x e h =
      rw (restart_each_lem (installed_runtimes m w) false none w, e) (verdict-last none es x h)
