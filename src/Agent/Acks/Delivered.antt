-- ===== src/Agent/Acks/Delivered.antt =====
-- No ack is lost.
use mathlib.Core.List.{append_assoc}
use mathlib.Core.List.Permᴰ
use mantlerd.Base.{
  ℕ, zero, suc, ◌+◌, ◌≤◌, ◌≡◌, refl, sym, ap, ◌∙◌, subst, inl, inr, true, List, [], ◌∷◌, ◌++◌,
  Permᴰ, Option, none, some, length, length-append, perm-length, ltb, Option-cases, if-holds, arith,
}
use mantlerd.Client.Retry.{Failure}
use mantlerd.Agent.Acks.{
  absent, Acks, wait_before_retry, is_rate_limit, load_failed_acks, called, accept, refuse, sleep,
  save_failed_acks, enqueue_failed_ack, ack_attempts, ack_command_with_retry, flush_each,
  flush_queued, flush_failed_acks,
}

pub data Operation (P : Type 0) : Type 0 where
  acking : P → Operation P
  flushing : Operation P

module _ {P : Type 0} where
  abbrev pub fresh : Acks P
  fresh = record { calls = 0; file = absent; accepted = []; refused = []; slept = [] }

  -- Each of the acks that were handed over was accepted, was refused or stands in the file, once.
  pub record IsBalanced (submitted : List P) (s : Acks P) : Type 0 where
    pub queued : List P
    pub loaded : load_failed_acks s.file ≡ some queued
    pub balance : Permᴰ submitted (s.refused ++ (s.accepted ++ queued))

  accept-IsBalanced :
      (p : P) {l : List P} (s : Acks P) → IsBalanced l s → IsBalanced (p ∷ l) (accept p s)
  accept-IsBalanced p s v = record {
    queued = v.queued;
    loaded = v.loaded;
    balance =
        Permᴰ.trans (Permᴰ.cons refl v.balance)
          (Permᴰ.symm (Permᴰ.middle p s.refused (s.accepted ++ v.queued)));
  }

  refuse-IsBalanced :
      (p : P) {l : List P} (s : Acks P) → IsBalanced l s → IsBalanced (p ∷ l) (refuse p s)
  refuse-IsBalanced p s v = record {
    queued = v.queued;
    loaded = v.loaded;
    balance = Permᴰ.cons refl v.balance;
  }

  slept-IsBalanced :
      (wait : ℕ) {l : List P} (s : Acks P) → IsBalanced l s → IsBalanced l (sleep wait (called s))
  slept-IsBalanced wait s v = record { queued = v.queued; loaded = v.loaded; balance = v.balance }

  queued-length : {l : List P} (s : Acks P) (v : IsBalanced l s) → length v.queued ≤ length l
  queued-length s v = omega (
    arith,
    perm-length v.balance,
    length-append s.refused (s.accepted ++ v.queued),
    length-append s.accepted v.queued,
  )

  queued_last : (r a q : List P) (p : P) → Permᴰ (p ∷ r ++ (a ++ q)) (r ++ (a ++ (q ++ p ∷ [])))
  queued_last r a q p =
      subst (λ l. Permᴰ (p ∷ r ++ (a ++ q)) l)
        (append_assoc r (a ++ q) (p ∷ []) ∙ ap (λ l. r ++ l) (append_assoc a q (p ∷ [])))
        (Permᴰ.append_comm (p ∷ []) (r ++ (a ++ q)))

module _ {P : Type 0} (reply : ℕ → P → Option Failure) where
  enqueue-eq :
      (p : P) (s : Acks P) (queued : List P)
      → load_failed_acks s.file ≡ some queued
      → suc (length queued) ≤ 2000
      → enqueue_failed_ack reply true p s ≡ save_failed_acks reply true (queued ++ p ∷ []) s
  unfolding enqueue_failed_ack save_failed_acks
  enqueue-eq p s queued h room =
      rw (h, enqueue_failed_ack)
        (ap (λ l. save_failed_acks reply true l s)
          (if-holds (λ l. l ≡ queued ++ p ∷ []) (ltb 2000 (length (queued ++ p ∷ [])))
            (λ over. absurd (ground (arith, length-append queued (p ∷ [])))) (λ fits. refl)))

  enqueue-IsBalanced :
      (p : P) {l : List P} (s : Acks P)
      → IsBalanced l s
      → suc (length l) ≤ 2000
      → IsBalanced (p ∷ l) (enqueue_failed_ack reply true p s)
  unfolding save_failed_acks
  enqueue-IsBalanced p {l} s v room =
      subst (IsBalanced (p ∷ l))
        (sym (enqueue-eq p s v.queued v.loaded (omega (arith, queued-length s v))))
        (record {
          queued = v.queued ++ p ∷ [];
          loaded = refl;
          balance =
              Permᴰ.trans (Permᴰ.cons refl v.balance) (queued_last s.refused s.accepted v.queued p);
        })

  ack_attempts-IsBalanced :
      (left : ℕ) (p : P) (last : Option Failure) {l : List P} (s : Acks P)
      → IsBalanced l s
      → suc (length l) ≤ 2000
      → IsBalanced (p ∷ l) (ack_attempts reply true left p last s).1
  unfolding ack_attempts
  ack_attempts-IsBalanced zero p last s v room = enqueue-IsBalanced p s v room
  ack_attempts-IsBalanced (suc left) p last s v room = elim (Option-cases (reply s.calls p)) [
    | inl q ↦ rw (q, ack_attempts) (accept-IsBalanced p s v)
    | inr (e, q) ↦ elim (Option-cases (wait_before_retry e)) [
      | inl w ↦ rw (q, w, ack_attempts) (refuse-IsBalanced p s v)
      | inr (wait, w) ↦
          rw (q, w, ack_attempts)
            (ack_attempts-IsBalanced left p (some e) (sleep wait (called s))
              (slept-IsBalanced wait s v) room)
    ]
  ]

  -- The acks that remain and what has been accepted, through a flush.
  abbrev IsFlushed : List P → Acks P → List P × Acks P → Type 0
  IsFlushed ps s (remaining, s') =
      Permᴰ (s.accepted ++ ps) (s'.accepted ++ remaining) × (s'.refused ≡ s.refused)

  flush_each-IsFlushed : (ps : List P) (s : Acks P) → IsFlushed ps s (flush_each reply true ps s)
  unfolding flush_each
  flush_each-IsFlushed [] s = (Permᴰ.refl (s.accepted ++ []), refl)
  flush_each-IsFlushed (p ∷ ps) s = elim (Option-cases (reply s.calls p)) [
    | inl q ↦
        rw (q, flush_each)
          (let (perm, same) = flush_each-IsFlushed ps (accept p s) in
            (Permᴰ.trans (Permᴰ.middle p s.accepted ps) perm, same))
    | inr (e, q) ↦
        rw (q, flush_each)
          (if-holds (IsFlushed (p ∷ ps) s) (is_rate_limit e)
            (λ limited. (Permᴰ.refl (s.accepted ++ (p ∷ ps)), refl))
            (λ other.
              let (perm, same) = flush_each-IsFlushed ps (called s) in
              (
                Permᴰ.trans (Permᴰ.middle p s.accepted ps)
                    (Permᴰ.trans (Permᴰ.cons refl perm) (Permᴰ.symm (Permᴰ.middle p _ _))),
                same,
              )))
  ]

  flush_queued-IsBalanced :
      (ps : List P) {l : List P} (s : Acks P)
      → load_failed_acks s.file ≡ some ps
      → Permᴰ l (s.refused ++ (s.accepted ++ ps))
      → IsBalanced l (flush_queued reply true ps s)
  unfolding flush_queued save_failed_acks
  flush_queued-IsBalanced [] s h perm = record { queued = []; loaded = h; balance = perm }
  flush_queued-IsBalanced (p ∷ ps) {l} s h perm =
      let (remaining, s') = flush_each reply true (p ∷ ps) s in
      let (moved, same) = flush_each-IsFlushed (p ∷ ps) s in
      record {
        queued = remaining;
        loaded = refl;
        balance =
            subst (λ r. Permᴰ l (r ++ (s'.accepted ++ remaining))) (sym same)
              (Permᴰ.trans perm (Permᴰ.append_left s.refused moved));
      }

  flush-IsBalanced :
      {l : List P} (s : Acks P) → IsBalanced l s → IsBalanced l (flush_failed_acks reply true s)
  unfolding flush_failed_acks
  flush-IsBalanced s v =
      rw (v.loaded, flush_failed_acks) (flush_queued-IsBalanced v.queued s v.loaded v.balance)

  -- The operations that the agent performs, one after another; those that were handed over, the latest first.
  unfoldable pub perform : List (Operation P) → List P → Acks P → List P × Acks P
  perform [] l s = (l, s)
  perform (acking p ∷ ops) l s = perform ops (p ∷ l) (ack_command_with_retry reply true p s).1
  perform (flushing ∷ ops) l s = perform ops l (flush_failed_acks reply true s)

  perform-IsBalanced :
      (ops : List (Operation P)) (l : List P) (s : Acks P)
      → IsBalanced l s
      → length ops + length l ≤ 2000
      → let (l', s') = perform ops l s in IsBalanced l' s'
  unfolding perform ack_command_with_retry
  perform-IsBalanced [] l s v room = v
  perform-IsBalanced (acking p ∷ ops) l s v room =
      perform-IsBalanced ops (p ∷ l) (ack_command_with_retry reply true p s).1
        (ack_attempts-IsBalanced 3 p none s v (omega arith)) (omega arith)
  perform-IsBalanced (flushing ∷ ops) l s v room =
      perform-IsBalanced ops l (flush_failed_acks reply true s) (flush-IsBalanced s v) (omega arith)

  -- Through any sequence of at most 2000 acks and flushes, one after another, with a file that can be
  -- written, and whatever the server replies, each ack that was handed over has been accepted by the
  -- server, has been refused by it for good, or stands in the file, exactly once.
  pub perform-fresh-IsBalanced :
      (ops : List (Operation P))
      → length ops ≤ 2000
      → let (l, s) = perform ops [] fresh in IsBalanced l s
  perform-fresh-IsBalanced ops room =
      perform-IsBalanced ops [] fresh (record { queued = []; loaded = refl; balance = Permᴰ.nil })
        (omega arith)
