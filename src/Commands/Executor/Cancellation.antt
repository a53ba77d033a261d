-- ===== src/Commands/Executor/Cancellation.antt =====
-- The registry of the running commands.
use mantlerd.Base.{
  ℕ, ◌+◌, ◌≡◌, refl, sym, ap, ◌∙◌, subst, inl, inr, Bool, true, false, String, List, [], ◌∷◌, All,
  Option, none, some, ◌==◌, str_eq, eq_iff, Bool-cases, if-holds, if◌then◌else◌,
}
use mantlerd.Base.Dict.{lookup, lookup-put, lookup-delete}
use mantlerd.Policy.{Verdict, permitted, denied, allowed}
use mantlerd.Commands.Lanes.{AgentCommand}
use mantlerd.Commands.Executor.{
  Executor, register_cancel, cancel_command, begin_command, take_context, finish_taken,
  finish_command,
}

-- The context of the running command with an ID.
abbrev pub context_of : String → List (ℕ × AgentCommand) → Option ℕ
context_of id [] = none
context_of id ((n, c) ∷ rs) = if str_eq c.id id then some n else context_of id rs

-- What CancelCommand is to do, by the commands that run.
abbrev pub cancel_running : String → Executor → Bool × Executor
cancel_running id e = elim (context_of id e.running) [
  | none ↦ (false, e)
  | some context ↦ (true, record e { cancelled = context ∷ e.cancelled })
]

abbrev pub idle : String → List String → Executor
idle trust_mode allowed_commands = record {
  trust_mode = trust_mode;
  allowed_commands = allowed_commands;
  active_cancel = [];
  cancelled = [];
  next_context = 0;
  running = [];
}

-- What the goroutines do, where no command begins while one with its ID runs.
pub data Step (e f : Executor) : Type 0 where
  beginning :
      (c : AgentCommand) → context_of c.id e.running ≡ none → f ≡ begin_command c e → Step e f
  cancelling : (id : String) → f ≡ (cancel_command id e).1 → Step e f
  finishing : (context : ℕ) → f ≡ finish_command context e → Step e f

pub data Reach (trust_mode : String) (allowed_commands : List String) : Executor → Type 0 where
  here : Reach trust_mode allowed_commands (idle trust_mode allowed_commands)
  next :
      {e f : Executor}
      → Reach trust_mode allowed_commands e
      → Step e f
      → Reach trust_mode allowed_commands f

abbrev IsDistinct : List (ℕ × AgentCommand) → Type 0
IsDistinct [] = Unit
IsDistinct ((n, c) ∷ rs) = (context_of c.id rs ≡ none) × IsDistinct rs

abbrev pub IsPermitted : Executor → ℕ × AgentCommand → Type 0
IsPermitted e (n, c) = allowed e.trust_mode c.command_type e.allowed_commands ≡ permitted

pub record Inv (e : Executor) : Type 0 where
  pub tracked : (id : String) → lookup id e.active_cancel ≡ context_of id e.running
  pub distinct : IsDistinct e.running
  pub allowed_only : All (IsPermitted e) e.running

begin-Inv :
    (c : AgentCommand) (e : Executor)
    → context_of c.id e.running ≡ none
    → Inv e
    → Inv (begin_command c e)
unfolding begin_command
begin-Inv c e free v = go (allowed e.trust_mode c.command_type e.allowed_commands) refl
  where
    after : Verdict → Executor
    after o = elim o [
      | denied reason ↦ e
      | permitted ↦ register_cancel c.id e.next_context (record e {
        next_context = e.next_context + 1;
        running = (e.next_context, c) ∷ e.running;
      })
    ]

    go : (o : Verdict) → allowed e.trust_mode c.command_type e.allowed_commands ≡ o → Inv (after o)
    go (denied reason) q = v
    go permitted q = record {
      tracked = λ id.
          lookup-put c.id id e.next_context e.active_cancel
          ∙ ap (λ o. if str_eq c.id id then some e.next_context else o) (v.tracked id);
      distinct = (free, v.distinct);
      allowed_only = (q, v.allowed_only);
    }

-- What taking a command leaves.
abbrev Taken :
    Executor → List (ℕ × AgentCommand) → Option (AgentCommand × List (ℕ × AgentCommand)) → Type 0
Taken e rs none = Unit
Taken e rs (some (c, rest)) =
    ((k : ℕ) × (context_of c.id rs ≡ some k))
    × (((id : String) → context_of id rest ≡ (if str_eq c.id id then none else context_of id rs))
        × (IsDistinct rest × All (IsPermitted e) rest))

head-Taken :
    (e : Executor) (m : ℕ) (c : AgentCommand) (rs : List (ℕ × AgentCommand))
    → IsDistinct ((m, c) ∷ rs)
    → All (IsPermitted e) ((m, c) ∷ rs)
    → Taken e ((m, c) ∷ rs) (some (c, rs))
head-Taken e m c rs d p = (
  (m, rw ((eq_iff c.id c.id).1 refl) refl),
  (
    λ id. elim (Bool-cases (str_eq c.id id)) [
      | inl same ↦ rw same (subst (λ i. context_of i rs ≡ none) ((eq_iff c.id id).0 same) d.0)
      | inr other ↦ rw other refl
    ],
    (d.1, p.1),
  ),
)

later-Taken :
    (e : Executor) (m : ℕ) (d : AgentCommand) (rs : List (ℕ × AgentCommand))
    → IsDistinct ((m, d) ∷ rs)
    → All (IsPermitted e) ((m, d) ∷ rs)
    → (o : Option (AgentCommand × List (ℕ × AgentCommand))) → Taken e rs o
    → Taken e ((m, d) ∷ rs) (elim o [ none ↦ none | some (c, rest) ↦ some (c, (m, d) ∷ rest) ])
later-Taken e m d rs u p none t = tt
later-Taken e m d rs u p (some (c, rest)) ((k, q), (t, (a, b))) =
    let apart : str_eq d.id c.id ≡ false = elim (Bool-cases (str_eq d.id c.id)) [
      | inl same ↦
          absurd (
            let z = subst (λ i. context_of i rs ≡ none) ((eq_iff d.id c.id).0 same) u.0 in
            cc (q, z))
      | inr other ↦ other
    ] in
    (
      (k, rw apart q),
      (
        λ id. elim (Bool-cases (str_eq d.id id)) [
          | inl same ↦
              let apart' : str_eq c.id id ≡ false = elim (Bool-cases (str_eq c.id id)) [
                | inl s ↦ absurd (
                    let z =
                      (eq_iff d.id c.id).1 ((eq_iff d.id id).0 same ∙ sym ((eq_iff c.id id).0 s)) in
                    cc (apart, z))
                | inr o ↦ o
              ] in
              rw (same, apart') refl
          | inr other ↦ rw other (t id)
        ],
        (
          (t d.id ∙ if-holds (λ o. o ≡ none) (str_eq c.id d.id) (λ same. refl) (λ other. u.0), a),
          (p.0, b),
        ),
      ),
    )

take-Taken :
    (e : Executor) (n : ℕ) (rs : List (ℕ × AgentCommand))
    → IsDistinct rs
    → All (IsPermitted e) rs
    → Taken e rs (take_context n rs)
unfolding take_context
take-Taken e n [] d p = tt
take-Taken e n ((m, c) ∷ rs) d p =
    if-holds (Taken e ((m, c) ∷ rs)) (n == m) (λ this. head-Taken e m c rs d p)
      (λ other. later-Taken e m c rs d p (take_context n rs) (take-Taken e n rs d.1 p.1))

finish_taken-Inv :
    (e : Executor) (o : Option (AgentCommand × List (ℕ × AgentCommand)))
    → Inv e
    → Taken e e.running o
    → Inv (finish_taken o e)
finish_taken-Inv e none v t = v
finish_taken-Inv e (some (c, rest)) v (k, (t, (a, b))) = record {
  tracked = λ id.
      lookup-delete c.id id e.active_cancel
      ∙ ap (λ o. if str_eq c.id id then none else o) (v.tracked id)
      ∙ sym (t id);
  distinct = a;
  allowed_only = b;
}

finish-Inv : (context : ℕ) (e : Executor) → Inv e → Inv (finish_command context e)
unfolding finish_command
finish-Inv context e v =
    finish_taken-Inv e (take_context context e.running) v
      (take-Taken e context e.running v.distinct v.allowed_only)

cancel-Inv : (id : String) (e : Executor) → Inv e → Inv (cancel_command id e).1
unfolding cancel_command
cancel-Inv id e v = go (lookup id e.active_cancel)
  where
    after : Option ℕ → Bool × Executor
    after o = elim o [
      | none ↦ (false, e)
      | some n ↦ (true, record e { cancelled = n ∷ e.cancelled })
    ]

    go : (o : Option ℕ) → Inv (after o).1
    go none = v
    go (some n) = record {
      tracked = v.tracked;
      distinct = v.distinct;
      allowed_only = v.allowed_only;
    }

module _ {trust_mode : String} {allowed_commands : List String} where
  from_idle-Inv : {e : Executor} → Reach trust_mode allowed_commands e → Inv e
  from_idle-Inv here = record {
    tracked = λ id. unfold lookup in refl;
    distinct = tt;
    allowed_only = tt;
  }
  from_idle-Inv (next r (beginning c free q)) =
      subst Inv (sym q) (begin-Inv c _ free (from_idle-Inv r))
  from_idle-Inv (next r (cancelling id q)) = subst Inv (sym q) (cancel-Inv id _ (from_idle-Inv r))
  from_idle-Inv (next r (finishing context q)) =
      subst Inv (sym q) (finish-Inv context _ (from_idle-Inv r))

  -- Whenever commands begin, are cancelled and finish, as long as none begins while another with its ID
  -- runs: every running command is permitted by the policy, and CancelCommand finds exactly the commands
  -- that run, and cancels the context of the one with the ID and nothing else.
  pub cancel-running :
      {e : Executor}
      → Reach trust_mode allowed_commands e
      → All (IsPermitted e) e.running × ((id : String) → cancel_command id e ≡ cancel_running id e)
  unfolding cancel_command
  cancel-running {e} r =
      let v = from_idle-Inv r in
      (
        v.allowed_only,
        λ id.
            ap
              (λ o. elim o as (λ o. Bool × Executor) [
                | none ↦ (false, e)
                | some context ↦ (true, record e { cancelled = context ∷ e.cancelled })
              ])
              (v.tracked id),
      )
