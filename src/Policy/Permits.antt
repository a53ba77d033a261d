-- ===== src/Policy/Permits.antt =====
-- When `allowed` permits a command.
use mantlerd.Base.{
  ◌≡◌, refl, sym, ap, ◌∙◌, ◌↔◌, ◌⊎◌, inl, inr, true, String, List, [], ◌∷◌, Memᴰ, str_eq, eq_iff,
  trim_space, trim_space_idem, arith, Bool-cases, elem-Memᴰ, Memᴰ-elem,
}
use mantlerd.Policy.{
  destructive_commands, is_destructive, Reason, restricted_mode, unknown_mode, permitted, listed_or,
  restrict, allowed,
}

-- The operator's list names the command, up to white space at either end.
abbrev pub IsListed : String → List String → Type 0
IsListed name allowed_commands =
    (entry : String) × Memᴰ entry allowed_commands × (trim_space entry ≡ name)

abbrev pub IsManaged : String → Type 0
IsManaged mode = (mode ≡ "managed") ⊎ (mode ≡ "")

-- The policy as the package's documentation states it.
abbrev pub Permits : String → String → List String → Type 0
Permits mode command_type allowed_commands =
    IsManaged mode
    ⊎ (¬ Memᴰ (trim_space command_type) destructive_commands)
    ⊎ IsListed (trim_space command_type) allowed_commands

listed_or-IsListed :
    (r : Reason) (s : String) (l : List String) → listed_or r s l ≡ permitted → IsListed s l
unfolding listed_or
listed_or-IsListed r s [] h = cc
listed_or-IsListed r s (x ∷ l) h = elim (Bool-cases (str_eq (trim_space x) s)) [
  | inl e ↦ (x, Memᴰ.head refl, (eq_iff (trim_space x) s).0 e)
  | inr e ↦ let (entry, m, q) = listed_or-IsListed r s l (rw e at h) in (entry, Memᴰ.tail m, q)
]

IsListed-listed_or :
    (r : Reason) (s : String) (l : List String) (entry : String)
    → Memᴰ entry l
    → trim_space entry ≡ s
    → listed_or r s l ≡ permitted
unfolding listed_or
IsListed-listed_or r s [] entry m q = elim m [ ]
IsListed-listed_or r s (x ∷ l) entry (Memᴰ.head e) q =
    rw ((eq_iff (trim_space x) s).1 (ap trim_space (sym e) ∙ q))
IsListed-listed_or r s (x ∷ l) entry (Memᴰ.tail m) q =
    let ih = IsListed-listed_or r s l entry m q in ground arith

is_destructive_iff :
    (s : String) → (is_destructive s ≡ true) ↔ Memᴰ (trim_space s) destructive_commands
unfolding is_destructive
is_destructive_iff s = (elem-Memᴰ (trim_space s) _, Memᴰ-elem (trim_space s) _)

-- `Allowed` has trimmed the name that `IsDestructive` trims once more.
is_destructive-trim_space : (s : String) → is_destructive (trim_space s) ≡ is_destructive s
unfolding is_destructive
is_destructive-trim_space s = rw (trim_space_idem s)

restrict_sound :
    (r : Reason) (s : String) (l : List String)
    → restrict r (trim_space s) l ≡ permitted
    → (¬ Memᴰ (trim_space s) destructive_commands) ⊎ IsListed (trim_space s) l
unfolding restrict
restrict_sound r s l h = elim (Bool-cases (is_destructive s)) [
  | inl e ↦ inr (listed_or-IsListed r (trim_space s) l (rw (is_destructive-trim_space s, e) at h))
  | inr e ↦ inl (λ m. let k = (is_destructive_iff s).1 m in cc)
]

restrict_complete :
    (r : Reason) (s : String) (l : List String)
    → (¬ Memᴰ (trim_space s) destructive_commands) ⊎ IsListed (trim_space s) l
    → restrict r (trim_space s) l ≡ permitted
unfolding restrict
restrict_complete r s l h = elim (Bool-cases (is_destructive s)) [
  | inl e ↦ rw (is_destructive-trim_space s, e) (listed h e)
  | inr e ↦ rw (is_destructive-trim_space s, e)
]
  where
    listed :
        (¬ Memᴰ (trim_space s) destructive_commands) ⊎ IsListed (trim_space s) l
        → is_destructive s ≡ true
        → listed_or r (trim_space s) l ≡ permitted
    listed (inl n) e = absurd (n ((is_destructive_iff s).0 e))
    listed (inr (entry, m, q)) e = IsListed-listed_or r (trim_space s) l entry m q

-- A command is permitted exactly if the mode is managed or empty, or its trimmed type is not among
-- the destructive commands, or an entry of the operator's list equals it after trimming. In
-- particular a mode that is not known is treated as the restricted one.
pub allowed_iff :
    (mode command_type : String) (allowed_commands : List String)
    → (allowed mode command_type allowed_commands ≡ permitted)
      ↔ Permits mode command_type allowed_commands
unfolding allowed
allowed_iff mode c l = (sound, complete)
  where
    sound : allowed mode c l ≡ permitted → Permits mode c l
    sound h = ground (
      arith,
      eq_iff mode "managed",
      eq_iff mode "",
      restrict_sound (restricted_mode (trim_space c) mode) c l,
      restrict_sound (unknown_mode (trim_space c) mode) c l,
    )

    unmanaged :
        (¬ Memᴰ (trim_space c) destructive_commands) ⊎ IsListed (trim_space c) l
        → allowed mode c l ≡ permitted
    unmanaged h =
        let a = restrict_complete (restricted_mode (trim_space c) mode) c l h in
        let b = restrict_complete (unknown_mode (trim_space c) mode) c l h in ground arith

    complete : Permits mode c l → allowed mode c l ≡ permitted
    complete (inl (inl e)) = rw ((eq_iff mode "managed").1 e)
    complete (inl (inr e)) = rw e
    complete (inr h) = unmanaged h

-- Outside managed mode the verdict does not depend on which other mode is configured: an unknown
-- mode permits exactly what the restricted mode permits.
pub unknown_as_restricted :
    (mode command_type : String) (allowed_commands : List String)
    → ¬ IsManaged mode
    → (allowed mode command_type allowed_commands ≡ permitted)
      ↔ (allowed "restricted" command_type allowed_commands ≡ permitted)
unknown_as_restricted mode c l h = (
  λ e. (allowed_iff "restricted" c l).1 (weaken ((allowed_iff mode c l).0 e)),
  λ e. (allowed_iff mode c l).1 (strict ((allowed_iff "restricted" c l).0 e)),
)
  where
    weaken : Permits mode c l → Permits "restricted" c l
    weaken (inl m) = absurd (h m)
    weaken (inr k) = inr k

    strict : Permits "restricted" c l → Permits mode c l
    strict (inl (inl e)) = ground (arith, eq_iff "restricted" "managed")
    strict (inl (inr e)) = ground (arith, eq_iff "restricted" "")
    strict (inr k) = inr k
