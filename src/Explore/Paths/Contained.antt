-- ===== src/Explore/Paths/Contained.antt =====
-- The elements of the paths that sanitizeRuntimePlanPath in cmd/mantler/explore.go accepts.
use Prim.Native.String.{◌++◌ as concat}
use text.Mathlib.TextLemmas.{append_assoc}
use mathlib.Core.List.{append-nil as list-append-nil}
use mantlerd.Base.{
  ◌∙◌, sym, ap, subst, ◌⊎◌, inl, inr, List, [], ◌∷◌, ◌++◌, split, split-between, trim_prefix,
  append-trim_prefix, eq_iff, Bool-cases, ◌≡◌, true, ◌||◌, not, String, Memᴰ, any, any-Memᴰ,
  has_prefix, str_eq, trim_space, if-holds, arith,
}
use mantlerd.Base.Paths.{clean}
use mantlerd.Base.Paths.Elements.{rooted-eq, IsDirect, clean-IsDirect, clean-rooted}
use mantlerd.Explore.Paths.{
  Sanitized, sanitized, refused, allowed_roots, is_under, sanitize_runtime_plan_path,
}

-- The elements of a path, of which the first is empty where it begins with a slash, begin with others.
abbrev pub BeginsWith : List String → String → Type 0
BeginsWith root path = (rest : List String) × (split "/" path ≡ root ++ rest)

-- The path is one of the three allowed roots or below it, element by element.
abbrev pub IsBelowRoot : String → Type 0
IsBelowRoot path =
    BeginsWith ("" ∷ "etc" ∷ "mantler" ∷ []) path
    ⊎ BeginsWith ("" ∷ "var" ∷ "lib" ∷ "mantler" ∷ []) path
    ⊎ BeginsWith ("" ∷ "opt" ∷ "mantler" ∷ []) path

-- What is accepted, by its path.
abbrev pub IsContained : Sanitized → Type 0
IsContained (refused e) = Unit
IsContained (sanitized path) = IsBelowRoot path × IsDirect path

under-BeginsWith :
    (path root : String) → is_under path root ≡ true → BeginsWith (split "/" root) path
under-BeginsWith path root h = elim (Bool-cases (str_eq path root)) [
  | inl e ↦ ([], ap (split "/") ((eq_iff path root).0 e) ∙ sym (list-append-nil (split "/" root)))
  | inr e ↦
      let prefixed : has_prefix path (concat root "/") ≡ true = ground (arith, h, e) in
      let rest = trim_prefix path (concat root "/") in
      (
        split "/" rest,
        ap (split "/") (
              sym (append-trim_prefix path (concat root "/") prefixed)
              ∙ append_assoc root "/" rest
              ∙ ap (concat root) (rooted-eq rest))
            ∙ split-between "/" root rest,
      )
]

roots-IsBelowRoot :
    (path root : String) → Memᴰ root allowed_roots → is_under path root ≡ true → IsBelowRoot path
unfolding split
roots-IsBelowRoot path root m h =
    let below = under-BeginsWith path root h in
    let at = λ (r : String) (e : root ≡ r). subst (λ x. BeginsWith (split "/" x) path) e below in
    elim m [
      | Memᴰ.head e ↦ inl (at "/etc/mantler" e)
      | Memᴰ.tail k ↦ elim k [
        | Memᴰ.head e ↦ inr (inl (at "/var/lib/mantler" e))
        | Memᴰ.tail l ↦ elim l [
          | Memᴰ.head e ↦ inr (inr (at "/opt/mantler" e))
          | Memᴰ.tail n ↦ elim n [ ]
        ]
      ]
    ]

-- A destination is accepted only as a path whose elements begin with those of /etc/mantler, /var/lib/mantler or
-- /opt/mantler, and that has no element `.` or `..`, so that it does not lead out of the root again.
pub sanitize-IsContained :
    (destination : String) → IsContained (sanitize_runtime_plan_path destination)
unfolding sanitize_runtime_plan_path
sanitize-IsContained destination =
    let cleaned = clean (trim_space destination) in
    if-holds IsContained (str_eq cleaned "." || str_eq cleaned "") (λ e. tt)
      λ e.
        if-holds IsContained (not (has_prefix cleaned "/")) (λ f. tt)
          λ f.
            if-holds IsContained (any (is_under cleaned) allowed_roots)
              (λ g.
                let (root, k, under) = any-Memᴰ (is_under cleaned) allowed_roots g in
                (
                  roots-IsBelowRoot cleaned root k under,
                  clean-IsDirect (trim_space destination)
                      (clean-rooted (trim_space destination) (ground arith)),
                ))
              (λ g. tt)
