-- ===== src/Base/Paths/Below.antt =====
-- Joining to a directory a cleaned path that does not begin with two dots leads to a path below the directory.
use Prim.Native.String.{◌++◌ as concat}
use text.Mathlib.TextLemmas.{cons-append}
use mathlib.Core.List.{append-nil as list-append-nil}
use mantlerd.Base.{
  ◌≡◌, refl, ap, ◌∙◌, ◌⊎◌, inl, inr, Bool, true, false, ◌||◌, String, List, [], ◌∷◌, ◌++◌, All,
  has_prefix, split, split-join, split-between, split-Lacks, Lacks, join, str_eq, eq_iff,
  Bool-cases, if-holds,
}
use mantlerd.Base.Paths.{add_element, resolve, onto, path_of, clean, join_path}
use mantlerd.Base.Paths.Elements.{IsName, onto-IsName, resolve-IsName, names-Lacks, rooted-eq}

-- An element that does not lead up.
abbrev pub IsLevel : String → Type 0
IsLevel s = Lacks "/" s × (str_eq s ".." ≡ false)

-- A stack of names over a stack of elements `..`.
abbrev AllUp : List String → Type 0
AllUp = All (λ s. s ≡ "..")

abbrev IsTower : List String → Type 0
IsTower [] = Unit
IsTower (s ∷ before) = (IsName s × IsTower before) ⊎ ((s ≡ "..") × AllUp before)

add_element-IsTower :
    (stack : List String) (s : String)
    → Lacks "/" s
    → IsTower stack
    → IsTower (add_element false stack s)
unfolding add_element
add_element-IsTower [] s l h =
    if-holds IsTower (str_eq s "" || str_eq s ".") (λ e. tt)
      (λ e. if-holds IsTower (str_eq s "..") (λ f. inr (refl, tt)) (λ f. inl ((l, (e, f)), tt)))
add_element-IsTower (last ∷ before) s l h =
    if-holds IsTower (str_eq s "" || str_eq s ".") (λ e. h)
      (λ e.
        if-holds IsTower (str_eq s "..")
          (λ f.
            if-holds IsTower (str_eq last "..")
              (λ g. elim h [
                | inl (n, t) ↦ absurd (let d = n.1.1 in cc (d, g))
                | inr (q, u) ↦ inr (refl, (q, u))
              ])
              (λ g. elim h [
                | inl (n, t) ↦ t
                | inr (q, u) ↦ absurd (let d = (eq_iff last "..").1 q in cc (d, g))
              ]))
          (λ f. inl ((l, (e, f)), h)))

resolve-IsTower :
    (stack elements : List String)
    → All (Lacks "/") elements
    → IsTower stack
    → IsTower (resolve false stack elements)
unfolding resolve
resolve-IsTower stack [] l h = h
resolve-IsTower stack (s ∷ elements) l h =
    resolve-IsTower (add_element false stack s) elements l.1 (add_element-IsTower stack s l.0 h)

abbrev BeginsUp : List String → Type 0
BeginsUp parts = (rest : List String) × (parts ≡ ".." ∷ rest)

ups-BeginsUp : (before parts : List String) → AllUp before → BeginsUp (onto before (".." ∷ parts))
ups-BeginsUp [] parts h = (parts, refl)
ups-BeginsUp (s ∷ before) parts h = rw h.0 (ups-BeginsUp before (".." ∷ parts) h.1)

tower_cases :
    (stack parts : List String) → IsTower stack → All IsName stack ⊎ BeginsUp (onto stack parts)
tower_cases [] parts h = inl tt
tower_cases (s ∷ before) parts (inl (n, t)) = elim (tower_cases before (s ∷ parts) t) [
  | inl names ↦ inl (n, names)
  | inr up ↦ inr up
]
tower_cases (s ∷ before) parts (inr (q, u)) = rw q (inr (ups-BeginsUp before parts u))

names-IsLevel : (parts : List String) → All IsName parts → All IsLevel parts
names-IsLevel [] h = tt
names-IsLevel (p ∷ parts) h = ((h.0.0, h.0.1.1), names-IsLevel parts h.1)

split-rooted : (s : String) → split "/" (concat "/" s) ≡ "" ∷ split "/" s
unfolding split
split-rooted s = ap (split "/") (rooted-eq s)

path_of-IsLevel :
    (rooted : Bool) (parts : List String)
    → All IsName parts
    → All IsLevel (split "/" (path_of rooted parts))
unfolding split join
path_of-IsLevel true [] h = (((tt, refl)), ((tt, refl), tt))
path_of-IsLevel true (p ∷ parts) h =
    rw (split-rooted (join "/" (p ∷ parts)), split-join "/" p parts (names-Lacks (p ∷ parts) h))
      ((tt, refl), names-IsLevel (p ∷ parts) h)
path_of-IsLevel false [] h = (((refl, tt), refl), tt)
path_of-IsLevel false (p ∷ parts) h =
    rw (split-join "/" p parts (names-Lacks (p ∷ parts) h)) (names-IsLevel (p ∷ parts) h)

up-has_prefix : (rest : List String) → has_prefix (path_of false (".." ∷ rest)) ".." ≡ true
unfolding has_prefix join
up-has_prefix [] = refl
up-has_prefix (q ∷ rest) =
    rw (cons-append "." "." (String.◌∷◌ "/" (join "/" (q ∷ rest))))
      (rw (cons-append "." "" (String.◌∷◌ "/" (join "/" (q ∷ rest)))) refl)

-- The elements of a cleaned path that does not begin with two dots.
clean-IsLevel :
    (path : String) → has_prefix (clean path) ".." ≡ false → All IsLevel (split "/" (clean path))
unfolding clean
clean-IsLevel path h = go (has_prefix path "/") h
  where
    parts : Bool → List String
    parts rooted = onto (resolve rooted [] (split "/" path)) []

    go :
        (b : Bool)
        → has_prefix (path_of b (parts b)) ".." ≡ false
        → All IsLevel (split "/" (path_of b (parts b)))
    go true k = path_of-IsLevel true (parts true) (
        onto-IsName (resolve true [] (split "/" path)) []
          (resolve-IsName [] (split "/" path) (split-Lacks "/" path) tt) tt)
    go false k =
        elim (tower_cases (resolve false [] (split "/" path)) []
          (resolve-IsTower [] (split "/" path) (split-Lacks "/" path) tt)) [
            | inl names ↦
                path_of-IsLevel false (parts false)
                  (onto-IsName (resolve false [] (split "/" path)) [] names tt)
            | inr (rest, e) ↦ let u = up-has_prefix rest in absurd (cc (k, u, e))
          ]

resolve-append :
    (stack xs ys : List String)
    → resolve true stack (xs ++ ys) ≡ resolve true (resolve true stack xs) ys
unfolding resolve
resolve-append stack [] ys = refl
resolve-append stack (x ∷ xs) ys = resolve-append (add_element true stack x) xs ys

add_element-name :
    (stack : List String) (s : String) → IsName s → add_element true stack s ≡ s ∷ stack
unfolding add_element
add_element-name [] s h = rw (h.1.0, h.1.1) refl
add_element-name (t ∷ stack) s h = rw (h.1.0, h.1.1) refl

add_element-idle :
    (stack : List String) (s : String)
    → (str_eq s "" || str_eq s ".") ≡ true
    → add_element true stack s ≡ stack
unfolding add_element
add_element-idle [] s h = rw h refl
add_element-idle (t ∷ stack) s h = rw h refl

resolve-names :
    (stack names : List String) → All IsName names → resolve true stack names ≡ onto names stack
unfolding resolve
resolve-names stack [] h = refl
resolve-names stack (s ∷ names) h =
    rw (add_element-name stack s h.0) (resolve-names (s ∷ stack) names h.1)

-- Elements that do not lead up only add names.
resolve-levels :
    (stack elements : List String)
    → All IsLevel elements
    → (names : List String) × All IsName names × (resolve true stack elements ≡ onto names stack)
unfolding resolve
resolve-levels stack [] h = ([], tt, refl)
resolve-levels stack (s ∷ elements) h = elim (Bool-cases (str_eq s "" || str_eq s ".")) [
  | inl e ↦ rw (add_element-idle stack s e) (resolve-levels stack elements h.1)
  | inr e ↦
      let name : IsName s = (h.0.0, (e, h.0.1)) in
      let (names, n, q) = resolve-levels (s ∷ stack) elements h.1 in
      (s ∷ names, (name, n), ap (λ l. resolve true l elements) (add_element-name stack s name) ∙ q)
]

onto-onto : (xs stack parts : List String) → onto (onto xs stack) parts ≡ onto stack (xs ++ parts)
onto-onto [] stack parts = refl
onto-onto (x ∷ xs) stack parts = onto-onto xs (x ∷ stack) parts

-- A path below a directory, by the names on the way to the directory.
abbrev pub IsBelow : List String → String → Type 0
IsBelow names path =
    (rest : List String) × All IsName rest × (path ≡ concat "/" (join "/" (names ++ rest)))

clean_of_rooted :
    (path : String)
    → has_prefix path "/" ≡ true
    → clean path ≡ concat "/" (join "/" (onto (resolve true [] (split "/" path)) []))
unfolding clean
clean_of_rooted path h = rw h refl

concat-rooted : (s t : String) → has_prefix (concat (concat "/" s) t) "/" ≡ true
unfolding has_prefix
concat-rooted s t = rw (rooted-eq s, cons-append "/" s t) refl

module _ (n : String) (names : List String) (named : All IsName (n ∷ names)) where
  split-directory : split "/" (concat "/" (join "/" (n ∷ names))) ≡ "" ∷ n ∷ names
  split-directory =
      split-rooted (join "/" (n ∷ names))
      ∙ ap (λ l. "" ∷ l) (split-join "/" n names (names-Lacks (n ∷ names) named))

  resolve-directory : resolve true [] ("" ∷ n ∷ names) ≡ onto (n ∷ names) []
  unfolding resolve
  resolve-directory =
      ap (λ stack. resolve true stack (n ∷ names)) (add_element-idle [] "" refl)
      ∙ resolve-names [] (n ∷ names) named

  -- A directory's path and more elements, none of which leads up.
  pub clean-IsBelow :
      (s : String)
      → All IsLevel (split "/" s)
      → IsBelow (n ∷ names) (clean (concat (concat "/" (join "/" (n ∷ names))) (concat "/" s)))
  clean-IsBelow s levels =
      let directory = concat "/" (join "/" (n ∷ names)) in
      let elements = split "/" s in
      let stack = onto (n ∷ names) [] in
      let (rest, r, e) = resolve-levels stack elements levels in
      let whole : split "/" (concat directory (concat "/" s)) ≡ ("" ∷ n ∷ names) ++ elements =
        ap (λ t. split "/" (concat directory t)) (rooted-eq s)
        ∙ split-between "/" directory s
        ∙ ap (λ l. l ++ elements) split-directory in
      (
        rest,
        r,
        clean_of_rooted (concat directory (concat "/" s))
              (concat-rooted (join "/" (n ∷ names)) (concat "/" s))
            ∙ ap (λ l. concat "/" (join "/" (onto l [])))
                (ap (resolve true []) whole
                  ∙ resolve-append [] ("" ∷ n ∷ names) elements
                  ∙ ap (λ l. resolve true l elements) resolve-directory
                  ∙ e)
            ∙ ap (λ l. concat "/" (join "/" l))
                (onto-onto rest stack []
                  ∙ onto-onto (n ∷ names) [] (rest ++ [])
                  ∙ ap (λ l. (n ∷ names) ++ l) (list-append-nil rest)),
      )

  -- A cleaned path that does not begin with two dots.
  pub join_path-IsBelow :
      (path : String)
      → has_prefix (clean path) ".." ≡ false
      → IsBelow (n ∷ names) (join_path (concat "/" (join "/" (n ∷ names))) (clean path))
  unfolding join_path
  join_path-IsBelow path k = clean-IsBelow (clean path) (clean-IsLevel path k)
