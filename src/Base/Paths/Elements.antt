-- ===== src/Base/Paths/Elements.antt =====
-- The elements of a path that Clean returns.
use Prim.Native.String.{◌++◌}
use text.Mathlib.TextLemmas.{nil-append, cons-append, append-nil}
use mantlerd.Base.{
  ◌≡◌, refl, sym, ap, ◌∙◌, subst, inl, inr, true, false, ◌||◌, String, List, [], ◌∷◌, All,
  has_prefix, split, split-join, split-Lacks, Lacks, join, str_eq, Bool-cases, if-holds, arith,
}
use mantlerd.Base.Paths.{add_element, resolve, onto, path_of, clean}

-- An element that leads from a directory to what it holds.
abbrev pub IsName : String → Type 0
IsName s = Lacks "/" s × (((str_eq s "" || str_eq s ".") ≡ false) × (str_eq s ".." ≡ false))

add_element-IsName :
    (stack : List String) (s : String)
    → Lacks "/" s
    → All IsName stack
    → All IsName (add_element true stack s)
unfolding add_element
add_element-IsName [] s l h =
    if-holds (All IsName) (str_eq s "" || str_eq s ".") (λ e. tt)
      (λ e. if-holds (All IsName) (str_eq s "..") (λ f. tt) (λ f. ((l, (e, f)), tt)))
add_element-IsName (last ∷ before) s l h =
    if-holds (All IsName) (str_eq s "" || str_eq s ".") (λ e. h)
      (λ e.
        if-holds (All IsName) (str_eq s "..")
          (λ f.
            if-holds (All IsName) (str_eq last "..") (λ g. absurd (let d = h.0.1.1 in cc (d, g)))
              (λ g. h.1))
          (λ f. ((l, (e, f)), h)))

pub resolve-IsName :
    (stack elements : List String)
    → All (Lacks "/") elements
    → All IsName stack
    → All IsName (resolve true stack elements)
unfolding resolve
resolve-IsName stack [] l h = h
resolve-IsName stack (s ∷ elements) l h =
    resolve-IsName (add_element true stack s) elements l.1 (add_element-IsName stack s l.0 h)

pub onto-IsName :
    (stack parts : List String)
    → All IsName stack
    → All IsName parts
    → All IsName (onto stack parts)
onto-IsName [] parts h k = k
onto-IsName (last ∷ before) parts h k = onto-IsName before (last ∷ parts) h.1 (h.0, k)

pub names-Lacks : (parts : List String) → All IsName parts → All (Lacks "/") parts
names-Lacks [] h = tt
names-Lacks (p ∷ parts) h = (h.0.0, names-Lacks parts h.1)

-- No element of the path is one dot or two.
abbrev pub IsDirect : String → Type 0
IsDirect path = All (λ s. (str_eq s "." ≡ false) × (str_eq s ".." ≡ false)) (split "/" path)

names-direct :
    (parts : List String)
    → All IsName parts
    → All (λ s. (str_eq s "." ≡ false) × (str_eq s ".." ≡ false)) parts
names-direct [] h = tt
names-direct (p ∷ parts) h = ((let e = h.0.1.0 in ground arith, h.0.1.1), names-direct parts h.1)

pub rooted-eq : (s : String) → "/" ++ s ≡ String.◌∷◌ "/" s
rooted-eq s = cons-append "/" "" s ∙ ap (String.◌∷◌ "/") (nil-append s)

rooted-IsDirect : (parts : List String) → All IsName parts → IsDirect ("/" ++ join "/" parts)
unfolding join split
rooted-IsDirect [] h = ((refl, refl), ((refl, refl), tt))
rooted-IsDirect (p ∷ parts) h =
    let e : split "/" ("/" ++ join "/" (p ∷ parts)) ≡ "" ∷ p ∷ parts =
      ap (split "/") (rooted-eq (join "/" (p ∷ parts)))
      ∙ ap (λ l. "" ∷ l) (split-join "/" p parts (names-Lacks (p ∷ parts) h)) in
    subst (All _) (sym e) ((refl, refl), names-direct (p ∷ parts) h)

pub clean-IsDirect : (path : String) → has_prefix path "/" ≡ true → IsDirect (clean path)
unfolding clean
clean-IsDirect path rooted = rw rooted (
    rooted-IsDirect (onto (resolve true [] (split "/" path)) []) (
      onto-IsName (resolve true [] (split "/" path)) []
        (resolve-IsName [] (split "/" path) (split-Lacks "/" path) tt) tt))

-- What the elements of a path that is not rooted satisfy.
abbrev IsPart : String → Type 0
IsPart s = Lacks "/" s × (str_eq s "" ≡ false)

add_element-IsPart :
    (stack : List String) (s : String)
    → Lacks "/" s
    → All IsPart stack
    → All IsPart (add_element false stack s)
unfolding add_element
add_element-IsPart [] s l h =
    if-holds (All IsPart) (str_eq s "" || str_eq s ".") (λ e. tt)
      (λ e.
        if-holds (All IsPart) (str_eq s "..") (λ f. (((refl, (refl, tt)), refl), tt))
          (λ f. ((l, ground arith), tt)))
add_element-IsPart (last ∷ before) s l h =
    if-holds (All IsPart) (str_eq s "" || str_eq s ".") (λ e. h)
      (λ e.
        if-holds (All IsPart) (str_eq s "..")
          (λ f.
            if-holds (All IsPart) (str_eq last "..") (λ g. (((refl, (refl, tt)), refl), h))
              (λ g. h.1))
          (λ f. ((l, ground arith), h)))

resolve-IsPart :
    (stack elements : List String)
    → All (Lacks "/") elements
    → All IsPart stack
    → All IsPart (resolve false stack elements)
unfolding resolve
resolve-IsPart stack [] l h = h
resolve-IsPart stack (s ∷ elements) l h =
    resolve-IsPart (add_element false stack s) elements l.1 (add_element-IsPart stack s l.0 h)

onto-IsPart :
    (stack parts : List String)
    → All IsPart stack
    → All IsPart parts
    → All IsPart (onto stack parts)
onto-IsPart [] parts h k = k
onto-IsPart (last ∷ before) parts h k = onto-IsPart before (last ∷ parts) h.1 (h.0, k)

part-unrooted : (p s : String) → IsPart p → has_prefix (p ++ s) "/" ≡ false
unfolding has_prefix
part-unrooted String.[] s h = absurd (let e = h.1 in cc e)
part-unrooted (String.◌∷◌ c p) s h = rw (cons-append c p s) (let e = h.0.0 in ground arith)

path_of-unrooted :
    (parts : List String) → All IsPart parts → has_prefix (path_of false parts) "/" ≡ false
unfolding has_prefix join
path_of-unrooted [] h = refl
path_of-unrooted (p ∷ []) h =
    subst (λ s. has_prefix s "/" ≡ false) (append-nil p) (part-unrooted p "" h.0)
path_of-unrooted (p ∷ q ∷ parts) h = part-unrooted p (String.◌∷◌ "/" (join "/" (q ∷ parts))) h.0

pub clean-rooted : (path : String) → has_prefix (clean path) "/" ≡ true → has_prefix path "/" ≡ true
unfolding clean
clean-rooted path h = elim (Bool-cases (has_prefix path "/")) [
  | inl rooted ↦ rooted
  | inr relative ↦
      let parts = onto (resolve false [] (split "/" path)) [] in
      let unrooted = path_of-unrooted parts (
        onto-IsPart (resolve false [] (split "/" path)) []
          (resolve-IsPart [] (split "/" path) (split-Lacks "/" path) tt) tt) in
      let k : has_prefix (path_of false parts) "/" ≡ true = rw relative at h in
      absurd (cc (unrooted, k))
]
