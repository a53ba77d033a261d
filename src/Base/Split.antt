-- ===== src/Base/Split.antt =====
-- strings.Split at a separator of one character, and the concatenation of texts.
use Prim.Native.Char.{Char, code}
use Prim.Native.String.{String, ◌++◌}
use text.Mathlib.TextLemmas.{nil-append, cons-append}
use mathlib.Core.Path.{◌≡◌, refl, sym, ap, ◌∙◌}
use mathlib.Core.Bool.{Bool, true, false}
use mathlib.Core.List.{List, [], ◌∷◌, ◌++◌ as append}
use text.Mathlib.TextEquality.{Char-path}
use mantlerd.Base.Lists.{All}
use mantlerd.Base.Tests.{◌==◌, ==_iff}

-- The separator stands before the part that begins here, or the character belongs to that part.
abbrev extend : Bool → Char → List String → List String
extend true c parts = "" ∷ parts
extend false c [] = String.◌∷◌ c "" ∷ []
extend false c (p ∷ parts) = String.◌∷◌ c p ∷ parts

unfoldable pub split : Char → String → List String
split sep String.[] = "" ∷ []
split sep (String.◌∷◌ c s) = extend (code c == code sep) c (split sep s)

-- No character of the text is the separator.
abbrev pub Lacks : Char → String → Type 0
Lacks sep String.[] = Unit
Lacks sep (String.◌∷◌ c s) = ((code c == code sep) ≡ false) × Lacks sep s

unfoldable pub join : Char → List String → String
join sep [] = ""
join sep (p ∷ []) = p
join sep (p ∷ q ∷ parts) = p ++ String.◌∷◌ sep (join sep (q ∷ parts))

split-cons : (sep : Char) (s : String) → (p : String) × (ps : List String) × (split sep s ≡ p ∷ ps)
unfolding split
split-cons sep String.[] = ("", [], refl)
split-cons sep (String.◌∷◌ c s) = go (code c == code sep) (split-cons sep s)
  where
    go :
        (b : Bool)
        → ((p : String) × (ps : List String) × (split sep s ≡ p ∷ ps))
        → (p : String) × (ps : List String) × (extend b c (split sep s) ≡ p ∷ ps)
    go true h = ("", split sep s, refl)
    go false (p, ps, e) = (String.◌∷◌ c p, ps, rw e)

join-extend :
    (sep c : Char) (p : String) (ps : List String) (b : Bool)
    → (code c == code sep) ≡ b
    → join sep (extend b c (p ∷ ps)) ≡ String.◌∷◌ c (join sep (p ∷ ps))
unfolding join
join-extend sep c p ps true e =
    nil-append (String.◌∷◌ sep (join sep (p ∷ ps)))
    ∙ ap (λ x. String.◌∷◌ x (join sep (p ∷ ps))) (sym (Char-path c sep ((==_iff _ _).0 e)))
join-extend sep c p [] false e = refl
join-extend sep c p (q ∷ ps) false e = cons-append c p (String.◌∷◌ sep (join sep (q ∷ ps)))

-- Joining the parts gives the text back.
pub join-split : (sep : Char) (s : String) → join sep (split sep s) ≡ s
unfolding split
join-split sep String.[] = unfold join in refl
join-split sep (String.◌∷◌ c s) =
    let (p, ps, e) = split-cons sep s in
    ap (λ l. join sep (extend (code c == code sep) c l)) e
    ∙ join-extend sep c p ps (code c == code sep) refl
    ∙ ap (String.◌∷◌ c) (ap (join sep) (sym e) ∙ join-split sep s)

-- A text with no separator, the separator, and more text.
pub split-append :
    (sep : Char) (p s : String) → Lacks sep p → split sep (p ++ String.◌∷◌ sep s) ≡ p ∷ split sep s
unfolding split
split-append sep String.[] s h =
    rw (nil-append (String.◌∷◌ sep s)) (rw ((==_iff (code sep) (code sep)).1 refl))
split-append sep (String.◌∷◌ c p) s h =
    rw (cons-append c p (String.◌∷◌ sep s)) (rw (h.0, split-append sep p s h.1))

pub split_of_Lacks : (sep : Char) (p : String) → Lacks sep p → split sep p ≡ p ∷ []
unfolding split
split_of_Lacks sep String.[] h = refl
split_of_Lacks sep (String.◌∷◌ c p) h = rw (h.0, split_of_Lacks sep p h.1)

-- Splitting a join of parts that lack the separator gives the parts back.
pub split-join :
    (sep : Char) (p : String) (ps : List String)
    → All (Lacks sep) (p ∷ ps)
    → split sep (join sep (p ∷ ps)) ≡ p ∷ ps
unfolding join
split-join sep p [] h = split_of_Lacks sep p h.0
split-join sep p (q ∷ ps) h =
    split-append sep p (join sep (q ∷ ps)) h.0 ∙ ap (λ l. p ∷ l) (split-join sep q ps h.1)

extend-Lacks :
    (sep c : Char) (parts : List String) (b : Bool)
    → (code c == code sep) ≡ b
    → All (Lacks sep) parts
    → All (Lacks sep) (extend b c parts)
extend-Lacks sep c parts true e h = (tt, h)
extend-Lacks sep c [] false e h = ((e, tt), tt)
extend-Lacks sep c (p ∷ parts) false e h = ((e, h.0), h.1)

-- No part of a split has the separator.
pub split-Lacks : (sep : Char) (s : String) → All (Lacks sep) (split sep s)
unfolding split
split-Lacks sep String.[] = (tt, tt)
split-Lacks sep (String.◌∷◌ c s) =
    extend-Lacks sep c (split sep s) (code c == code sep) refl (split-Lacks sep s)

extend-append :
    (b : Bool) (c : Char) (p : String) (ps qs : List String)
    → extend b c (append (p ∷ ps) qs) ≡ append (extend b c (p ∷ ps)) qs
extend-append true c p ps qs = refl
extend-append false c p ps qs = refl

-- The parts of two texts with the separator between them.
pub split-between :
    (sep : Char) (s t : String)
    → split sep (s ++ String.◌∷◌ sep t) ≡ append (split sep s) (split sep t)
unfolding split
split-between sep String.[] t =
    rw (nil-append (String.◌∷◌ sep t)) (rw ((==_iff (code sep) (code sep)).1 refl) refl)
split-between sep (String.◌∷◌ c s) t =
    let (p, ps, e) = split-cons sep s in
    let b = code c == code sep in
    ap (split sep) (cons-append c s (String.◌∷◌ sep t))
    ∙ ap (λ l. extend b c l) (split-between sep s t ∙ ap (λ l. append l (split sep t)) e)
    ∙ extend-append b c p ps (split sep t)
    ∙ ap (λ l. append (extend b c l) (split sep t)) (sym e)
