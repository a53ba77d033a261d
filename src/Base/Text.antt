-- ===== src/Base/Text.antt =====
-- What the program uses of Go's package strings, over Unicode code points.
use Prim.Native.Char.{Char, code}
use Prim.Native.String.{String, ◌++◌}
use text.Mathlib.TextLemmas.{nil-append, cons-append}
use text.Mathlib.TextEquality.{Char-path}
use native.Mathlib.Omega.{arith}
use mathlib.Core.Path.{◌≡◌, refl, sym, ap, ◌∙◌, ap₂, subst}
use mathlib.Core.Logic.{inl, inr}
use mathlib.Core.Bool.{Bool, true, false, ◌&&◌, ◌||◌}
use mantlerd.Base.Tests.{leb, ◌==◌, if◌then◌else◌, Bool-cases, ==_iff, &&-eq-true}

-- unicode.IsSpace: the code points with the property White_Space.
pub is_space : Char → Bool
is_space c =
    let n = code c in
    (leb 9 n && leb n 13)
    || n == 32
    || n == 133
    || n == 160
    || n == 5760
    || (leb 8192 n && leb n 8202)
    || n == 8232
    || n == 8233
    || n == 8239
    || n == 8287
    || n == 12288

abbrev pub is_empty : String → Bool
is_empty String.[] = true
is_empty (String.◌∷◌ c s) = false

pub trim_left : String → String
trim_left String.[] = ""
trim_left (String.◌∷◌ c s) = if is_space c then trim_left s else String.◌∷◌ c s

-- A character before a text whose right end is trimmed.
abbrev before_trimmed : Char → String → String
before_trimmed c String.[] = if is_space c then "" else String.◌∷◌ c ""
before_trimmed c (String.◌∷◌ d s) = String.◌∷◌ c (String.◌∷◌ d s)

pub trim_right : String → String
trim_right String.[] = ""
trim_right (String.◌∷◌ c s) = before_trimmed c (trim_right s)

-- strings.TrimSpace
unfoldable pub trim_space : String → String
unfolding trim_left trim_right is_space
trim_space s = trim_right (trim_left s)

-- The letter of `to` at the place of `c` in `from`.
translate : String → String → Char → Char
translate (String.◌∷◌ a from) (String.◌∷◌ b to) c =
    if code c == code a then b else translate from to c
translate _ _ c = c

-- strings.ToLower and strings.ToUpper at the ASCII letters; other letters stay as they are.
unfoldable pub to_lower : String → String
unfolding translate
to_lower String.[] = ""
to_lower (String.◌∷◌ c s) =
    String.◌∷◌ (translate "ABCDEFGHIJKLMNOPQRSTUVWXYZ" "abcdefghijklmnopqrstuvwxyz" c) (to_lower s)

unfoldable pub to_upper : String → String
unfolding translate
to_upper String.[] = ""
to_upper (String.◌∷◌ c s) =
    String.◌∷◌ (translate "abcdefghijklmnopqrstuvwxyz" "ABCDEFGHIJKLMNOPQRSTUVWXYZ" c) (to_upper s)

-- strings.HasPrefix(s, p)
unfoldable pub has_prefix : String → String → Bool
has_prefix s String.[] = true
has_prefix String.[] (String.◌∷◌ d p) = false
has_prefix (String.◌∷◌ c s) (String.◌∷◌ d p) = code c == code d && has_prefix s p

-- strings.Contains(s, p)
unfoldable pub contains : String → String → Bool
unfolding has_prefix
contains String.[] p = is_empty p
contains (String.◌∷◌ c s) p = has_prefix (String.◌∷◌ c s) p || contains s p

-- strings.TrimPrefix(s, p)
drop_prefix : String → String → String
drop_prefix s String.[] = s
drop_prefix String.[] (String.◌∷◌ d p) = ""
drop_prefix (String.◌∷◌ c s) (String.◌∷◌ d p) = drop_prefix s p

unfoldable pub trim_prefix : String → String → String
unfolding drop_prefix has_prefix
trim_prefix s p = if has_prefix s p then drop_prefix s p else s

append-drop_prefix : (s p : String) → has_prefix s p ≡ true → p ++ drop_prefix s p ≡ s
unfolding has_prefix drop_prefix
append-drop_prefix s String.[] h = nil-append s
append-drop_prefix String.[] (String.◌∷◌ d p) h = ground arith
append-drop_prefix (String.◌∷◌ c s) (String.◌∷◌ d p) h =
    let (e, k) = &&-eq-true (code c == code d) (has_prefix s p) h in
    cons-append d p (drop_prefix s p)
    ∙ ap₂ String.◌∷◌ (Char-path d c (sym ((==_iff _ _).0 e))) (append-drop_prefix s p k)

-- A text that does not begin with white space.
abbrev StartsClean : String → Type 0
StartsClean String.[] = Unit
StartsClean (String.◌∷◌ c s) = is_space c ≡ false

trim_left-StartsClean : (s : String) → StartsClean (trim_left s)
unfolding trim_left
trim_left-StartsClean String.[] = tt
trim_left-StartsClean (String.◌∷◌ c s) = elim (Bool-cases (is_space c)) [
  | inl e ↦ rw e (trim_left-StartsClean s)
  | inr e ↦ rw e e
]

trim_right-StartsClean : (s : String) → StartsClean s → StartsClean (trim_right s)
unfolding trim_right
trim_right-StartsClean String.[] h = tt
trim_right-StartsClean (String.◌∷◌ c s) h = go (trim_right s)
  where
    go : (t : String) → StartsClean (before_trimmed c t)
    go String.[] = rw h h
    go (String.◌∷◌ d t) = h

trim_left_of_StartsClean : (s : String) → StartsClean s → trim_left s ≡ s
unfolding trim_left
trim_left_of_StartsClean String.[] h = refl
trim_left_of_StartsClean (String.◌∷◌ c s) h = rw h

trim_right_idem : (s : String) → trim_right (trim_right s) ≡ trim_right s
unfolding trim_right
trim_right_idem String.[] = refl
trim_right_idem (String.◌∷◌ c s) = go (trim_right s) (trim_right_idem s)
  where
    go : (t : String) → trim_right t ≡ t → trim_right (before_trimmed c t) ≡ before_trimmed c t
    go String.[] e = elim (Bool-cases (is_space c)) [ inl b ↦ rw b | inr b ↦ rw b (rw b) ]
    go (String.◌∷◌ d t) e = rw e

-- Trimming twice is trimming once.
pub trim_space_idem : (s : String) → trim_space (trim_space s) ≡ trim_space s
unfolding trim_space
trim_space_idem s =
    let clean = trim_right-StartsClean (trim_left s) (trim_left-StartsClean s) in
    rw (trim_left_of_StartsClean (trim_right (trim_left s)) clean) (trim_right_idem (trim_left s))

-- A prefix and what TrimPrefix leaves make up the text.
pub append-trim_prefix : (s p : String) → has_prefix s p ≡ true → p ++ trim_prefix s p ≡ s
unfolding trim_prefix
append-trim_prefix s p h = rw h (append-drop_prefix s p h)

before_trimmed-cons :
    (c : Char) (s : String) → is_empty s ≡ false → before_trimmed c s ≡ String.◌∷◌ c s
before_trimmed-cons c String.[] h = ground (arith, h)
before_trimmed-cons c (String.◌∷◌ d s) h = refl

pub is_empty-append : (s t : String) → is_empty t ≡ false → is_empty (s ++ t) ≡ false
is_empty-append String.[] t h = rw (nil-append t) h
is_empty-append (String.◌∷◌ c s) t h = rw (cons-append c s t) refl

-- A text whose right end is not white space.
pub EndsClean : String → Type 0
unfolding trim_right
EndsClean s = (trim_right s ≡ s) × (is_empty s ≡ false)

pub append-EndsClean : (s t : String) → EndsClean t → EndsClean (s ++ t)
unfolding EndsClean trim_right
append-EndsClean String.[] t h = rw (nil-append t) h
append-EndsClean (String.◌∷◌ c s) t h =
    let k = append-EndsClean s t h in
    rw (cons-append c s t) (ap (before_trimmed c) k.0 ∙ before_trimmed-cons c (s ++ t) k.1, refl)

pub quote-EndsClean : EndsClean "\""
unfolding EndsClean trim_right is_space
quote-EndsClean = (refl, refl)

-- A text in front of one whose right end is clean, where trimming changes neither end of the first.
pub trim_space-append :
    (s t : String)
    → trim_space s ≡ s
    → is_empty s ≡ false
    → EndsClean t
    → trim_space (s ++ t) ≡ s ++ t
unfolding trim_space EndsClean
trim_space-append s t h full clean =
    let starts =
      subst StartsClean h (trim_right-StartsClean (trim_left s) (trim_left-StartsClean s)) in
    ap trim_right (trim_left_of_StartsClean (s ++ t) (append-StartsClean s full starts))
    ∙ (append-EndsClean s t clean).0
  where
    append-StartsClean : (r : String) → is_empty r ≡ false → StartsClean r → StartsClean (r ++ t)
    append-StartsClean String.[] e k = absurd (ground (arith, e))
    append-StartsClean (String.◌∷◌ c r) e k = rw (cons-append c r t) k
