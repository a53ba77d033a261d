-- ===== src/Base/Elem.antt =====
-- Membership of a text in a list, which also stands for Go's `map[string]struct{}`.
use Prim.Native.String.{String}
use mathlib.Core.Path.{◌≡◌, refl}
use mathlib.Core.Logic.{inl, inr}
use mathlib.Core.Bool.{Bool, true, false}
use mathlib.Core.List.{List, [], ◌∷◌, Memᴰ}
use text.Mathlib.Text.{◌==◌}
use text.Mathlib.TextEquality.{eq_iff}
use mantlerd.Base.Tests.{Bool-cases}
use mantlerd.Base.Lists.{any, any_of_Memᴰ}

unfoldable pub elem : String → List String → Bool
elem s = any λ t. s == t

pub elem-Memᴰ : (s : String) (xs : List String) → elem s xs ≡ true → Memᴰ s xs
unfolding elem
elem-Memᴰ s [] h = cc
elem-Memᴰ s (x ∷ xs) h = elim (Bool-cases (s == x)) [
  | inl e ↦ Memᴰ.head ((eq_iff s x).0 e)
  | inr e ↦ Memᴰ.tail (elem-Memᴰ s xs (rw e at h))
]

pub Memᴰ-elem : (s : String) (xs : List String) → Memᴰ s xs → elem s xs ≡ true
unfolding elem
Memᴰ-elem s xs m = any_of_Memᴰ (λ t. s == t) xs m ((eq_iff s s).1 refl)

pub not-Memᴰ-elem : (s : String) (xs : List String) → elem s xs ≡ false → ¬ Memᴰ s xs
not-Memᴰ-elem s xs h m = let k = Memᴰ-elem s xs m in cc
